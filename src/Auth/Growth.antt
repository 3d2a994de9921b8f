-- ===== src/Auth/Growth.antt =====
-- What the calls of apps/server/src/auth.ts do to the table of tokens.
use uma_agent.Base.{
  ℕ, ◌≡◌, refl, sym, subst, String, Bool, true, false, not, ◌||◌, Option, none, some, List, [], ◌∷◌,
  ◌++◌, if◌then◌else◌, leb, any, map, eqs, is_some_b, ok, err, Text, same_text, arith,
}
use uma_agent.Auth.{
  AuthDatabase, AuthPrincipal, CodeRow, TokenRow, User, find_auth_token, revoke_auth_token,
  revoke_row, touch, is_past, access_token, create_user, put_auth_token, admit_row, find_token,
  user_of,
}
use uma_agent.Auth.Codes.{
  Authorize, Exchange, put_authorization_code, consume_authorization_code, authorize,
  exchange_authorization_code, authorized, exchanged, redirect_allowed,
}
use uma_agent.Auth.Tokens.{parse_personal_token}
use uma_agent.Auth.Requests.{
  personal_principal, principal_from_request, issue_token, issued, new_row, register, registered,
  create_web_session, logout, look_up, by_cookie,
}
use uma_agent.Auth.Calls.{
  Call, registers, issues, asks, revokes, authorizes, exchanges, creates_session, logs_out, step,
}

-- What a call does to the table: nothing, a change of rows that keeps their ids and never takes a
-- revocation back, or a new row with an id of its own.
pub data Grows : List TokenRow → List TokenRow → Type 0 where
  kept : {ts : List TokenRow} → Grows ts ts
  mapped :
      {ts : List TokenRow} (f : TokenRow → TokenRow)
      → ((t : TokenRow) → (f t).id ≡ t.id)
      → ((t : TokenRow) → is_some_b t.revoked_at ≡ true → is_some_b (f t).revoked_at ≡ true)
      → Grows ts (map f ts)
  added :
      {ts : List TokenRow} (row : TokenRow)
      → any (λ t. same_text t.id row.id) ts ≡ false
      → Grows ts (ts ++ (row ∷ []))

any_left :
    {A : Type 0} (p q : A → Bool) (xs : List A)
    → any (λ t. p t || q t) xs ≡ false
    → any p xs ≡ false
any_left p q [] h = refl
any_left p q (x ∷ xs) h = ground (arith, any_left p q xs)

Grows-if {ℓ} :
    {A : Type ℓ} (ts : List TokenRow) (b : Bool) (x y : AuthDatabase × A)
    → Grows ts x.0.tokens
    → Grows ts y.0.tokens
    → Grows ts (if b then x else y).0.tokens
Grows-if ts true x y g h = g
Grows-if ts false x y g h = h

touched : (now : ℕ) (id : Text) (ts : List TokenRow) → Grows ts (map (touch now id) ts)
touched now id ts = mapped (touch now id) (λ r. ground arith) (λ r h. ground arith)

admit_row-Grows :
    (now : ℕ) (t : Option TokenRow) (u : Option User) (db : AuthDatabase)
    → Grows db.tokens (admit_row now t u db).0.tokens
admit_row-Grows now none u db = kept
admit_row-Grows now (some t) none db = kept
admit_row-Grows now (some t) (some u) db =
    Grows-if db.tokens (not u.active || is_some_b t.revoked_at || is_past now t.expires_at)
      (db, none)
      (
        record db { tokens = map (touch now t.id) db.tokens },
        some (record {
          user_id = t.user_id;
          role = u.role;
          method = access_token;
          scopes = t.scopes;
        }),
      )
      kept (touched now t.id db.tokens)

put_by :
    (hash : Text → String) (id secret : Text) (user_id : String) (row : TokenRow)
    (db : AuthDatabase) (a b : Bool)
    → row.id ≡ id
    → any (λ t. same_text t.id row.id || eqs t.token_hash row.token_hash) db.tokens ≡ a
    → Grows db.tokens
        (issued hash id secret db (
          if a
          then err "UNIQUE constraint failed"
          else if b
          then err "FOREIGN KEY constraint failed"
          else ok (record db { tokens = db.tokens ++ (row ∷ []) }))).0.tokens
put_by hash id secret user_id row db true b e h = kept
put_by hash id secret user_id row db false true e h = kept
put_by hash id secret user_id row db false false e h =
    added row
      (any_left (λ t. same_text t.id row.id) (λ t. eqs t.token_hash row.token_hash) db.tokens h)

module _ (hash challenge_of : Text → String) where
  look_up-Grows :
      (now : ℕ) (o : Option (Text × Text)) (db : AuthDatabase)
      → Grows db.tokens (look_up hash now o db).0.tokens
  unfolding look_up find_auth_token
  look_up-Grows now none db = kept
  look_up-Grows now (some (id, secret)) db =
      admit_row-Grows now (find_token id (hash secret) db)
        (user_of (find_token id (hash secret) db) db) db

  personal_principal-Grows :
      (now : ℕ) (o : Option Text) (db : AuthDatabase)
      → Grows db.tokens (personal_principal hash now o db).0.tokens
  unfolding personal_principal
  personal_principal-Grows now none db = kept
  personal_principal-Grows now (some token) db = look_up-Grows now (parse_personal_token token) db

  issue_token-Grows :
      (id secret : Text) (user_id : String) (db : AuthDatabase)
      → Grows db.tokens (issue_token hash id secret user_id db).0.tokens
  unfolding issue_token put_auth_token
  issue_token-Grows id secret user_id db =
      put_by hash id secret user_id (new_row hash id secret user_id) db _ _ refl refl

  registered-Grows :
      (user_id : String) (id secret : Text) (db : AuthDatabase) (b : Bool) (users : List User)
      → Grows db.tokens
          (registered hash id secret user_id db (
            if b
            then err "UNIQUE constraint failed"
            else ok (record db { users = users }))).0.tokens
  unfolding registered
  registered-Grows user_id id secret db true users = kept
  registered-Grows user_id id secret db false users =
      issue_token-Grows id secret user_id (record db { users = users })

  exchanged-Grows :
      (now : ℕ) (id secret : Text) (input : Exchange) (db : AuthDatabase) (o : Option CodeRow)
      → Grows db.tokens (exchanged hash challenge_of now id secret input db o).0.tokens
  unfolding exchanged
  exchanged-Grows now id secret input db none = kept
  exchanged-Grows now id secret input db (some row) =
      let wrong = not (eqs (challenge_of input.code_verifier) row.code_challenge) in
      let token = issue_token hash id secret row.user_id db in
      Grows-if db.tokens
        (leb row.expires_at now
          || not (same_text row.client_id input.client_id)
          || not (same_text row.redirect_uri input.redirect_uri))
        (db, err "Invalid authorization code")
        (if wrong then (db, err "Invalid PKCE verifier") else token) kept
        (Grows-if db.tokens wrong (db, err "Invalid PKCE verifier") token kept
          (issue_token-Grows id secret row.user_id db))

  authorized-tokens :
      (now : ℕ) (drawn : String) (input : Authorize) (db : AuthDatabase) (o : Option AuthPrincipal)
      → (authorized now drawn input db o).0.tokens ≡ db.tokens
  unfolding authorized put_authorization_code
  authorized-tokens now drawn input db none = refl
  authorized-tokens now drawn input db (some principal) = ground arith

  pub step-Grows :
      (c : Call) (db : AuthDatabase) → Grows db.tokens (step hash challenge_of c db).tokens
  unfolding step register create_user principal_from_request revoke_auth_token authorize authorized
      put_authorization_code exchange_authorization_code consume_authorization_code
      create_web_session logout
  step-Grows (registers user_id id secret) db = registered-Grows user_id id secret db _ _
  step-Grows (issues id secret user_id) db = issue_token-Grows id secret user_id db
  step-Grows (asks now bearer cookie) db =
      let personal = personal_principal hash now bearer db in
      Grows-if db.tokens (is_some_b personal.1) personal
        (personal.0, by_cookie hash now cookie personal.0) (personal_principal-Grows now bearer db)
        (personal_principal-Grows now bearer db)
  step-Grows (revokes now user_id id) db =
      mapped (revoke_row now user_id id) (λ t. ground arith) (λ t h. ground arith)
  step-Grows (authorizes setting now drawn input) db =
      let found = personal_principal hash now (some input.token) db in
      Grows-if db.tokens (redirect_allowed setting input.client_id input.redirect_uri)
        (authorized now drawn input found.0 found.1) (db, err "OAuth redirect is not allowed")
        (subst (Grows db.tokens) (sym (authorized-tokens now drawn input found.0 found.1))
          (personal_principal-Grows now (some input.token) db))
        kept
  step-Grows (exchanges now id secret input) db =
      exchanged-Grows now id secret input (consume_authorization_code input.code db).0
        (consume_authorization_code input.code db).1
  step-Grows (creates_session now hours token user_id) db = kept
  step-Grows (logs_out none) db = kept
  step-Grows (logs_out (some [])) db = kept
  step-Grows (logs_out (some (x ∷ token))) db = kept
