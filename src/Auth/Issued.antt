-- ===== src/Auth/Issued.antt =====
-- That an issued token is its user's: `issueToken` and `principalFromRequest` of
-- apps/server/src/auth.ts.
use uma_agent.Base.{
  ℕ, ◌≡◌, refl, sym, subst, ap, ◌∙◌, String, true, false, ◌&&◌, ◌||◌, Option, none, some, List, [],
  ◌∷◌, ◌++◌, if◌then◌else◌, any, find, eqs, eqs_self, is_some_b, ok, Text, same_text,
  same_text_self, arith,
}
use uma_agent.Auth.{
  AuthDatabase, AuthPrincipal, TokenRow, User, find_auth_token, put_auth_token, admit_row,
  find_user, find_token, user_of, access_token,
}
use uma_agent.Auth.Tokens.{IsId, IsSecret, token_text, parse-token_text}
use uma_agent.Auth.Requests.{
  IssuedToken, personal_principal, principal_from_request, issue_token, new_row, look_up, by_cookie,
}

find-append_new :
    (id : Text) (token_hash : String) (row : TokenRow) (ts : List TokenRow)
    → row.id ≡ id
    → row.token_hash ≡ token_hash
    → any (λ t. same_text t.id id || eqs t.token_hash token_hash) ts ≡ false
    → find (λ t. same_text t.id id && eqs t.token_hash token_hash) (ts ++ (row ∷ [])) ≡ some row
find-append_new id token_hash row [] e f h = ground (arith, same_text_self id, eqs_self token_hash)
find-append_new id token_hash row (t ∷ ts) e f h =
    ground (arith, find-append_new id token_hash row ts e f)

by_personal :
    (personal : AuthDatabase × Option AuthPrincipal) (cookie : AuthDatabase → Option AuthPrincipal)
    (p : AuthPrincipal)
    → personal.1 ≡ some p
    → (if is_some_b personal.1 then personal else (personal.0, cookie personal.0)).1 ≡ some p
by_personal personal cookie p h = ground arith

module _ (hash : Text → String) where
  abbrev owner : String → User → AuthPrincipal
  owner user_id u = record {
    user_id = user_id;
    role = u.role;
    method = access_token;
    scopes = "user" ∷ [];
  }

  -- What a success of `issueToken` leaves.
  issued_row :
      (id secret : Text) (user_id : String) (db after : AuthDatabase) (t : IssuedToken)
      → issue_token hash id secret user_id db ≡ (after, ok t)
      → (t.token ≡ token_text id secret)
        × (find_token id (hash secret) after ≡ some (new_row hash id secret user_id))
        × (after.users ≡ db.users)
  unfolding issue_token put_auth_token
  issued_row id secret user_id db after t h =
      ground (
        arith,
        find-append_new id (hash secret) (new_row hash id secret user_id) db.tokens refl refl,
      )

  admitted :
      (now : ℕ) (t : TokenRow) (u : User) (db : AuthDatabase)
      → u.active ≡ true
      → t.revoked_at ≡ none
      → t.expires_at ≡ none
      → (admit_row now (some t) (some u) db).1
        ≡ some (record {
          user_id = t.user_id;
          role = u.role;
          method = access_token;
          scopes = t.scopes;
        })
  admitted now t u db a r e = ground arith

  issued_principal :
      (now : ℕ) (id secret : Text) (user_id : String) (u : User) (db : AuthDatabase)
      → IsId id
      → IsSecret secret
      → find_token id (hash secret) db ≡ some (new_row hash id secret user_id)
      → find_user user_id db ≡ some u
      → u.active ≡ true
      → (personal_principal hash now (some (token_text id secret)) db).1 ≡ some (owner user_id u)
  unfolding personal_principal look_up find_auth_token user_of
  issued_principal now id secret user_id u db hi hs e f a =
      ap (λ o. (look_up hash now o db).1) (parse-token_text id secret hi hs)
      ∙ ap (λ o. (admit_row now o (user_of o db) db).1) e
      ∙ ap (λ o. (admit_row now (some (new_row hash id secret user_id)) o db).1) f
      ∙ admitted now (new_row hash id secret user_id) u db a refl refl

  shown :
      (now : ℕ) (cookie : Option Text) (token : Text) (db : AuthDatabase) (p : AuthPrincipal)
      → (personal_principal hash now (some token) db).1 ≡ some p
      → (principal_from_request hash now (some token) cookie db).1 ≡ some p
  unfolding principal_from_request
  shown now cookie token db p h =
      by_personal (personal_principal hash now (some token) db) (λ d. by_cookie hash now cookie d) p
        h

  -- A token that is issued is its user's: where `issueToken` succeeds for an active user, with an id
  -- and a secret of the form that is drawn, a request that shows the text it returned comes, at any
  -- time and whatever its cookie, from that user, with the user's role.
  pub issued_authenticates :
      (now : ℕ) (cookie : Option Text) (id secret : Text) (user_id : String) (u : User)
      (db after : AuthDatabase) (t : IssuedToken)
      → IsId id
      → IsSecret secret
      → find_user user_id db ≡ some u
      → u.active ≡ true
      → issue_token hash id secret user_id db ≡ (after, ok t)
      → (principal_from_request hash now (some t.token) cookie after).1 ≡ some (owner user_id u)
  unfolding principal_from_request find_user
  issued_authenticates now cookie id secret user_id u db after t hi hs f a h =
      let row = issued_row id secret user_id db after t h in
      let found =
        issued_principal now id secret user_id u after hi hs row.1
          (ap (find (λ v. eqs v.id user_id)) row.2 ∙ f) a in
      shown now cookie t.token after (owner user_id u) (
        subst (λ v. (personal_principal hash now (some v) after).1 ≡ some (owner user_id u))
          (sym row.0) found)
