-- ===== src/Auth/Revoked.antt =====
-- That a revoked token is of no more use, over any calls of apps/server/src/auth.ts.
use uma_agent.Base.{
  ℕ, ◌≤◌, ◌≡◌, refl, subst, ap, ◌∙◌, Bool-cases, inl, inr, length-select-append, String, Bool, true,
  false, not, ◌&&◌, ◌||◌, Option, none, some, List, [], ◌∷◌, ◌++◌, length, find, any, select, map,
  eqs, is_some_b, Text, same_text, same_text_sound, arith,
}
use uma_agent.Auth.{
  AuthDatabase, TokenRow, User, find_auth_token, revoke_auth_token, revoke_row, admit_row,
  find_token, user_of,
}
use uma_agent.Auth.Tokens.{parse_personal_token}
use uma_agent.Auth.Requests.{personal_principal, look_up}
use uma_agent.Auth.Calls.{Call, step, run}
use uma_agent.Auth.Growth.{Grows, kept, mapped, added, step-Grows}

-- How many rows have the id, and whether one that has it is not revoked.
abbrev pub id_count : Text → List TokenRow → ℕ
id_count id ts = length (select (λ t. same_text t.id id) ts)

abbrev pub is_live : Text → TokenRow → Bool
is_live id t = same_text t.id id && not (is_some_b t.revoked_at)

-- The id is there, and each of its rows is revoked.
abbrev IsRevoked : Text → List TokenRow → Type 0
IsRevoked id ts = (any (λ t. same_text t.id id) ts ≡ true) × (any (is_live id) ts ≡ false)

id_count-map :
    (f : TokenRow → TokenRow) (id : Text) (ts : List TokenRow)
    → ((t : TokenRow) → (f t).id ≡ t.id)
    → id_count id (map f ts) ≡ id_count id ts
id_count-map f id [] h = refl
id_count-map f id (t ∷ ts) h = ground (arith, h t, id_count-map f id ts h)

id_count-any :
    (id : Text) (ts : List TokenRow) → any (λ t. same_text t.id id) ts ≡ false → id_count id ts ≡ 0
id_count-any id [] h = refl
id_count-any id (t ∷ ts) h = ground (arith, id_count-any id ts)

-- A row with an id that no row has is the only one.
added_once :
    (id : Text) (row : TokenRow) (ts : List TokenRow)
    → any (λ t. same_text t.id row.id) ts ≡ false
    → id_count id ts ≤ 1
    → id_count id (ts ++ (row ∷ [])) ≤ 1
added_once id row ts h le = elim (Bool-cases (same_text row.id id)) [
  | inl e ↦
      let none_there =
        id_count-any id ts
          (subst (λ i. any (λ t. same_text t.id i) ts ≡ false) (same_text_sound row.id id e) h) in
      ground (arith, none_there, length-select-append (λ t. same_text t.id id) ts (row ∷ []))
  | inr e ↦ ground (arith, length-select-append (λ t. same_text t.id id) ts (row ∷ []))
]

Grows-once :
    (id : Text) (ts us : List TokenRow) → Grows ts us → id_count id ts ≤ 1 → id_count id us ≤ 1
Grows-once id ts _ kept le = le
Grows-once id ts _ (mapped f keeps revoked) le = omega (arith, id_count-map f id ts keeps)
Grows-once id ts _ (added row h) le = added_once id row ts h le

any-map_id :
    (f : TokenRow → TokenRow) (id : Text) (ts : List TokenRow)
    → ((t : TokenRow) → (f t).id ≡ t.id)
    → any (λ t. same_text t.id id) (map f ts) ≡ any (λ t. same_text t.id id) ts
any-map_id f id [] h = refl
any-map_id f id (t ∷ ts) h = ground (arith, h t, any-map_id f id ts h)

any-map_live :
    (f : TokenRow → TokenRow) (id : Text) (ts : List TokenRow)
    → ((t : TokenRow) → (f t).id ≡ t.id)
    → ((t : TokenRow) → is_some_b t.revoked_at ≡ true → is_some_b (f t).revoked_at ≡ true)
    → any (is_live id) ts ≡ false
    → any (is_live id) (map f ts) ≡ false
any-map_live f id [] keeps revoked h = refl
any-map_live f id (t ∷ ts) keeps revoked h =
    ground (arith, keeps t, revoked t, any-map_live f id ts keeps revoked)

any-append {ℓ} :
    {A : Type ℓ} (p : A → Bool) (xs ys : List A) → any p (xs ++ ys) ≡ (any p xs || any p ys)
any-append p [] ys = refl
any-append p (x ∷ xs) ys = ground (arith, any-append p xs ys)

added-IsRevoked :
    (id : Text) (row : TokenRow) (ts : List TokenRow)
    → any (λ t. same_text t.id row.id) ts ≡ false
    → IsRevoked id ts
    → IsRevoked id (ts ++ (row ∷ []))
added-IsRevoked id row ts h r = elim (Bool-cases (same_text row.id id)) [
  | inl e ↦
      let none_there : any (λ t. same_text t.id id) ts ≡ false =
        subst (λ i. any (λ t. same_text t.id i) ts ≡ false) (same_text_sound row.id id e) h in
      ground (arith, none_there)
  | inr e ↦ ground (
    arith,
    any-append (λ t. same_text t.id id) ts (row ∷ []),
    any-append (is_live id) ts (row ∷ []),
  )
]

Grows-IsRevoked :
    (id : Text) (ts us : List TokenRow) → Grows ts us → IsRevoked id ts → IsRevoked id us
Grows-IsRevoked id ts _ kept r = r
Grows-IsRevoked id ts _ (mapped f keeps revoked) r =
    (any-map_id f id ts keeps ∙ r.0, any-map_live f id ts keeps revoked r.1)
Grows-IsRevoked id ts _ (added row h) r = added-IsRevoked id row ts h r

none_to_revoke :
    (now : ℕ) (user_id : String) (id : Text) (ts : List TokenRow)
    → id_count id ts ≡ 0
    → (any (is_live id) (map (revoke_row now user_id id) ts) ≡ false)
      × (any (λ t. same_text t.id id && eqs t.user_id user_id && not (is_some_b t.revoked_at)) ts
          ≡ false)
none_to_revoke now user_id id [] h = (refl, refl)
none_to_revoke now user_id id (t ∷ ts) h = ground (arith, none_to_revoke now user_id id ts)

revoke-IsRevoked :
    (now : ℕ) (user_id : String) (id : Text) (ts : List TokenRow)
    → id_count id ts ≤ 1
    → any (λ t. same_text t.id id && eqs t.user_id user_id && not (is_some_b t.revoked_at)) ts
      ≡ true
    → IsRevoked id (map (revoke_row now user_id id) ts)
revoke-IsRevoked now user_id id [] le h = ground arith
revoke-IsRevoked now user_id id (t ∷ ts) le h =
    ground (arith, none_to_revoke now user_id id ts, revoke-IsRevoked now user_id id ts)

found_revoked :
    (id : Text) (token_hash : String) (ts : List TokenRow) (t : TokenRow)
    → any (is_live id) ts ≡ false
    → find (λ r. same_text r.id id && eqs r.token_hash token_hash) ts ≡ some t
    → is_some_b t.revoked_at ≡ true
found_revoked id token_hash [] t h e = ground arith
found_revoked id token_hash (r ∷ ts) t h e = ground (arith, found_revoked id token_hash ts t)

admit_row_revoked :
    (now : ℕ) (o : Option TokenRow) (u : Option User) (db : AuthDatabase)
    → ((t : TokenRow) → o ≡ some t → is_some_b t.revoked_at ≡ true)
    → (admit_row now o u db).1 ≡ none
admit_row_revoked now none u db h = refl
admit_row_revoked now (some t) none db h = refl
admit_row_revoked now (some t) (some u) db h = ground (arith, h t refl)

module _ (hash challenge_of : Text → String) where
  run-once :
      (id : Text) (list : List Call) (db : AuthDatabase)
      → id_count id db.tokens ≤ 1
      → id_count id (run hash challenge_of list db).tokens ≤ 1
  unfolding run
  run-once id [] db le = le
  run-once id (c ∷ list) db le = run-once id list (step hash challenge_of c db) (
      Grows-once id db.tokens (step hash challenge_of c db).tokens
        (step-Grows hash challenge_of c db) le)

  run-IsRevoked :
      (id : Text) (list : List Call) (db : AuthDatabase)
      → IsRevoked id db.tokens
      → IsRevoked id (run hash challenge_of list db).tokens
  unfolding run
  run-IsRevoked id [] db r = r
  run-IsRevoked id (c ∷ list) db r = run-IsRevoked id list (step hash challenge_of c db) (
      Grows-IsRevoked id db.tokens (step hash challenge_of c db).tokens
        (step-Grows hash challenge_of c db) r)

  refused :
      (later : ℕ) (token id secret : Text) (db : AuthDatabase)
      → parse_personal_token token ≡ some (id, secret)
      → IsRevoked id db.tokens
      → (personal_principal hash later (some token) db).1 ≡ none
  unfolding personal_principal look_up find_auth_token
  refused later token id secret db e r =
      ap (λ o. (look_up hash later o db).1) e
      ∙ admit_row_revoked later (find_token id (hash secret) db)
          (user_of (find_token id (hash secret) db) db) db
          (λ t f. found_revoked id (hash secret) db.tokens t r.1 f)

  -- Once the call that revokes a token says so, the token is refused for ever: whatever calls came
  -- before on a database that began without tokens, and whatever calls come after, a text that has
  -- the id of the token, with any secret, is nobody's.
  pub revoked_refused :
      (before after : List Call) (db : AuthDatabase) (now later : ℕ) (user_id : String)
      (token id secret : Text)
      → db.tokens ≡ []
      → (revoke_auth_token now user_id id (run hash challenge_of before db)).1 ≡ true
      → parse_personal_token token ≡ some (id, secret)
      → (personal_principal hash later (some token) (
          run hash challenge_of after
            (revoke_auth_token now user_id id (run hash challenge_of before db)).0)).1
        ≡ none
  unfolding revoke_auth_token
  revoked_refused before after db now later user_id token id secret fresh h e =
      let start = run hash challenge_of before db in
      let revoked = (revoke_auth_token now user_id id start).0 in
      refused later token id secret (run hash challenge_of after revoked) e (
        run-IsRevoked id after revoked (
          revoke-IsRevoked now user_id id start.tokens
            (run-once id before db (omega (arith, ap (id_count id) fresh))) h))
