-- ===== src/Auth.antt =====
-- Who a request comes from: apps/server/src/auth.ts with the tables of
-- packages/core/src/database.ts that it uses, and the handlers of apps/server/src/app.ts that limit
-- attempts. Texts that are taken apart are lists of code units. The time, the random ids and secrets
-- and the digests of node:crypto are arguments; labels and headers of replies are left out.
pub mod Calls
pub mod Codes
pub mod Growth
pub mod Issued
pub mod Limits
pub mod Once
pub mod Requests
pub mod Revoked
pub mod Tests
pub mod Tokens
use uma_agent.Base.{
  Text, same_text, ℕ, ◌+◌, ◌-◌, String, Bool, true, false, not, ◌&&◌, ◌||◌, ◌==◌, Option, none,
  some, List, [], ◌∷◌, ◌++◌, if◌then◌else◌, length, leb, ltb, find, any, select, map, eqs,
  is_some_b, Result, ok, err, ◌>>=◌,
}

pub data Role : Type 0 where
  admin user : Role

pub data Method : Type 0 where
  web access_token : Method

pub record AuthPrincipal : Type 0 where
  pub user_id : String
  pub role : Role
  pub method : Method
  pub scopes : List String

-- The tables `users`, `auth_tokens`, `oauth_authorization_codes` and `web_sessions`.
pub record User : Type 0 where
  pub id : String
  pub role : Role
  pub active : Bool

pub record TokenRow : Type 0 where
  pub id : Text
  pub user_id : String
  pub token_hash : String
  pub scopes : List String
  pub expires_at : Option ℕ
  pub revoked_at : Option ℕ
  pub last_used_at : Option ℕ

pub record CodeRow : Type 0 where
  pub code : String
  pub user_id : String
  pub client_id : Text
  pub redirect_uri : Text
  pub code_challenge : String
  pub expires_at : ℕ

pub record WebSession : Type 0 where
  pub id_hash : String
  pub user_id : Option String
  pub expires_at : ℕ

pub record AuthDatabase : Type 0 where
  pub users : List User
  pub tokens : List TokenRow
  pub codes : List CodeRow
  pub web_sessions : List WebSession

unfoldable pub find_user : String → AuthDatabase → Option User
find_user id db = find (λ u. eqs u.id id) db.users

-- `createUser`; the ids are unique.
unfoldable pub create_user : String → Role → AuthDatabase → Result AuthDatabase
unfolding find_user
create_user id role db =
    if is_some_b (find_user id db)
    then err "UNIQUE constraint failed"
    else ok
        (record db { users = db.users ++ (record { id = id; role = role; active = true } ∷ []) })

-- `putAuthToken`; the ids and the digests are unique, and the user has to be there.
unfoldable pub put_auth_token : TokenRow → AuthDatabase → Result AuthDatabase
unfolding find_user
put_auth_token row db =
    if any (λ t. same_text t.id row.id || eqs t.token_hash row.token_hash) db.tokens
    then err "UNIQUE constraint failed"
    else if not (is_some_b (find_user row.user_id db))
    then err "FOREIGN KEY constraint failed"
    else ok (record db { tokens = db.tokens ++ (row ∷ []) })

abbrev pub is_past : ℕ → Option ℕ → Bool
is_past now none = false
is_past now (some t) = leb t now

-- Whether `last_used_at` is to be written: it is absent, or a minute old.
abbrev pub is_stale : ℕ → Option ℕ → Bool
is_stale now none = true
is_stale now (some t) = leb 60000 (now - t)

abbrev pub touch : ℕ → Text → TokenRow → TokenRow
touch now id t =
    if same_text t.id id && is_stale now t.last_used_at
    then record t { last_used_at = some now }
    else t

-- `findAuthToken`, by the row of the token and that of its user, which the query joins.
abbrev pub admit_row :
    ℕ → Option TokenRow → Option User → AuthDatabase → AuthDatabase × Option AuthPrincipal
admit_row now none u db = (db, none)
admit_row now (some t) none db = (db, none)
admit_row now (some t) (some u) db =
    if not u.active || is_some_b t.revoked_at || is_past now t.expires_at then (db, none) else (
      record db { tokens = map (touch now t.id) db.tokens },
      some
          (record { user_id = t.user_id; role = u.role; method = access_token; scopes = t.scopes }),
    )

abbrev pub find_token : Text → String → AuthDatabase → Option TokenRow
find_token id token_hash db = find (λ t. same_text t.id id && eqs t.token_hash token_hash) db.tokens

unfoldable pub user_of : Option TokenRow → AuthDatabase → Option User
unfolding find_user
user_of none db = none
user_of (some t) db = find_user t.user_id db

unfoldable pub find_auth_token :
    ℕ → Text → String → AuthDatabase → AuthDatabase × Option AuthPrincipal
unfolding user_of
find_auth_token now id token_hash db =
    admit_row now (find_token id token_hash db) (user_of (find_token id token_hash db) db) db

-- `revokeAuthToken`.
abbrev pub revoke_row : ℕ → String → Text → TokenRow → TokenRow
revoke_row now user_id id t =
    if same_text t.id id && eqs t.user_id user_id && not (is_some_b t.revoked_at)
    then record t { revoked_at = some now }
    else t

unfoldable pub revoke_auth_token : ℕ → String → Text → AuthDatabase → AuthDatabase × Bool
revoke_auth_token now user_id id db = (
  record db { tokens = map (revoke_row now user_id id) db.tokens },
  any (λ t. same_text t.id id && eqs t.user_id user_id && not (is_some_b t.revoked_at)) db.tokens,
)
