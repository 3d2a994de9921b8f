-- ===== src/Auth/Requests.antt =====
-- The tokens and sessions that requests show: `personalPrincipal`, `principalFromRequest`,
-- `issueToken`, `register`, `createWebSession` and `logout` of apps/server/src/auth.ts. `hash` is the
-- hexadecimal SHA-256.
use uma_agent.Base.{
  ℕ, ◌+◌, ◌*◌, String, Bool, false, not, Option, none, some, [], ◌∷◌, ◌++◌, if◌then◌else◌, leb,
  find, select, eqs, is_some_b, Result, ok, err, Text,
}
use uma_agent.Auth.{
  AuthPrincipal, AuthDatabase, User, TokenRow, WebSession, user, web, find_user, create_user,
  put_auth_token, find_auth_token,
}
use uma_agent.Auth.Tokens.{parse_personal_token, token_text}

pub record IssuedToken : Type 0 where
  pub token : Text
  pub id : Text

module _ (hash : Text → String) where
  unfoldable pub look_up :
      ℕ → Option (Text × Text) → AuthDatabase → AuthDatabase × Option AuthPrincipal
  unfolding find_auth_token
  look_up now none db = (db, none)
  look_up now (some (id, secret)) db = find_auth_token now id (hash secret) db

  unfoldable pub personal_principal :
      ℕ → Option Text → AuthDatabase → AuthDatabase × Option AuthPrincipal
  unfolding look_up parse_personal_token
  personal_principal now none db = (db, none)
  personal_principal now (some token) db = look_up now (parse_personal_token token) db

  -- `webSessionUser`, by the row of the session.
  abbrev pub session_principal : Option User → Option AuthPrincipal
  session_principal none = none
  session_principal (some u) =
      if u.active
      then some (record { user_id = u.id; role = u.role; method = web; scopes = "user" ∷ [] })
      else none

  unfoldable pub session_user : Option WebSession → AuthDatabase → Option User
  unfolding find_user
  session_user none db = none
  session_user (some s) db = elim s.user_id [ none ↦ none | some id ↦ find_user id db ]

  abbrev pub is_current : ℕ → Option WebSession → Bool
  is_current now none = false
  is_current now (some s) = not (leb s.expires_at now)

  unfoldable pub web_session_user : ℕ → String → AuthDatabase → Option AuthPrincipal
  unfolding session_user
  web_session_user now id_hash db =
      let row = find (λ s. eqs s.id_hash id_hash) db.web_sessions in
      if is_current now row then session_principal (session_user row db) else none

  unfoldable pub by_cookie : ℕ → Option Text → AuthDatabase → Option AuthPrincipal
  unfolding web_session_user
  by_cookie now none db = none
  by_cookie now (some []) db = none
  by_cookie now (some cookie) db = web_session_user now (hash cookie) db

  -- The first call of `principalFromRequest` for a request, whose `authorization` header matches with
  -- `bearer`; further calls return the same.
  unfoldable pub principal_from_request :
      ℕ → Option Text → Option Text → AuthDatabase → AuthDatabase × Option AuthPrincipal
  unfolding personal_principal by_cookie
  principal_from_request now bearer cookie db =
      let personal = personal_principal now bearer db in
      if is_some_b personal.1 then personal else (personal.0, by_cookie now cookie personal.0)

  abbrev pub new_row : Text → Text → String → TokenRow
  new_row id secret user_id = record {
    id = id;
    user_id = user_id;
    token_hash = hash secret;
    scopes = "user" ∷ [];
    expires_at = none;
    revoked_at = none;
    last_used_at = none;
  }

  abbrev pub issued :
      Text → Text → AuthDatabase → Result AuthDatabase → AuthDatabase × Result IssuedToken
  issued id secret db (err message) = (db, err message)
  issued id secret db (ok after) = (after, ok (record { token = token_text id secret; id = id }))

  unfoldable pub issue_token :
      Text → Text → String → AuthDatabase → AuthDatabase × Result IssuedToken
  unfolding put_auth_token token_text
  issue_token id secret user_id db =
      issued id secret db (put_auth_token (new_row id secret user_id) db)

  unfoldable pub registered :
      Text → Text → String → AuthDatabase → Result AuthDatabase → AuthDatabase × Result IssuedToken
  unfolding issue_token
  registered id secret user_id db (err message) = (db, err message)
  registered id secret user_id db (ok after) = issue_token id secret user_id after

  unfoldable pub register : String → Text → Text → AuthDatabase → AuthDatabase × Result IssuedToken
  unfolding create_user registered
  register user_id id secret db = registered id secret user_id db (create_user user_id user db)

  -- `createWebSession` with its token, and `logout` of a request with the cookie.
  unfoldable pub create_web_session : ℕ → ℕ → Text → Option String → AuthDatabase → AuthDatabase
  create_web_session now hours token user_id db = record db {
    web_sessions =
        select (λ s. not (eqs s.id_hash (hash token))) db.web_sessions
        ++ (record { id_hash = hash token; user_id = user_id; expires_at = now + hours * 3600000 }
            ∷ []);
  }

  unfoldable pub logout : Option Text → AuthDatabase → AuthDatabase
  logout none db = db
  logout (some []) db = db
  logout (some token) db = record db {
    web_sessions = select (λ s. not (eqs s.id_hash (hash token))) db.web_sessions;
  }
