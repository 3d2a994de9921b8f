-- ===== src/Auth/Codes.antt =====
-- The codes of the OAuth exchange: `authorize` and `exchangeAuthorizationCode` of
-- apps/server/src/auth.ts with `putAuthorizationCode` and `consumeAuthorizationCode` of
-- packages/core/src/database.ts. `challenge_of` is the base64url SHA-256 of a verifier, `setting` the
-- text of UMA_OAUTH_REDIRECTS.
use uma_agent.Base.{
  ℕ, ◌+◌, String, Bool, true, false, not, ◌||◌, Option, none, some, [], ◌∷◌, ◌++◌, if◌then◌else◌,
  leb, find, any, select, map, eqs, is_some_b, Result, ok, err, Text, same_text, trim, split,
}
use uma_agent.Auth.{AuthPrincipal, AuthDatabase, CodeRow, find_user}
use uma_agent.Auth.Requests.{IssuedToken, personal_principal, issue_token}

unfoldable pub put_authorization_code : CodeRow → AuthDatabase → Result AuthDatabase
unfolding find_user
put_authorization_code row db =
    if any (λ c. eqs c.code row.code) db.codes
    then err "UNIQUE constraint failed"
    else if not (is_some_b (find_user row.user_id db))
    then err "FOREIGN KEY constraint failed"
    else ok (record db { codes = db.codes ++ (row ∷ []) })

unfoldable pub consume_authorization_code : String → AuthDatabase → AuthDatabase × Option CodeRow
consume_authorization_code code db = (
  record db { codes = select (λ c. not (eqs c.code code)) db.codes },
  find (λ c. eqs c.code code) db.codes,
)

abbrev pub is_filled : Text → Bool
is_filled [] = false
is_filled (c ∷ t) = true

-- "clientId|redirectUri"
unfoldable pub redirect_allowed : Text → Text → Text → Bool
unfolding split trim
redirect_allowed setting client_id redirect_uri =
    any (λ t. same_text t (client_id ++ (124 ∷ redirect_uri)))
      (select is_filled (map trim (split 44 setting)))

pub record Authorize : Type 0 where
  pub token : Text
  pub client_id : Text
  pub redirect_uri : Text
  pub code_challenge : String

pub record Exchange : Type 0 where
  pub code : String
  pub client_id : Text
  pub redirect_uri : Text
  pub code_verifier : Text

abbrev pub put_result :
    String → ℕ → AuthDatabase → Result AuthDatabase → AuthDatabase × Result (String × ℕ)
put_result code expires_at db (err message) = (db, err message)
put_result code expires_at db (ok after) = (after, ok (code, expires_at))

unfoldable pub authorized :
    ℕ
    → String
    → Authorize
    → AuthDatabase
    → Option AuthPrincipal
    → AuthDatabase × Result (String × ℕ)
unfolding put_authorization_code
authorized now code input db none = (db, err "Invalid token")
authorized now code input db (some principal) = put_result code (now + 300000) db (
    put_authorization_code
      (record {
        code = code;
        user_id = principal.user_id;
        client_id = input.client_id;
        redirect_uri = input.redirect_uri;
        code_challenge = input.code_challenge;
        expires_at = now + 300000;
      })
      db)

module _ (hash : Text → String) (challenge_of : Text → String) where
  unfoldable pub authorize :
      Text → ℕ → String → Authorize → AuthDatabase → AuthDatabase × Result (String × ℕ)
  unfolding redirect_allowed personal_principal authorized
  authorize setting now code input db =
      let found = personal_principal hash now (some input.token) db in
      if redirect_allowed setting input.client_id input.redirect_uri
      then authorized now code input found.0 found.1
      else (db, err "OAuth redirect is not allowed")

  unfoldable pub exchanged :
      ℕ → Text → Text → Exchange → AuthDatabase → Option CodeRow → AuthDatabase × Result IssuedToken
  unfolding issue_token
  exchanged now id secret input db none = (db, err "Invalid authorization code")
  exchanged now id secret input db (some row) =
      if leb row.expires_at now
        || not (same_text row.client_id input.client_id)
        || not (same_text row.redirect_uri input.redirect_uri)
      then (db, err "Invalid authorization code")
      else if not (eqs (challenge_of input.code_verifier) row.code_challenge)
      then (db, err "Invalid PKCE verifier")
      else issue_token hash id secret row.user_id db

  unfoldable pub exchange_authorization_code :
      ℕ → Text → Text → Exchange → AuthDatabase → AuthDatabase × Result IssuedToken
  unfolding consume_authorization_code exchanged
  exchange_authorization_code now id secret input db =
      let taken = consume_authorization_code input.code db in
      exchanged now id secret input taken.0 taken.1
