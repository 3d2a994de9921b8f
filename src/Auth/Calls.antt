-- ===== src/Auth/Calls.antt =====
-- Any sequence of the calls of apps/server/src/auth.ts on one database: what an authorization code
-- and a revoked token are good for.
use uma_agent.Base.{
  ℕ, suc, String, Bool, true, false, ◌&&◌, Option, List, [], ◌∷◌, if◌then◌else◌, eqs, Result, ok,
  err, Text,
}
use uma_agent.Auth.{AuthDatabase, revoke_auth_token}
use uma_agent.Auth.Codes.{Authorize, Exchange, authorize, exchange_authorization_code}
use uma_agent.Auth.Requests.{
  principal_from_request, issue_token, register, create_web_session, logout,
}

-- The calls, with the ids and secrets that are drawn.
pub data Call : Type 0 where
  registers : String → Text → Text → Call
  issues : Text → Text → String → Call
  asks : ℕ → Option Text → Option Text → Call
  revokes : ℕ → String → Text → Call
  authorizes : Text → ℕ → String → Authorize → Call
  exchanges : ℕ → Text → Text → Exchange → Call
  creates_session : ℕ → ℕ → Text → Option String → Call
  logs_out : Option Text → Call

abbrev pub is_ok {ℓ} : {V : Type ℓ} → Result V → Bool
is_ok (err message) = false
is_ok (ok v) = true

module _ (hash challenge_of : Text → String) where
  unfoldable pub step : Call → AuthDatabase → AuthDatabase
  unfolding register issue_token principal_from_request revoke_auth_token authorize
      exchange_authorization_code create_web_session logout
  step (registers user_id id secret) db = (register hash user_id id secret db).0
  step (issues id secret user_id) db = (issue_token hash id secret user_id db).0
  step (asks now bearer cookie) db = (principal_from_request hash now bearer cookie db).0
  step (revokes now user_id id) db = (revoke_auth_token now user_id id db).0
  step (authorizes setting now code input) db =
      (authorize hash challenge_of setting now code input db).0
  step (exchanges now id secret input) db =
      (exchange_authorization_code hash challenge_of now id secret input db).0
  step (creates_session now hours token user_id) db =
      create_web_session hash now hours token user_id db
  step (logs_out token) db = logout hash token db

  unfoldable pub run : List Call → AuthDatabase → AuthDatabase
  unfolding step
  run [] db = db
  run (c ∷ rest) db = run rest (step c db)

  -- Whether the call exchanges the code for a token, and whether it issues the code.
  unfoldable pub exchanged_now : String → Call → AuthDatabase → Bool
  unfolding exchange_authorization_code
  exchanged_now code (exchanges now id secret input) db =
      eqs input.code code
      && is_ok (exchange_authorization_code hash challenge_of now id secret input db).1
  exchanged_now code c db = false

  unfoldable pub authorized_now : String → Call → AuthDatabase → Bool
  unfolding authorize
  authorized_now code (authorizes setting now drawn input) db =
      eqs drawn code && is_ok (authorize hash challenge_of setting now drawn input db).1
  authorized_now code c db = false

  unfoldable pub exchanged_count : String → List Call → AuthDatabase → ℕ
  unfolding exchanged_now step
  exchanged_count code [] db = 0
  exchanged_count code (c ∷ rest) db =
      let more = exchanged_count code rest (step c db) in
      if exchanged_now code c db then suc more else more

  unfoldable pub authorized_count : String → List Call → AuthDatabase → ℕ
  unfolding authorized_now step
  authorized_count code [] db = 0
  authorized_count code (c ∷ rest) db =
      let more = authorized_count code rest (step c db) in
      if authorized_now code c db then suc more else more
