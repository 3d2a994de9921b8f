-- ===== src/Auth/Tests.antt =====
-- Calls of the authentication at fixed inputs; the digests are stand-ins.
use Prim.Native.Nat.{ℕ, ◌≤◌, ◌+◌}
use uma_agent.Base.{
  ◌≡◌, ◌↔◌, refl, String, true, false, none, some, List, [], ◌∷◌, Text, same, same_text, arith,
  zero, suc,
}
use uma_agent.JsMap.{get, put}
use uma_agent.Auth.{AuthDatabase, user, find_user, revoke_auth_token, put_auth_token, create_user}
use uma_agent.Auth.Tokens.{parse_personal_token, token_text, IsId, IsSecret, parse_iff}
use uma_agent.Auth.Limits.{Login, login, logins, login_allowed, record_failure, tried}
use uma_agent.Auth.Requests.{personal_principal, issue_token, register, registered}
use uma_agent.Auth.Codes.{Authorize, Exchange}
use uma_agent.Auth.Calls.{
  Call, registers, authorizes, exchanges, step, run, exchanged_count, authorized_count,
}
use uma_agent.Auth.Once.{exchanged_once}
use uma_agent.Auth.Revoked.{revoked_refused}

abbrev repeat : ℕ → ℕ → Text
repeat zero c = []
repeat (suc n) c = c ∷ repeat n c

abbrev first_id : Text
first_id = repeat 36 97

abbrev first_secret : Text
first_secret = repeat 43 65

first-IsId : IsId first_id
first-IsId = record { size = refl; units = refl }

first-IsSecret : IsSecret first_secret
first-IsSecret = record { size = omega arith; units = refl }

parse_iff_example :
    (parse_personal_token (token_text first_id first_secret) ≡ some (first_id, first_secret)) ↔ (
      (token_text first_id first_secret ≡ token_text first_id first_secret)
      × IsId first_id
      × IsSecret first_secret)
parse_iff_example = parse_iff (token_text first_id first_secret) first_id first_secret

-- A secret that is too short.
short_secret : parse_personal_token (token_text first_id (repeat 31 65)) ≡ none
unfolding parse_personal_token token_text same_text
short_secret = refl

abbrev guess : ℕ → Login
guess now = record { ip = "::1"; now = now; known = false }

abbrev guesses : ℕ → List ℕ → List Login
guesses start [] = []
guesses start (n ∷ ns) = guess (start + n) ∷ guesses start ns

-- A guess, and then 9 of 11 pass within a minute.
abbrev during : List Login
during = guesses 100001 (0 ∷ 1 ∷ 2 ∷ 3 ∷ 4 ∷ 59999 ∷ 59999 ∷ 59999 ∷ 59999 ∷ 59999 ∷ 59999 ∷ [])

nine_pass : tried "::1" during (logins (guess 100000 ∷ []) []) ≡ 9
unfolding tried logins login login_allowed record_failure get put same
nine_pass = refl

abbrev empty_database : AuthDatabase
empty_database = record { users = []; tokens = []; codes = []; web_sessions = [] }

abbrev hash_text : Text → String
hash_text [] = ""
hash_text (c ∷ t) = "digest"

abbrev request : Authorize
request = record {
  token = token_text first_id first_secret;
  client_id = 99 ∷ [];
  redirect_uri = 117 ∷ [];
  code_challenge = "digest";
}

abbrev answer : Exchange
answer = record {
  code = "code";
  client_id = 99 ∷ [];
  redirect_uri = 117 ∷ [];
  code_verifier = 118 ∷ [];
}

-- A user registers, gets a code and exchanges it twice.
abbrev twice : List Call
twice =
    registers "u" first_id first_secret
    ∷ authorizes (99 ∷ 124 ∷ 117 ∷ []) 5 "code" request
    ∷ exchanges 6 (repeat 36 98) [] answer
    ∷ exchanges 7 (repeat 36 99) [] answer
    ∷ []

-- The user registers and gets a code; the first try has the wrong verifier.
abbrev issued : AuthDatabase
issued =
    run hash_text hash_text
      (registers "u" first_id first_secret ∷ authorizes (99 ∷ 124 ∷ 117 ∷ []) 5 "code" request ∷ [])
      empty_database

abbrev wrong : Exchange
wrong = record answer { code_verifier = [] }

abbrev second_try : List Call
second_try = exchanges 7 (repeat 36 99) [] answer ∷ []

exchanged_once_example :
    (exchanged_count hash_text hash_text "code" twice empty_database
      ≤ authorized_count hash_text hash_text "code" twice empty_database)
    × (exchanged_count hash_text hash_text "code" second_try
          (step hash_text hash_text (exchanges 6 (repeat 36 98) [] wrong) issued)
        ≤ authorized_count hash_text hash_text "code" second_try
            (step hash_text hash_text (exchanges 6 (repeat 36 98) [] wrong) issued))
exchanged_once_example =
    exchanged_once hash_text hash_text "code" twice second_try empty_database issued 6
      (repeat 36 98) [] wrong refl refl

-- Without the wrong try, the second is good.
good_try : exchanged_count hash_text hash_text "code" second_try issued ≡ 1
unfolding exchanged_count run same same_text
good_try = refl

one_issue : authorized_count hash_text hash_text "code" twice empty_database ≡ 1
unfolding authorized_count same same_text
one_issue = refl

one_exchange : exchanged_count hash_text hash_text "code" twice empty_database ≡ 1
unfolding exchanged_count same same_text
one_exchange = refl

abbrev registration : List Call
registration = registers "u" first_id first_secret ∷ []

revoked_refused_example :
    (personal_principal hash_text 9 (some (token_text first_id first_secret)) (
      run hash_text hash_text registration
        (revoke_auth_token 8 "u" first_id
          (run hash_text hash_text registration empty_database)).0)).1
    ≡ none
unfolding run revoke_auth_token step register registered issue_token put_auth_token create_user
    find_user parse_personal_token token_text same_text same
revoked_refused_example =
    revoked_refused hash_text hash_text registration registration empty_database 8 9 "u"
      (token_text first_id first_secret) first_id first_secret refl refl refl

abbrev one_user : AuthDatabase
one_user = record {
  users = record { id = "u"; role = user; active = true } ∷ [];
  tokens = [];
  codes = [];
  web_sessions = [];
}

abbrev with_token : AuthDatabase
unfolding issue_token
with_token = (issue_token hash_text first_id first_secret "u" one_user).0
