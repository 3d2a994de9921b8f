-- ===== src/Auth/Once.antt =====
-- How often an authorization code is exchanged.
use uma_agent.Base.{
  ℕ, ◌+◌, ◌≤◌, ◌≡◌, refl, subst, ap, ◌∙◌, String, Bool, true, false, not, ◌&&◌, Option, none, some,
  List, [], ◌∷◌, if◌then◌else◌, length, length-select-append, find, select, eqs, err, Text, arith,
}
use uma_agent.Auth.{
  AuthPrincipal, AuthDatabase, CodeRow, TokenRow, User, find_auth_token, revoke_auth_token,
  create_user, put_auth_token, admit_row, find_token, user_of,
}
use uma_agent.Auth.Codes.{
  Authorize, Exchange, put_authorization_code, consume_authorization_code, authorize,
  redirect_allowed, exchange_authorization_code, authorized, exchanged,
}
use uma_agent.Auth.Tokens.{parse_personal_token}
use uma_agent.Auth.Requests.{
  personal_principal, principal_from_request, issue_token, register, registered, create_web_session,
  logout, look_up,
}
use uma_agent.Auth.Calls.{
  Call, registers, issues, asks, revokes, authorizes, exchanges, creates_session, logs_out, step,
  is_ok, exchanged_now, authorized_now, exchanged_count, authorized_count,
}

abbrev rows_of : String → List CodeRow → ℕ
rows_of code rows = length (select (λ c. eqs c.code code) rows)

rows_of-consume :
    (code other : String) (rows : List CodeRow)
    → rows_of code (select (λ c. not (eqs c.code other)) rows) ≤ rows_of code rows
rows_of-consume code other [] = omega arith
rows_of-consume code other (c ∷ rows) = ground (arith, rows_of-consume code other rows)

rows_of-consume_self :
    (code : String) (rows : List CodeRow)
    → rows_of code (select (λ c. not (eqs c.code code)) rows) ≡ 0
rows_of-consume_self code [] = refl
rows_of-consume_self code (c ∷ rows) = ground (arith, rows_of-consume_self code rows)

find-rows_of :
    (code : String) (rows : List CodeRow)
    → rows_of code rows ≡ 0
    → find (λ c. eqs c.code code) rows ≡ none
find-rows_of code [] h = refl
find-rows_of code (c ∷ rows) h = ground (arith, find-rows_of code rows)

admit_row-codes :
    (now : ℕ) (t : Option TokenRow) (u : Option User) (db : AuthDatabase)
    → (admit_row now t u db).0.codes ≡ db.codes
admit_row-codes now none u db = refl
admit_row-codes now (some t) none db = refl
admit_row-codes now (some t) (some u) db = ground arith

module _ (hash challenge_of : Text → String) where
  look_up-codes :
      (now : ℕ) (o : Option (Text × Text)) (db : AuthDatabase)
      → (look_up hash now o db).0.codes ≡ db.codes
  unfolding look_up find_auth_token
  look_up-codes now none db = refl
  look_up-codes now (some (id, secret)) db =
      admit_row-codes now (find_token id (hash secret) db)
        (user_of (find_token id (hash secret) db) db) db

  personal_principal-codes :
      (now : ℕ) (o : Option Text) (db : AuthDatabase)
      → (personal_principal hash now o db).0.codes ≡ db.codes
  unfolding personal_principal
  personal_principal-codes now none db = refl
  personal_principal-codes now (some token) db = look_up-codes now (parse_personal_token token) db

  principal_from_request-codes :
      (now : ℕ) (bearer cookie : Option Text) (db : AuthDatabase)
      → (principal_from_request hash now bearer cookie db).0.codes ≡ db.codes
  unfolding principal_from_request
  principal_from_request-codes now bearer cookie db =
      ground (arith, personal_principal-codes now bearer db)

  issue_token-codes :
      (id secret : Text) (user_id : String) (db : AuthDatabase)
      → (issue_token hash id secret user_id db).0.codes ≡ db.codes
  unfolding issue_token put_auth_token
  issue_token-codes id secret user_id db = ground arith

  register-codes :
      (user_id : String) (id secret : Text) (db : AuthDatabase)
      → (register hash user_id id secret db).0.codes ≡ db.codes
  unfolding register registered create_user issue_token put_auth_token
  register-codes user_id id secret db = ground arith

  exchanged-codes :
      (now : ℕ) (id secret : Text) (input : Exchange) (db : AuthDatabase) (o : Option CodeRow)
      → ((exchanged hash challenge_of now id secret input db o).0.codes ≡ db.codes)
        × (o ≡ none → is_ok (exchanged hash challenge_of now id secret input db o).1 ≡ false)
  unfolding exchanged
  exchanged-codes now id secret input db none = ground arith
  exchanged-codes now id secret input db (some row) =
      ground (arith, issue_token-codes id secret row.user_id db)

  -- What a call adds to the exchanges and the rows of the code, it adds to its issues.
  exchange_pays :
      (code : String) (now : ℕ) (id secret : Text) (input : Exchange) (db : AuthDatabase)
      → (if exchanged_now hash challenge_of code (exchanges now id secret input) db then 1 else 0)
          + rows_of code (step hash challenge_of (exchanges now id secret input) db).codes
        ≤ rows_of code db.codes
  unfolding exchanged_now step exchange_authorization_code consume_authorization_code
  exchange_pays code now id secret input db =
      let taken = consume_authorization_code input.code db in
      ground (
        arith,
        exchanged-codes now id secret input taken.0 taken.1,
        rows_of-consume code input.code db.codes,
        rows_of-consume_self code db.codes,
        find-rows_of input.code db.codes,
      )

  authorized-codes :
      (code : String) (now : ℕ) (drawn : String) (input : Authorize) (db : AuthDatabase)
      (o : Option AuthPrincipal)
      → rows_of code (authorized now drawn input db o).0.codes
        ≤ rows_of code db.codes
          + (if eqs drawn code && is_ok (authorized now drawn input db o).1 then 1 else 0)
  unfolding authorized put_authorization_code
  authorized-codes code now drawn input db none = ground arith
  authorized-codes code now drawn input db (some principal) =
      let row : CodeRow = record {
        code = drawn;
        user_id = principal.user_id;
        client_id = input.client_id;
        redirect_uri = input.redirect_uri;
        code_challenge = input.code_challenge;
        expires_at = now + 300000;
      } in
      ground (arith, length-select-append (λ c. eqs c.code code) db.codes (row ∷ []))

  allowed-codes :
      (t : Bool) (message code : String) (now : ℕ) (drawn : String) (input : Authorize)
      (db : AuthDatabase) (found : AuthDatabase × Option AuthPrincipal)
      → found.0.codes ≡ db.codes
      → rows_of code
          (if t then authorized now drawn input found.0 found.1 else (db, err message)).0.codes
        ≤ rows_of code db.codes
          + (if eqs drawn code
                && is_ok
                    (if t then authorized now drawn input found.0 found.1 else (db, err message)).1
              then 1
              else 0)
  allowed-codes true message code now drawn input db found e =
      subst
        (λ rows.
          rows_of code (authorized now drawn input found.0 found.1).0.codes
          ≤ rows_of code rows
            + (if eqs drawn code && is_ok (authorized now drawn input found.0 found.1).1
                then 1
                else 0))
        e (authorized-codes code now drawn input found.0 found.1)
  allowed-codes false message code now drawn input db found e = ground arith

  authorize_pays :
      (code : String) (setting : Text) (now : ℕ) (drawn : String) (input : Authorize)
      (db : AuthDatabase)
      → rows_of code (step hash challenge_of (authorizes setting now drawn input) db).codes
        ≤ rows_of code db.codes
          + (if authorized_now hash challenge_of code (authorizes setting now drawn input) db
              then 1
              else 0)
  unfolding authorized_now step authorize
  authorize_pays code setting now drawn input db =
      let found = personal_principal hash now (some input.token) db in
      allowed-codes (redirect_allowed setting input.client_id input.redirect_uri)
        "OAuth redirect is not allowed" code now drawn input db found
        (personal_principal-codes now (some input.token) db)

  -- What a call spends of the rows of a code and what it adds to them.
  step_pays :
      (code : String) (c : Call) (db : AuthDatabase)
      → (if exchanged_now hash challenge_of code c db then 1 else 0)
          + rows_of code (step hash challenge_of c db).codes
        ≤ rows_of code db.codes + (if authorized_now hash challenge_of code c db then 1 else 0)
  unfolding exchanged_now authorized_now step revoke_auth_token create_web_session logout
  step_pays code (registers user_id id secret) db =
      omega (arith, ap (rows_of code) (register-codes user_id id secret db))
  step_pays code (issues id secret user_id) db =
      omega (arith, ap (rows_of code) (issue_token-codes id secret user_id db))
  step_pays code (asks now bearer cookie) db =
      omega (arith, ap (rows_of code) (principal_from_request-codes now bearer cookie db))
  step_pays code (revokes now user_id id) db = omega arith
  step_pays code (authorizes setting now drawn input) db =
      omega (arith, authorize_pays code setting now drawn input db)
  step_pays code (exchanges now id secret input) db =
      omega (arith, exchange_pays code now id secret input db)
  step_pays code (creates_session now hours token user_id) db = omega arith
  step_pays code (logs_out none) db = omega arith
  step_pays code (logs_out (some [])) db = omega arith
  step_pays code (logs_out (some (x ∷ token))) db = omega arith

  count_pays :
      (code : String) (list : List Call) (db : AuthDatabase)
      → exchanged_count hash challenge_of code list db
        ≤ rows_of code db.codes + authorized_count hash challenge_of code list db
  unfolding exchanged_count authorized_count
  count_pays code [] db = omega arith
  count_pays code (c ∷ list) db =
      ground (arith, step_pays code c db, count_pays code list (step hash challenge_of c db))

  exchange_uses_up :
      (code : String) (now : ℕ) (id secret : Text) (input : Exchange) (db : AuthDatabase)
      → input.code ≡ code
      → rows_of code (step hash challenge_of (exchanges now id secret input) db).codes ≡ 0
  unfolding step exchange_authorization_code consume_authorization_code
  exchange_uses_up code now id secret input db e =
      let taken = consume_authorization_code input.code db in
      subst
        (λ c.
          rows_of c (exchanged hash challenge_of now id secret input taken.0 taken.1).0.codes ≡ 0)
        e
        (ap (rows_of input.code) (exchanged-codes now id secret input taken.0 taken.1).0
          ∙ rows_of-consume_self input.code db.codes)

  -- In any sequence of calls on a database without codes, an authorization code is exchanged for a
  -- token at most as often as it is issued. And a call that tries to exchange the code uses it up,
  -- whatever the state of the database and whatever the client, the address, the verifier and the
  -- time of the call, so also one that is refused: in any sequence of calls behind it, the code is
  -- exchanged at most as often as it is issued in them.
  pub exchanged_once :
      (code : String) (list rest : List Call) (db later : AuthDatabase) (now : ℕ) (id secret : Text)
      (input : Exchange)
      → db.codes ≡ []
      → input.code ≡ code
      → (exchanged_count hash challenge_of code list db
          ≤ authorized_count hash challenge_of code list db)
        × (exchanged_count hash challenge_of code rest
              (step hash challenge_of (exchanges now id secret input) later)
            ≤ authorized_count hash challenge_of code rest
                (step hash challenge_of (exchanges now id secret input) later))
  exchanged_once code list rest db later now id secret input h e = (
    omega (arith, count_pays code list db, ap (rows_of code) h),
    omega (
      arith,
      count_pays code rest (step hash challenge_of (exchanges now id secret input) later),
      exchange_uses_up code now id secret input later e,
    ),
  )
