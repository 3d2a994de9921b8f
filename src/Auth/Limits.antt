-- ===== src/Auth/Limits.antt =====
-- The limits on attempts from one address: `loginAllowed`, `recordFailure`, `registrationAllowed` and
-- `recordRegistration` of apps/server/src/auth.ts, as the handlers of login and registration of
-- apps/server/src/app.ts call them.
use uma_agent.Base.{
  ℕ, suc, ◌+◌, ◌-◌, ◌≤◌, ◌<◌, ◌≡◌, String, Bool, true, false, ◌&&◌, Option, none, some, List, [],
  ◌∷◌, if◌then◌else◌, leb, ltb, eqs, arith, Option-cases, inl, inr,
}
use uma_agent.JsMap.{get, put, get-put}

pub record Window : Type 0 where
  pub count : ℕ
  pub reset_at : ℕ

abbrev pub Windows : Type 0
Windows = List (String × Window)

-- What a window lets through: all when there is none or it is over, else less than `limit`.
abbrev pub below : ℕ → ℕ → Option Window → Bool
below limit now none = true
below limit now (some w) = if leb w.reset_at now then true else ltb w.count limit

-- The window after one more attempt.
abbrev pub next_window : ℕ → ℕ → Option Window → Window
next_window size now none = record { count = 1; reset_at = now + size }
next_window size now (some w) =
    if leb w.reset_at now
    then record { count = 1; reset_at = now + size }
    else record { count = w.count + 1; reset_at = w.reset_at }

unfoldable pub login_allowed : String → ℕ → Windows → Bool
unfolding get
login_allowed ip now failures = below 5 now (get ip failures)

unfoldable pub record_failure : String → ℕ → Windows → Windows
unfolding get put
record_failure ip now failures = put ip (next_window 60000 now (get ip failures)) failures

unfoldable pub registration_allowed : String → ℕ → Windows → Bool
unfolding get
registration_allowed ip now registrations = below 3 now (get ip registrations)

unfoldable pub record_registration : String → ℕ → Windows → Windows
unfolding get put
record_registration ip now registrations =
    put ip (next_window 86400000 now (get ip registrations)) registrations

-- An attempt, and whether its token is one that `personalPrincipal` knows.
pub record Login : Type 0 where
  pub ip : String
  pub now : ℕ
  pub known : Bool

pub data Reply : Type 0 where
  rate_limited invalid accepted : Reply

-- The handler of `/api/v16/auth/login`, up to the session it creates.
unfoldable pub login : Login → Windows → Windows × Reply
unfolding login_allowed record_failure
login a failures =
    if login_allowed a.ip a.now failures
    then if a.known then (failures, accepted) else (record_failure a.ip a.now failures, invalid)
    else (failures, rate_limited)

-- The handler of `/api/v16/auth/register`, where the user can be created.
unfoldable pub register_from : String → ℕ → Windows → Windows × Reply
unfolding registration_allowed record_registration
register_from ip now registrations =
    if registration_allowed ip now registrations
    then (record_registration ip now registrations, accepted)
    else (registrations, rate_limited)

-- The wrong tokens from the address that are looked up.
abbrev pub is_tried : String → Login → Reply → Bool
is_tried ip a invalid = eqs a.ip ip
is_tried ip a r = false

unfoldable pub tried : String → List Login → Windows → ℕ
unfolding login
tried ip [] failures = 0
tried ip (a ∷ rest) failures =
    let more = tried ip rest (login a failures).0 in
    if is_tried ip a (login a failures).1 then suc more else more

-- The users that are registered from the address, at the times of the attempts.
unfoldable pub registered : String → List (String × ℕ) → Windows → ℕ
unfolding register_from
registered ip [] registrations = 0
registered ip ((from, now) ∷ rest) registrations =
    let more = registered ip rest (register_from from now registrations).0 in
    if registration_allowed from now registrations && eqs from ip then suc more else more

-- How many more attempts can pass before `end`, when each starts a window that ends no sooner.
abbrev budget : ℕ → ℕ → Option Window → ℕ
budget limit end none = limit
budget limit end (some w) = (limit - w.count) + (if ltb w.reset_at end then limit else 0)

budget_spent :
    (limit size start now : ℕ) (o : Option Window)
    → start ≤ now
    → now < start + size
    → 0 < limit
    → below limit now o ≡ true
    → suc (budget limit (start + size) (some (next_window size now o)))
      ≤ budget limit (start + size) o
budget_spent limit size start now none h g p b = ground arith
budget_spent limit size start now (some w) h g p b = ground arith

-- The windows behind a list of attempts.
unfoldable pub logins : List Login → Windows → Windows
unfolding login
logins [] failures = failures
logins (a ∷ rest) failures = logins rest (login a failures).0

unfoldable pub registrations_after : List (String × ℕ) → Windows → Windows
unfolding register_from
registrations_after [] ws = ws
registrations_after ((from, now) ∷ rest) ws = registrations_after rest (register_from from now ws).0

-- A window that is there counts an attempt.
abbrev HasCount : Windows → Type 0
unfolding get
HasCount ws = (ip : String) (w : Window) → get ip ws ≡ some w → 1 ≤ w.count

next_window-count : (size now : ℕ) (o : Option Window) → 1 ≤ (next_window size now o).count
next_window-count size now none = omega arith
next_window-count size now (some w) = ground arith

put-HasCount :
    (ip : String) (size now : ℕ) (ws : Windows)
    → HasCount ws
    → HasCount (put ip (next_window size now (get ip ws)) ws)
unfolding HasCount
put-HasCount ip size now ws h j w e = ground (
  arith,
  get-put ip j (next_window size now (get ip ws)) ws,
  next_window-count size now (get ip ws),
  h j w,
)

-- The attempts lie in the `size` milliseconds from `start`.
abbrev pub IsDuring : ℕ → ℕ → List Login → Type 0
IsDuring start size [] = Unit
IsDuring start size (a ∷ rest) = (start ≤ a.now) × (a.now < start + size) × IsDuring start size rest

budget_bound :
    (limit end : ℕ) (ip : String) (ws : Windows)
    → HasCount ws
    → 0 < limit
    → suc (budget limit end (get ip ws)) ≤ limit + limit
unfolding HasCount
budget_bound limit end ip ws h p = elim (Option-cases (get ip ws)) [
  | inl e ↦ ground arith
  | inr (w, e) ↦ ground (arith, h ip w e)
]

register_from-HasCount :
    (from : String) (now : ℕ) (ws : Windows) → HasCount ws → HasCount (register_from from now ws).0
unfolding register_from record_registration
register_from-HasCount from now ws h = ground (arith, put-HasCount from 86400000 now ws h)

registrations_after-HasCount :
    (list : List (String × ℕ)) (ws : Windows) → HasCount ws → HasCount (registrations_after list ws)
unfolding registrations_after
registrations_after-HasCount [] ws h = h
registrations_after-HasCount ((from, now) ∷ rest) ws h =
    registrations_after-HasCount rest (register_from from now ws).0
      (register_from-HasCount from now ws h)

-- The times lie in the `size` milliseconds from `start`.
abbrev pub AreDuring : ℕ → ℕ → List (String × ℕ) → Type 0
AreDuring start size [] = Unit
AreDuring start size ((from, now) ∷ rest) =
    (start ≤ now) × (now < start + size) × AreDuring start size rest

registered-budget :
    (ip : String) (start : ℕ) (list : List (String × ℕ)) (ws : Windows)
    → AreDuring start 86400000 list
    → registered ip list ws ≤ budget 3 (start + 86400000) (get ip ws)
unfolding registered register_from registration_allowed record_registration
registered-budget ip start [] ws h = omega arith
registered-budget ip start ((from, now) ∷ rest) ws h = ground (
  arith,
  registered-budget ip start rest (register_from from now ws).0,
  budget_spent 3 86400000 start now (get from ws),
  get-put from ip (next_window 86400000 now (get from ws)) ws,
)

new-HasCount : HasCount []
unfolding HasCount get
new-HasCount ip w e = ground arith

-- Whatever was registered before, at most 5 users are registered from one address in any 24 hours.
pub registration_bound :
    (ip : String) (start : ℕ) (before during : List (String × ℕ))
    → AreDuring start 86400000 during
    → registered ip during (registrations_after before []) ≤ 5
registration_bound ip start before during h = omega (
  arith,
  registered-budget ip start during (registrations_after before []) h,
  budget_bound 3 (start + 86400000) ip (registrations_after before [])
      (registrations_after-HasCount before [] new-HasCount) (omega arith),
)
