-- ===== src/ClientEvents/Reconnect.antt =====
-- The socket of a client and its reconnection: `connectEvents`, `close`, `restartEvents` and
-- `scheduleReconnect` of packages/client/src/index.ts. A socket is the number it was made with.
use uma_agent.Base.{
  ℕ, suc, zero, ◌*◌, ◌^◌, ◌≤◌, ◌≡◌, refl, ◌∙◌, Bool, true, false, not, ◌||◌, ◌==◌, Option, none,
  some, List, [], ◌∷◌, if◌then◌else◌, min, is_some_b, All, arith,
}

pub data ConnectionState : Type 0 where
  connecting connected disconnected : ConnectionState

-- `timer` is the delay of the reconnection that is scheduled; `made` counts the sockets so far and
-- `delays` lists the delays that were scheduled, latest first.
pub record Connection : Type 0 where
  pub socket : Option ℕ
  pub timer : Option ℕ
  pub attempt : ℕ
  pub closed : Bool
  pub state : ConnectionState
  pub made : ℕ
  pub delays : List ℕ

abbrev pub new_connection : Connection
new_connection = record {
  socket = none;
  timer = none;
  attempt = 0;
  closed = false;
  state = disconnected;
  made = 0;
  delays = [];
}

unfoldable pub connect_events : Connection → Connection
connect_events c =
    if is_some_b c.socket || c.closed
    then c
    else record c { state = connecting; socket = some c.made; made = suc c.made }

-- `this.socket === socket` for the socket that a listener was added to.
abbrev pub is_current : ℕ → Option ℕ → Bool
is_current s none = false
is_current s (some t) = s == t

unfoldable pub on_open : ℕ → Connection → Connection
on_open s c =
    if not (is_current s c.socket) || c.closed
    then c
    else record c { state = connected; attempt = 0; timer = none }

abbrev pub delay_of : ℕ → ℕ
delay_of attempt = min 30000 (500 * 2 ^ attempt)

unfoldable pub schedule_reconnect : Connection → Connection
schedule_reconnect c = if is_some_b c.timer || c.closed || is_some_b c.socket then c else record c {
  timer = some (delay_of c.attempt);
  attempt = suc c.attempt;
  delays = delay_of c.attempt ∷ c.delays;
}

unfoldable pub on_close : ℕ → Connection → Connection
unfolding schedule_reconnect
on_close s c =
    if is_current s c.socket
    then schedule_reconnect (record c { state = disconnected; socket = none })
    else c

unfoldable pub on_error : Connection → Connection
on_error c = record c { state = disconnected }

-- The timer fires, when one is set.
unfoldable pub fire : Connection → Connection
unfolding connect_events
fire c = if is_some_b c.timer then connect_events (record c { timer = none }) else c

-- `close`, whose socket closes later.
unfoldable pub close : Connection → Connection
close c = record c { closed = true; timer = none; socket = none; state = disconnected }

unfoldable pub restart_events : Connection → Connection
unfolding connect_events
restart_events c =
    if c.closed then record c { socket = none } else connect_events (record c { socket = none })

pub data Signal : Type 0 where
  connects fires closes restarts errs : Signal
  opened dropped : ℕ → Signal

unfoldable pub step : Signal → Connection → Connection
unfolding connect_events on_open on_close on_error fire close restart_events
step connects c = connect_events c
step fires c = fire c
step closes c = close c
step restarts c = restart_events c
step errs c = on_error c
step (opened s) c = on_open s c
step (dropped s) c = on_close s c

unfoldable pub run : List Signal → Connection → Connection
unfolding step
run [] c = c
run (s ∷ rest) c = run rest (step s c)

abbrev pub IsDelay : ℕ → Type 0
IsDelay n = (500 ≤ n) × (n ≤ 30000)

-- A socket is older than the next one; with a closed client there is neither a socket nor a timer.
pub record IsTimed (c : Connection) : Type 0 where
  pub timed : All IsDelay c.delays
  pub none_left : c.closed ≡ true → (c.socket ≡ none) × (c.timer ≡ none)

pow_pos : (n : ℕ) → 1 ≤ 2 ^ n
pow_pos zero = omega arith
pow_pos (suc n) = omega (arith, pow_pos n)

delay_of-IsDelay : (n : ℕ) → IsDelay (delay_of n)
delay_of-IsDelay n = omega (arith, pow_pos n)

pub step-IsTimed : (s : Signal) (c : Connection) → IsTimed c → IsTimed (step s c)
unfolding step
step-IsTimed connects c h = ground arith
step-IsTimed fires c h = ground arith
step-IsTimed closes c h = ground arith
step-IsTimed restarts c h = ground arith
step-IsTimed errs c h = ground arith
step-IsTimed (opened s) c h = ground arith
step-IsTimed (dropped s) c h = ground (arith, delay_of-IsDelay c.attempt)

pub run_keeps-IsTimed : (list : List Signal) (c : Connection) → IsTimed c → IsTimed (run list c)
unfolding run
run_keeps-IsTimed [] c h = h
run_keeps-IsTimed (s ∷ rest) c h = run_keeps-IsTimed rest (step s c) (step-IsTimed s c h)

new-IsTimed : IsTimed new_connection
new-IsTimed = ground arith

-- Whatever happens to the sockets of a new client, every delay before a reconnection is between half
-- a second and 30 seconds, and a client that is closed has neither a socket nor a reconnection that
-- is scheduled.
pub run-IsTimed : (list : List Signal) → IsTimed (run list new_connection)
run-IsTimed list = run_keeps-IsTimed list new_connection new-IsTimed

step_closed :
    (s : Signal) (c : Connection)
    → IsTimed c
    → c.closed ≡ true
    → ((step s c).closed ≡ true) × ((step s c).made ≡ c.made)
unfolding step
step_closed connects c h e = ground arith
step_closed fires c h e = ground arith
step_closed closes c h e = ground arith
step_closed restarts c h e = ground arith
step_closed errs c h e = ground arith
step_closed (opened s) c h e = ground arith
step_closed (dropped s) c h e = ground arith

-- A closed client makes no further socket.
pub run_closed :
    (list : List Signal) (c : Connection) → IsTimed c → c.closed ≡ true → (run list c).made ≡ c.made
unfolding run
run_closed [] c h e = refl
run_closed (s ∷ rest) c h e =
    let k = step_closed s c h e in run_closed rest (step s c) (step-IsTimed s c h) k.0 ∙ k.1
