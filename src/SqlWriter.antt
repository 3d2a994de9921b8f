-- ===== src/SqlWriter.antt =====
-- The queue before the thread that writes telemetry: packages/telemetry/src/sql-writer.ts, and the
-- thread itself, packages/telemetry/src/sqlite-writer.mjs. Timers may fire and the thread may end at
-- any point. Whether a transaction commits and whether a message can be posted are inputs.
pub mod Accounting
pub mod Barrier
pub mod Batches
pub mod Bounds
pub mod Tests
use uma_agent.Base.{
  ℕ, suc, ◌+◌, ◌-◌, String, Bool, true, false, not, ◌&&◌, ◌||◌, Option, none, some, List, [], ◌∷◌,
  ◌++◌, if◌then◌else◌, length, leb, ltb, select, map,
}

pub data Argument : Type 0 where
  text_argument : String → Argument
  number_argument : ℕ → Argument
  null_argument : Argument

pub record Operation : Type 0 where
  pub sql : String
  pub args : List Argument

pub record Waiter : Type 0 where
  pub target : ℕ
  pub caller : ℕ

-- What `postMessage` hands to the thread.
pub record Batch : Type 0 where
  pub id : ℕ
  pub groups : List (List Operation)

-- `timer` and `watchdog` say that the variable is set. `posted` is what the thread has not answered,
-- oldest first, `rows` what it has written and `done` whose promises are resolved, latest first.
pub record Writer : Type 0 where
  pub queue : List (List Operation)
  pub queued_count : ℕ
  pub group : Option (List Operation)
  pub group_count : ℕ
  pub group_rejected : Bool
  pub timer : Bool
  pub in_flight : ℕ
  pub sequence : ℕ
  pub completed : ℕ
  pub waiters : List Waiter
  pub references : ℕ
  pub dead : Bool
  pub watchdog : Bool
  pub failures : ℕ
  pub posted : List Batch
  pub rows : List Operation
  pub done : List ℕ

abbrev pub capacity : ℕ
capacity = 8192

abbrev pub dispatch_at : ℕ
dispatch_at = 256

abbrev pub new_writer : Writer
new_writer = record {
  queue = [];
  queued_count = 0;
  group = none;
  group_count = 0;
  group_rejected = false;
  timer = false;
  in_flight = 0;
  sequence = 0;
  completed = 0;
  waiters = [];
  references = 1;
  dead = false;
  watchdog = false;
  failures = 0;
  posted = [];
  rows = [];
  done = [];
}

abbrev pub is_done : Bool → ℕ → Waiter → Bool
is_done dead completed item = dead || leb item.target completed

unfoldable pub resolve_waiters : Writer → Writer
resolve_waiters w = record w {
  waiters = select (λ item. not (is_done w.dead w.completed item)) w.waiters;
  done = map (λ item. item.caller) (select (is_done w.dead w.completed) w.waiters) ++ w.done;
}

unfoldable pub failed : Writer → Writer
unfolding resolve_waiters
failed w =
    if w.dead
    then w
    else resolve_waiters (record w {
      dead = true;
      failures = w.failures + (w.queued_count + w.in_flight);
      queue = [];
      queued_count = 0;
      in_flight = 0;
    })

abbrev pub is_empty {ℓ} : {A : Type ℓ} → List A → Bool
is_empty [] = true
is_empty (x ∷ xs) = false

-- The part of `dispatch` before the message is posted.
abbrev pub hand_over : Writer → Writer
hand_over w = record w {
  queue = [];
  in_flight = w.in_flight + w.queued_count;
  queued_count = 0;
  sequence = suc w.sequence;
}

-- `posts` says that `postMessage` does not throw.
unfoldable pub dispatch : Bool → Writer → Writer
unfolding failed
dispatch posts w0 =
    let w = record w0 { timer = false } in
    if is_empty w.queue || w.dead
    then w
    else if posts
    then record (hand_over w) {
      posted = w.posted ++ (record { id = suc w.sequence; groups = w.queue } ∷ []);
      watchdog = true;
    }
    else failed (hand_over w)

unfoldable pub enqueue_group : Bool → List Operation → Writer → Writer
unfolding dispatch
enqueue_group posts operations w =
    if w.dead || ltb capacity (w.queued_count + w.in_flight + length operations)
    then record w { failures = w.failures + length operations }
    else if is_empty operations
    then w
    else let w1 = record w {
      queue = w.queue ++ (operations ∷ []);
      queued_count = w.queued_count + length operations;
    } in
      if leb dispatch_at w1.queued_count then dispatch posts w1 else record w1 { timer = true }

-- `enqueue` while a batch is open.
unfoldable pub enqueue_in : List Operation → Operation → Writer → Writer
enqueue_in group operation w =
    if w.group_rejected
    then record w { group_count = suc w.group_count }
    else if w.dead || ltb capacity (suc w.group_count + w.queued_count + w.in_flight)
    then record w { group_count = suc w.group_count; group_rejected = true; group = some [] }
    else record w { group_count = suc w.group_count; group = some (group ++ (operation ∷ [])) }

-- `enqueue`, by the variable `group`.
abbrev pub enqueue_by : Option (List Operation) → Bool → Operation → Writer → Writer
enqueue_by none posts operation w = enqueue_group posts (operation ∷ []) w
enqueue_by (some group) posts operation w = enqueue_in group operation w

unfoldable pub enqueue : Bool → Operation → Writer → Writer
unfolding enqueue_in enqueue_group
enqueue posts operation w = enqueue_by w.group posts operation w

-- The calls of `enqueue` that the action of a batch makes.
unfoldable pub act : List Operation → Writer → Writer
unfolding enqueue
act [] w = w
act (operation ∷ rest) w = act rest (enqueue true operation w)

-- What follows the action, by the variable `group`.
unfoldable pub close_by : Option (List Operation) → Bool → Writer → Writer
unfolding enqueue_group
close_by none posts w = w
close_by (some group) posts w =
    if w.group_rejected
    then record w { failures = w.failures + w.group_count }
    else enqueue_group posts group w

abbrev pub clear_group : Writer → Writer
clear_group w = record w { group = none; group_count = 0; group_rejected = false }

-- A batch whose action enqueues the operations, and then may throw. A nested batch throws and leaves
-- the writer as it is.
unfoldable pub batch : Bool → Bool → List Operation → Writer → Writer
unfolding enqueue enqueue_group
batch posts throws operations w =
    let acted = act operations (record w { group = some [] }) in
    clear_group (if throws then acted else close_by acted.group posts acted)

-- The synchronous part of `flush` for a caller, whose promise resolves at once or waits.
unfoldable pub flush : Bool → ℕ → Writer → Writer
unfolding dispatch
flush posts caller w0 =
    let w = dispatch posts w0 in
    if w.dead || leb w.sequence w.completed
    then record w { done = caller ∷ w.done }
    else record w { waiters = w.waiters ++ (record { target = w.sequence; caller = caller } ∷ []) }

abbrev pub flat : List (List Operation) → List Operation
flat [] = []
flat (group ∷ groups) = group ++ flat groups

-- The thread writes the groups one by one, each in a transaction of its own; it returns the rows and
-- the failures. `commits rows group` says that the transaction commits on the rows there are.
abbrev pub write_each :
    (List Operation → List Operation → Bool)
    → List (List Operation)
    → List Operation
    → List Operation × ℕ
write_each commits [] rows = (rows, 0)
write_each commits (group ∷ groups) rows =
    let good = write_each commits groups (rows ++ group) in
    let bad = write_each commits groups rows in
    if commits rows group then good else (bad.0, length group + bad.1)

-- The thread on a message: all groups in one transaction, or one by one.
unfoldable pub write_batch :
    (List Operation → List Operation → Bool)
    → List (List Operation)
    → List Operation
    → List Operation × ℕ
write_batch commits groups rows =
    if commits rows (flat groups) then (rows ++ flat groups, 0) else write_each commits groups rows

-- The handler of `message`. After `failed` the count of the source may be negative, and is only
-- compared with 0.
unfoldable pub receive : ℕ → ℕ → ℕ → Writer → Writer
unfolding resolve_waiters
receive id count failures w = resolve_waiters (record w {
  in_flight = w.in_flight - count;
  failures = w.failures + failures;
  completed = id;
  watchdog = ltb 0 (w.in_flight - count);
})

-- The thread answers the oldest message, by what is posted.
unfoldable pub answer_by : (List Operation → List Operation → Bool) → List Batch → Writer → Writer
unfolding receive write_batch
answer_by commits [] w = w
answer_by commits (oldest ∷ rest) w =
    let written = write_batch commits oldest.groups w.rows in
    receive oldest.id (length (flat oldest.groups)) written.1
      (record w { posted = rest; rows = written.0 })

unfoldable pub answer : (List Operation → List Operation → Bool) → Writer → Writer
unfolding receive write_batch
answer commits w = answer_by commits w.posted w

-- `acquire` of a path that has a writer.
unfoldable pub share : Writer → Writer
share w = record w { references = suc w.references }

-- `release` after its flush: the last one ends the thread, whose `exit` follows.
unfoldable pub let_go : Writer → Writer
unfolding failed
let_go w =
    let w1 = record w { references = w.references - 1 } in
    if ltb 0 w1.references then w1 else failed w1

-- What happens to a writer outside of a batch; `ends` is the watchdog, an error or an exit.
pub data Input : Type 0 where
  enqueues : Bool → Operation → Input
  batches : Bool → Bool → List Operation → Input
  fires : Bool → Input
  flushes : Bool → ℕ → Input
  answers : (List Operation → List Operation → Bool) → Input
  ends shares releases : Input

unfoldable pub step : Input → Writer → Writer
unfolding enqueue batch dispatch flush answer failed share let_go
step (enqueues posts operation) w = enqueue posts operation w
step (batches posts throws operations) w = batch posts throws operations w
step (fires posts) w = dispatch posts w
step (flushes posts caller) w = flush posts caller w
step (answers commits) w = answer commits w
step ends w = failed w
step shares w = share w
step releases w = let_go w

unfoldable pub run : List Input → Writer → Writer
unfolding step
run [] w = w
run (i ∷ is) w = run is (step i w)
