-- ===== src/SqlWriter/Bounds.antt =====
-- What holds of a writer of telemetry after any inputs: packages/telemetry/src/sql-writer.ts.
use uma_agent.Base.{
  ℕ, suc, ◌+◌, ◌-◌, ◌≤◌, ◌<◌, ◌≡◌, refl, sym, subst, Bool, true, false, not, List, [], ◌∷◌, ◌++◌,
  append-nil, length, length-append, select, All, All-append, arith,
}
use uma_agent.SqlWriter.{
  Writer, Waiter, Batch, Operation, Input, enqueues, batches, fires, flushes, answers, ends, shares,
  releases, new_writer, capacity, is_done, resolve_waiters, failed, dispatch, enqueue_group,
  enqueue, batch, flush, flat, receive, answer, answer_by, share, let_go, step, run,
}
use uma_agent.SqlWriter.Batches.{IsClosed, batch-enqueue_group, batch_thrown}

-- The messages on the way are numbered from the one behind the last that was answered.
abbrev pub IsNumbered : ℕ → ℕ → List Batch → Type 0
IsNumbered completed sequence [] = completed ≡ sequence
IsNumbered completed sequence (b ∷ rest) =
    (b.id ≡ suc completed) × IsNumbered (suc completed) sequence rest

-- The operations on the way to the thread.
abbrev pub posted_count : List Batch → ℕ
posted_count [] = 0
posted_count (b ∷ rest) = length (flat b.groups) + posted_count rest

abbrev pub IsWaiting : ℕ → ℕ → Waiter → Type 0
IsWaiting completed sequence item = (completed < item.target) × (item.target ≤ sequence)

pub record IsSound (w : Writer) : Type 0 where
  pub closed : IsClosed w
  pub bounded : w.queued_count + w.in_flight ≤ capacity
  pub counted : w.queued_count ≡ length (flat w.queue)
  pub flying : w.dead ≡ false → w.in_flight ≡ posted_count w.posted
  pub numbered : w.dead ≡ false → IsNumbered w.completed w.sequence w.posted
  pub waiting : w.dead ≡ false → All (IsWaiting w.completed w.sequence) w.waiters
  pub none_waits : w.dead ≡ true → w.waiters ≡ []

flat-append :
    (xs : List (List Operation)) (ys : List (List Operation))
    → length (flat (xs ++ ys)) ≡ length (flat xs) + length (flat ys)
flat-append [] ys = omega arith
flat-append (x ∷ xs) ys =
    grind (arith, length-append x (flat (xs ++ ys)), length-append x (flat xs), flat-append xs ys)

posted_count-append :
    (xs ys : List Batch) → posted_count (xs ++ ys) ≡ posted_count xs + posted_count ys
posted_count-append [] ys = omega arith
posted_count-append (x ∷ xs) ys = omega (arith, posted_count-append xs ys)

IsNumbered-append :
    (xs : List Batch) (completed sequence : ℕ) (b : Batch)
    → b.id ≡ suc sequence
    → IsNumbered completed sequence xs
    → IsNumbered completed (suc sequence) (xs ++ (b ∷ []))
IsNumbered-append [] completed sequence b e h = ground arith
IsNumbered-append (x ∷ xs) completed sequence b e h =
    (h.0, IsNumbered-append xs (suc completed) sequence b e h.1)

IsWaiting-later :
    (completed sequence : ℕ) (ws : List Waiter)
    → All (IsWaiting completed sequence) ws
    → All (IsWaiting completed (suc sequence)) ws
IsWaiting-later completed sequence [] h = tt
IsWaiting-later completed sequence (x ∷ ws) h =
    ((h.0.0, omega (arith, h.0.1)), IsWaiting-later completed sequence ws h.1)

-- Who is kept by `resolve_waiters` waits for a later message.
kept_wait :
    (before completed sequence : ℕ) (ws : List Waiter)
    → All (IsWaiting before sequence) ws
    → All (IsWaiting completed sequence) (select (λ item. not (is_done false completed item)) ws)
kept_wait before completed sequence [] h = tt
kept_wait before completed sequence (x ∷ ws) h =
    ground (arith, kept_wait before completed sequence ws h.1)

none_kept :
    (completed : ℕ) (ws : List Waiter) → select (λ item. not (is_done true completed item)) ws ≡ []
none_kept completed [] = refl
none_kept completed (x ∷ ws) = ground (arith, none_kept completed ws)

pub new-IsSound : IsSound new_writer
new-IsSound = ground arith

failed-IsSound : (w : Writer) → IsSound w → IsSound (failed w)
unfolding failed resolve_waiters
failed-IsSound w h = ground (arith, none_kept w.completed w.waiters)

pub dispatch-IsSound : (posts : Bool) (w : Writer) → IsSound w → IsSound (dispatch posts w)
unfolding dispatch failed resolve_waiters
dispatch-IsSound posts w h =
    let b : Batch = record { id = suc w.sequence; groups = w.queue } in
    ground (
      arith,
      none_kept w.completed w.waiters,
      posted_count-append w.posted (b ∷ []),
      IsNumbered-append w.posted w.completed w.sequence b refl,
      IsWaiting-later w.completed w.sequence w.waiters,
    )

enqueue_group-IsSound :
    (posts : Bool) (operations : List Operation) (w : Writer)
    → IsSound w
    → IsSound (enqueue_group posts operations w)
unfolding enqueue_group
enqueue_group-IsSound posts operations w h = ground (
  arith,
  flat-append w.queue (operations ∷ []),
  append-nil operations,
  dispatch-IsSound posts (record w {
    queue = w.queue ++ (operations ∷ []);
    queued_count = w.queued_count + length operations;
  }),
)

enqueue-IsSound :
    (posts : Bool) (operation : Operation) (w : Writer)
    → IsSound w
    → IsSound (enqueue posts operation w)
unfolding enqueue
enqueue-IsSound posts operation w h =
    ground (arith, enqueue_group-IsSound posts (operation ∷ []) w h)

batch-IsSound :
    (posts throws : Bool) (operations : List Operation) (w : Writer)
    → IsSound w
    → IsSound (batch posts throws operations w)
batch-IsSound posts true operations w h =
    subst IsSound (sym (batch_thrown posts operations w h.closed)) h
batch-IsSound posts false operations w h =
    subst IsSound (sym (batch-enqueue_group posts operations w h.closed))
      (enqueue_group-IsSound posts operations w h)

pub flush-IsSound :
    (posts : Bool) (caller : ℕ) (w : Writer) → IsSound w → IsSound (flush posts caller w)
unfolding flush
flush-IsSound posts caller w h =
    let v = dispatch posts w in
    let item : Waiter = record { target = v.sequence; caller = caller } in
    let sound = dispatch-IsSound posts w h in
    ground (arith, sound, All-append (IsWaiting v.completed v.sequence) v.waiters (item ∷ []))

pub answer_by-IsSound :
    (commits : List Operation → List Operation → Bool) (w : Writer) (posted : List Batch)
    → w.posted ≡ posted
    → IsSound w
    → IsSound (answer_by commits posted w)
unfolding answer_by receive resolve_waiters
answer_by-IsSound commits w [] e h = h
answer_by-IsSound commits w (oldest ∷ rest) e h =
    ground
      (arith, kept_wait w.completed oldest.id w.sequence w.waiters, none_kept oldest.id w.waiters)

share-IsSound : (w : Writer) → IsSound w → IsSound (share w)
unfolding share
share-IsSound w h = ground arith

let_go-IsSound : (w : Writer) → IsSound w → IsSound (let_go w)
unfolding let_go
let_go-IsSound w h = ground (arith, failed-IsSound (record w { references = w.references - 1 }))

pub step-IsSound : (i : Input) (w : Writer) → IsSound w → IsSound (step i w)
unfolding step answer
step-IsSound (enqueues posts operation) w h = enqueue-IsSound posts operation w h
step-IsSound (batches posts throws operations) w h = batch-IsSound posts throws operations w h
step-IsSound (fires posts) w h = dispatch-IsSound posts w h
step-IsSound (flushes posts caller) w h = flush-IsSound posts caller w h
step-IsSound (answers commits) w h = answer_by-IsSound commits w w.posted refl h
step-IsSound ends w h = failed-IsSound w h
step-IsSound shares w h = share-IsSound w h
step-IsSound releases w h = let_go-IsSound w h

pub run_keeps-IsSound : (is : List Input) (w : Writer) → IsSound w → IsSound (run is w)
unfolding run
run_keeps-IsSound [] w h = h
run_keeps-IsSound (i ∷ is) w h = run_keeps-IsSound is (step i w) (step-IsSound i w h)

-- After any inputs to a new writer, what is queued and what is on the way to the thread are together
-- at most 8192 operations; the count of the queue is the number of its operations; and as long as
-- the thread runs, the count of what is on the way is that of the messages it has not answered,
-- which are numbered one by one up to the last that was posted, and a caller of `flush` who still
-- waits does so for one of them. Once the thread has ended nobody waits.
pub run-IsSound : (is : List Input) → IsSound (run is new_writer)
run-IsSound is = run_keeps-IsSound is new_writer new-IsSound
