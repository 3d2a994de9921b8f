-- ===== src/SqlWriter/Accounting.antt =====
-- Where the operations that are given to a writer of telemetry go:
-- packages/telemetry/src/sql-writer.ts and packages/telemetry/src/sqlite-writer.mjs.
use uma_agent.Base.{
  ℕ, ◌+◌, ◌≤◌, ◌≡◌, refl, Bool, true, false, List, [], ◌∷◌, ◌++◌, length, length-append, arith,
}
use uma_agent.SqlWriter.{
  Writer, Batch, Operation, Input, enqueues, batches, fires, flushes, answers, ends, shares,
  releases, new_writer, resolve_waiters, failed, dispatch, enqueue_group, enqueue, flush, flat,
  write_each, write_batch, receive, answer, answer_by, share, let_go, step, run,
}
use uma_agent.SqlWriter.Batches.{batch-enqueue_group, batch_thrown}
use uma_agent.SqlWriter.Bounds.{IsSound, step-IsSound, new-IsSound}

-- The operations that the inputs ask to write; a batch whose action throws asks for none.
abbrev pub asks : Input → ℕ
asks (enqueues posts operation) = 1
asks (batches posts true operations) = 0
asks (batches posts false operations) = length operations
asks i = 0

abbrev pub asked : List Input → ℕ
asked [] = 0
asked (i ∷ is) = asks i + asked is

-- Written, failed, queued or on the way.
abbrev pub total : Writer → ℕ
total w = length w.rows + w.failures + w.queued_count + w.in_flight

-- From `before` to `after`, `n` operations were added, exactly so while the thread runs.
pub record Adds (n : ℕ) (before after : Writer) : Type 0 where
  pub exact : after.dead ≡ false → total after ≡ total before + n
  pub at_least : total before + n ≤ total after
  pub stays_dead : before.dead ≡ true → after.dead ≡ true

Adds-trans : (m n : ℕ) (u v w : Writer) → Adds m u v → Adds n v w → Adds (m + n) u w
Adds-trans m n u v w g h = ground arith

failed-Adds : (w : Writer) → IsSound w → Adds 0 w (failed w)
unfolding failed resolve_waiters
failed-Adds w h = ground arith

dispatch-Adds : (posts : Bool) (w : Writer) → IsSound w → Adds 0 w (dispatch posts w)
unfolding dispatch failed resolve_waiters
dispatch-Adds posts w h = ground arith

enqueue_group-Adds :
    (posts : Bool) (operations : List Operation) (w : Writer)
    → IsSound w
    → Adds (length operations) w (enqueue_group posts operations w)
unfolding enqueue_group dispatch failed resolve_waiters
enqueue_group-Adds posts operations w h = ground arith

enqueue-Adds :
    (posts : Bool) (operation : Operation) (w : Writer)
    → IsSound w
    → Adds 1 w (enqueue posts operation w)
unfolding enqueue
enqueue-Adds posts operation w h = ground (arith, enqueue_group-Adds posts (operation ∷ []) w h)

flush-Adds : (posts : Bool) (caller : ℕ) (w : Writer) → IsSound w → Adds 0 w (flush posts caller w)
unfolding flush
flush-Adds posts caller w h = ground (arith, dispatch-Adds posts w h)

-- What the thread writes and what it reports as failed are together what it was sent.
write_each_total :
    (commits : List Operation → List Operation → Bool) (groups : List (List Operation))
    (rows : List Operation)
    → length (write_each commits groups rows).0 + (write_each commits groups rows).1
      ≡ length rows + length (flat groups)
write_each_total commits [] rows = omega arith
write_each_total commits (group ∷ groups) rows = ground (
  arith,
  write_each_total commits groups (rows ++ group),
  write_each_total commits groups rows,
  length-append rows group,
  length-append group (flat groups),
)

write_batch_total :
    (commits : List Operation → List Operation → Bool) (groups : List (List Operation))
    (rows : List Operation)
    → length (write_batch commits groups rows).0 + (write_batch commits groups rows).1
      ≡ length rows + length (flat groups)
unfolding write_batch
write_batch_total commits groups rows =
    ground (arith, write_each_total commits groups rows, length-append rows (flat groups))

answer_by-Adds :
    (commits : List Operation → List Operation → Bool) (w : Writer) (posted : List Batch)
    → w.posted ≡ posted
    → IsSound w
    → Adds 0 w (answer_by commits posted w)
unfolding answer_by receive resolve_waiters
answer_by-Adds commits w [] e h = ground arith
answer_by-Adds commits w (oldest ∷ rest) e h =
    ground (arith, write_batch_total commits oldest.groups w.rows)

step-Adds : (i : Input) (w : Writer) → IsSound w → Adds (asks i) w (step i w)
unfolding step answer share let_go failed resolve_waiters
step-Adds (enqueues posts operation) w h = enqueue-Adds posts operation w h
step-Adds (batches posts true operations) w h =
    ground (arith, batch_thrown posts operations w h.closed)
step-Adds (batches posts false operations) w h = ground (
  arith,
  batch-enqueue_group posts operations w h.closed,
  enqueue_group-Adds posts operations w h,
)
step-Adds (fires posts) w h = dispatch-Adds posts w h
step-Adds (flushes posts caller) w h = flush-Adds posts caller w h
step-Adds (answers commits) w h = answer_by-Adds commits w w.posted refl h
step-Adds ends w h = ground arith
step-Adds shares w h = ground arith
step-Adds releases w h = ground arith

run-Adds : (is : List Input) (w : Writer) → IsSound w → Adds (asked is) w (run is w)
unfolding run
run-Adds [] w h = ground arith
run-Adds (i ∷ is) w h =
    Adds-trans (asks i) (asked is) w (step i w) (run is (step i w)) (step-Adds i w h)
      (run-Adds is (step i w) (step-IsSound i w h))

-- No operation is lost from the account: after any inputs to a new writer whose thread still runs,
-- the operations that the inputs asked to write are as many as those that are written, counted as
-- failures, queued or on the way; and after the thread has ended they are at most as many, where a
-- message that the thread answers late is counted twice.
pub run_accounts :
    (is : List Input)
    → ((run is new_writer).dead ≡ false → total (run is new_writer) ≡ asked is)
      × (asked is ≤ total (run is new_writer))
run_accounts is = ground (arith, run-Adds is new_writer new-IsSound)
