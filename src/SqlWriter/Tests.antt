-- ===== src/SqlWriter/Tests.antt =====
-- Runs of the writer of telemetry at fixed inputs.
use uma_agent.Base.{◌≤◌, ◌≡◌, refl, Bool, true, false, List, [], ◌∷◌, length}
use uma_agent.SqlWriter.{
  Operation, Writer, Input, enqueues, batches, flushes, answers, ends, new_writer, run, batch,
  enqueue_group, close_by, act, answer_by,
}
use uma_agent.SqlWriter.Batches.{batch-enqueue_group}
use uma_agent.SqlWriter.Bounds.{IsSound, run-IsSound}
use uma_agent.SqlWriter.Accounting.{total, asked, run_accounts}

abbrev insertion : Operation
insertion = record { sql = "INSERT INTO spans VALUES(?)"; args = [] }

abbrev always : List Operation → List Operation → Bool
always rows group = true

abbrev never : List Operation → List Operation → Bool
never rows group = false

-- One operation and a batch of two; they are sent, and the thread writes them.
abbrev script : List Input
script =
    enqueues true insertion
    ∷ batches true false (insertion ∷ insertion ∷ [])
    ∷ flushes true 7
    ∷ answers always
    ∷ []

three_rows : length (run script new_writer).rows ≡ 3
unfolding run answer_by close_by act
three_rows = refl

caller_done : (run script new_writer).done ≡ 7 ∷ []
unfolding run answer_by close_by act
caller_done = refl

-- The thread ends with an operation queued.
lost_operation : (run (enqueues true insertion ∷ ends ∷ []) new_writer).failures ≡ 1
unfolding run
lost_operation = refl

-- A batch whose action throws.
thrown_batch : (run (batches true true (insertion ∷ []) ∷ []) new_writer) ≡ new_writer
unfolding run act
thrown_batch = refl

batch-enqueue_group_example :
    batch true false (insertion ∷ insertion ∷ []) new_writer
    ≡ enqueue_group true (insertion ∷ insertion ∷ []) new_writer
batch-enqueue_group_example =
    batch-enqueue_group true (insertion ∷ insertion ∷ []) new_writer
      (record { no_group = refl; no_count = refl; no_reject = refl })

run-IsSound_example : IsSound (run script new_writer)
run-IsSound_example = run-IsSound script

run_accounts_example :
    ((run script new_writer).dead ≡ false → total (run script new_writer) ≡ asked script)
    × (asked script ≤ total (run script new_writer))
run_accounts_example = run_accounts script

abbrev waiting_writer : Writer
unfolding run
waiting_writer =
    run (enqueues true insertion ∷ flushes true 1 ∷ enqueues true insertion ∷ []) new_writer

abbrev outcomes : List (List Operation → List Operation → Bool)
outcomes = always ∷ never ∷ []
