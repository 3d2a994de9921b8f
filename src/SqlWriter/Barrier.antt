-- ===== src/SqlWriter/Barrier.antt =====
-- `flush` as a barrier: packages/telemetry/src/sql-writer.ts.
use uma_agent.Base.{ℕ, ◌+◌, ◌-◌, ◌≡◌, Bool, List, [], ◌∷◌, length}
use uma_agent.SqlWriter.{Writer, Operation, answer}

-- The thread answers once for each of the outcomes.
abbrev pub answer_all : List (List Operation → List Operation → Bool) → Writer → Writer
unfolding answer
answer_all [] w = w
answer_all (commits ∷ more) w = answer_all more (answer commits w)

-- The callers of `flush` so far.
abbrev pub callers : Writer → ℕ
callers w = length w.done + length w.waiters

-- What an answer leaves.
record Answered (w v : Writer) : Type 0 where
  callers_kept : callers v ≡ callers w
  dead_kept : v.dead ≡ w.dead
  queue_kept : v.queued_count ≡ w.queued_count
  one_less : length v.posted ≡ length w.posted - 1
