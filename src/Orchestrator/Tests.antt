-- ===== src/Orchestrator/Tests.antt =====
-- Runs of the orchestrator at concrete inputs.
use mathlib.Core.List.{Perm}
use uma_agent.Base.{
  ℕ, ◌+◌, String, ◌≡◌, ◌≢◌, refl, ◌⊎◌, Bool, true, false, List, [], ◌∷◌, ◌++◌, none, some, same,
  texts_differ, length,
}
use uma_agent.JsMap.{get, put, values}
use uma_agent.Orchestrator.{
  QueueEntry, SessionQueue, RunOrchestrator, create, enqueue_entry, finish, pause, resume, drain,
  is_idle, pump, shift, resolve_idle_waiters, to_front, reorder_pending, by_id, pick, splice,
}
use uma_agent.Orchestrator.Invariant.{Op, enqueues, finishes, step, run, work_conserving}
use uma_agent.Orchestrator.Order.{entries_of, pending_in, sent, fifo}
use uma_agent.Orchestrator.Exclusion.{ended, busy, one_at_a_time}
use uma_agent.Orchestrator.Reorder.{reorder_pending-perm}
use uma_agent.Orchestrator.Drain.{drain_missed}

abbrev job : ℕ → QueueEntry
job n = record { run_id = none; operation = n }

abbrev named : String → ℕ → QueueEntry
named r n = record { run_id = some r; operation = n }

abbrev script : List Op
script =
    enqueues "s" (job 1) false
    ∷ enqueues "t" (job 7) false
    ∷ enqueues "s" (job 2) false
    ∷ finishes "s"
    ∷ enqueues "s" (job 3) false
    ∷ []

script_queue :
    get "s" (run script create).sessions
    ≡ some (record { pending = job 3 ∷ []; running = true; paused = false })
unfolding run step enqueue_entry pump finish get put same
script_queue = refl

work_conserving_example : (◌≡◌ {A = Bool} true true) ⊎ (◌≡◌ {A = Bool} false true)
work_conserving_example =
    work_conserving script "s" (record { pending = job 3 ∷ []; running = true; paused = false })
      script_queue

fifo_example :
    entries_of "s" (run script create).started ++ pending_in (get "s" (run script create).sessions)
    ≡ job 1 ∷ job 2 ∷ job 3 ∷ []
unfolding sent same
fifo_example = fifo script "s" (refl, (refl, (refl, (tt, (refl, tt)))))

one_at_a_time_example :
    length (entries_of "s" (run script create).started)
    ≡ ended "s" (run script create).finished + busy (get "s" (run script create).sessions)
unfolding run step enqueue_entry pump finish get put same
one_at_a_time_example = one_at_a_time script "s" (tt, (tt, (tt, (refl, (tt, tt)))))

a_ne_b : ◌≢◌ {A = String} "a" "b"
unfolding same
a_ne_b = texts_differ "a" "b" refl

reorder_pending-perm_example :
    Perm (named "b" 2 ∷ named "a" 1 ∷ []) (named "a" 1 ∷ named "b" 2 ∷ [])
unfolding reorder_pending by_id pick get put same
reorder_pending-perm_example =
    reorder_pending-perm ("b" ∷ "a" ∷ []) (named "a" 1 ∷ named "b" 2 ∷ [])
      (named "b" 2 ∷ named "a" 1 ∷ []) ((a_ne_b, tt), (tt, tt)) refl

abbrev draining : RunOrchestrator
draining = drain (enqueue_entry "s" (job 1) false create)

drain_missed_example :
    (is_idle (finish "s" (pause "s" draining)) ≡ true)
    × ((finish "s" (pause "s" draining)).idle_waiters ≡ 1)
unfolding drain enqueue_entry pump get put same resume uma_agent.Orchestrator.resume_all is_idle
    values
drain_missed_example =
    drain_missed draining "s" (record { pending = []; running = true; paused = false }) 0 refl refl
      refl refl
