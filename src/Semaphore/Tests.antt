-- ===== src/Semaphore/Tests.antt =====
-- Runs of the semaphore at concrete inputs.
use uma_agent.Base.{◌+◌, ◌≤◌, ◌≡◌, refl, [], length, arith}
use uma_agent.Semaphore.{Semaphore, create, acquire, run_on, release, count}
use uma_agent.Semaphore.Steps.{Reach, Step, no_lost_wakeup, overshoot}

-- One slot, taken by task 7; task 8 waits.
abbrev contended : Semaphore
contended = acquire 8 (acquire 7 (create 1))

no_lost_wakeup_example : contended.limit ≤ contended.active + length contended.woken
unfolding create acquire
no_lost_wakeup_example =
    no_lost_wakeup 1 (Reach.next (Reach.next Reach.here (Step.acquires _ 7)) (Step.acquires _ 8))
      (λ e. cc e)

overshoot_example :
    (let t = acquire 9 (release contended) in count (run_on t.woken t)) ≡ contended.limit + 1
unfolding create acquire
overshoot_example = overshoot contended 8 9 [] (omega arith) refl refl refl
