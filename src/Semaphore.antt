-- ===== src/Semaphore.antt =====
-- `Semaphore` of packages/core/src/runtime-support.ts. `acquire` is an async function: its part
-- before the `await` and its part after it are two steps, and other tasks run between the wake-up
-- of a waiter by `release` and the waiter's own second part.
pub mod Steps
pub mod Tests
use uma_agent.Base.{ℕ, ◌+◌, ◌-◌, Bool, leb, if◌then◌else◌, List, [], ◌∷◌, ◌++◌}

-- `waiting` holds the callers whose promise is pending, oldest first; `woken` those whose promise
-- has been resolved and who have not run on yet.
pub record Semaphore : Type 0 where
  pub limit : ℕ
  pub active : ℕ
  pub waiting : List ℕ
  pub woken : List ℕ

unfoldable pub create : ℕ → Semaphore
create limit = record { limit = limit; active = 0; waiting = []; woken = [] }

-- `acquire` up to its `await`: the caller gets the slot, or waits.
unfoldable pub acquire : ℕ → Semaphore → Semaphore
acquire caller s =
    if leb s.limit s.active
    then record s { waiting = s.waiting ++ caller ∷ [] }
    else record s { active = s.active + 1 }

-- `acquire` after its `await`: the oldest woken caller runs on.
unfoldable pub run_on : List ℕ → Semaphore → Semaphore
run_on [] s = s
run_on (w ∷ ws) s = record s { active = s.active + 1; woken = ws }

unfoldable pub wake : List ℕ → Semaphore → Semaphore
wake [] s = s
wake (w ∷ ws) s = record s { waiting = ws; woken = s.woken ++ w ∷ [] }

-- The function that `acquire` returns: `active--`, and the oldest waiter is resolved.
unfoldable pub release : Semaphore → Semaphore
unfolding wake
release s = wake s.waiting (record s { active = s.active - 1 })

unfoldable pub count : Semaphore → ℕ
count s = s.active
