-- ===== src/Orchestrator/Drain.antt =====
-- Who resolves the callers of `drain`.
use uma_agent.Base.{ℕ, suc, String, ◌≡◌, sym, ◌∙◌, true, false, [], ◌∷◌, ◌++◌, some, arith}
use uma_agent.JsMap.{get, put, values, delete}
use uma_agent.Orchestrator.{
  SessionQueue, RunOrchestrator, is_idle, resolve_idle_waiters, pause, finish, finish_in, pump,
}

is_idle-resolve : (o : RunOrchestrator) → is_idle (resolve_idle_waiters o) ≡ is_idle o
unfolding is_idle resolve_idle_waiters
is_idle-resolve o = ground arith

resolve_idle : (o : RunOrchestrator) → is_idle o ≡ true → (resolve_idle_waiters o).idle_waiters ≡ 0
unfolding resolve_idle_waiters
resolve_idle o h = rw h

finish_in_resolves :
    (o : RunOrchestrator) (sid : String) (q : SessionQueue)
    → q.paused ≡ false
    → q.pending ≡ []
    → is_idle (finish_in sid (some q) o) ≡ true
    → (finish_in sid (some q) o).idle_waiters ≡ 0
unfolding pump
finish_in_resolves o sid q p e =
    rw (p, e)
      λ i. resolve_idle _ (
        sym (
          is_idle-resolve
            (record o { sessions = delete sid o.sessions; finished = o.finished ++ sid ∷ [] }))
        ∙ i)

-- If the last operation of a session that is not paused ends and all is idle then, the waiters of
-- `drain` have been resolved.
pub finish_resolves :
    (o : RunOrchestrator) (sid : String) (q : SessionQueue)
    → get sid o.sessions ≡ some q
    → q.paused ≡ false
    → q.pending ≡ []
    → is_idle (finish sid o) ≡ true
    → (finish sid o).idle_waiters ≡ 0
unfolding finish
finish_resolves o sid q g p e = rw g (finish_in_resolves o sid q p e)

-- The wake-up that is missed: a session runs its last operation while `drain` waits for it, the
-- session is paused meanwhile, and the operation ends. Then all is idle, and the waiters of `drain`
-- are still there.
pub drain_missed :
    (o : RunOrchestrator) (sid : String) (q : SessionQueue) (n : ℕ)
    → o.sessions ≡ (sid, q) ∷ []
    → q.running ≡ true
    → q.pending ≡ []
    → o.idle_waiters ≡ suc n
    → (is_idle (finish sid (pause sid o)) ≡ true)
      × ((finish sid (pause sid o)).idle_waiters ≡ suc n)
unfolding is_idle finish pause pump get put values
drain_missed o sid q n e r p w = ground (arith, e)
