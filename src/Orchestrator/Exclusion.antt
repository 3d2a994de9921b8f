-- ===== src/Orchestrator/Exclusion.antt =====
-- At most one operation of a session runs.
use uma_agent.Base.{
  ℕ, suc, ◌+◌, String, ◌≡◌, refl, Bool, true, false, not, ◌&&◌, ◌||◌, List, [], ◌∷◌, ◌++◌, Option,
  none, some, ite, same, arith, Bool-cases, if◌then◌else◌, Result, ok, err, length, length-append,
  inl, inr,
}
use uma_agent.JsMap.{get, delete, get-put, get-delete}
use uma_agent.Orchestrator.{
  QueueEntry, SessionQueue, RunOrchestrator, create, resolve_idle_waiters, shift, pump,
  enqueue_entry, splice, remove_from, remove, remove_in, reorder, reorder_in, reorder_pending,
  prioritize, prioritize_in, pause, resume, resume_in, resume_all, finish, finish_in, drain, keys,
  is_idle, or_new, save, reordered, is_nil,
}
use uma_agent.Orchestrator.Invariant.{
  Op, enqueues, removes, reorders, prioritizes, pauses, resumes, finishes, drains, step, run,
  or_same, sessions-resolve, started-resolve, finished-resolve,
}
use uma_agent.Orchestrator.Order.{entries_of, entries_of-append}

-- How many operations of the session have ended.
unfoldable pub ended : String → List String → ℕ
ended j [] = 0
ended j (sid ∷ l) = ite (same sid j) (suc (ended j l)) (ended j l)

ended-append :
    (j sid : String) (l : List String) → ended j (l ++ sid ∷ []) ≡ ended j l + ite (same sid j) 1 0
unfolding ended
ended-append j sid [] = ground arith
ended-append j sid (s ∷ l) = ground (arith, ended-append j sid l)

abbrev pub busy : Option SessionQueue → ℕ
busy none = 0
busy (some q) = if q.running then 1 else 0

-- The count with the session's queue in the map given apart.
abbrev Counts : String → RunOrchestrator → Option SessionQueue → Type 0
Counts j o x = length (entries_of j o.started) ≡ ended j o.finished + busy x

abbrev pub Balanced : RunOrchestrator → Type 0
Balanced o =
    (j : String) → length (entries_of j o.started) ≡ ended j o.finished + busy (get j o.sessions)

-- Writing a queue that runs as the old one does.
abbrev Fits : String → SessionQueue → RunOrchestrator → Type 0
Fits sid q o = (j : String) → Counts j o (ite (same sid j) (some q) (get j o.sessions))

same_busy :
    (sid : String) (o : RunOrchestrator) (x : Option SessionQueue) (q : SessionQueue)
    → get sid o.sessions ≡ x
    → busy x ≡ busy (some q)
    → Balanced o
    → Fits sid q o
same_busy sid o x q e b h j = ground (arith, h j)

save-Balanced :
    (sid : String) (q : SessionQueue) (o : RunOrchestrator) → Fits sid q o → Balanced (save sid q o)
save-Balanced sid q o h j = rw (get-put sid j q o.sessions) (h j)

delete-Balanced :
    (sid : String) (q : SessionQueue) (o : RunOrchestrator)
    → q.running ≡ false
    → Fits sid q o
    → Balanced (resolve_idle_waiters (record o { sessions = delete sid o.sessions }))
delete-Balanced sid q o r h j =
    let o' : RunOrchestrator = record o { sessions = delete sid o.sessions } in
    rw (sessions-resolve o', started-resolve o', finished-resolve o', get-delete sid j o.sessions)
      (ground (arith, h j))

shift-Balanced :
    (sid : String) (q : SessionQueue) (es : List QueueEntry) (o : RunOrchestrator)
    → q.running ≡ false
    → Fits sid q o
    → Balanced (shift sid q es o)
unfolding shift
shift-Balanced sid q [] o r h j = delete-Balanced sid q o r h j
shift-Balanced sid q (e ∷ es) o r h j =
    rw
      (
        get-put sid j (record q { pending = es; running = true }) o.sessions,
        entries_of-append j sid e o.started,
      )
      (ground (arith, h j, length-append (entries_of j o.started) (ite (same sid j) (e ∷ []) [])))

pump-Balanced :
    (sid : String) (q : SessionQueue) (o : RunOrchestrator) → Fits sid q o → Balanced (pump sid q o)
unfolding pump
pump-Balanced sid q o h = elim (Bool-cases (q.running || q.paused)) [
  | inl stays ↦ rw stays (save-Balanced sid q o h)
  | inr goes ↦ rw goes (shift-Balanced sid q q.pending o (ground arith) h)
]

or_new-busy : (x : Option SessionQueue) → busy x ≡ busy (some (or_new x))
or_new-busy none = refl
or_new-busy (some q) = refl

enqueue-Balanced :
    (sid : String) (e : QueueEntry) (first : Bool) (o : RunOrchestrator)
    → Balanced o
    → Balanced (enqueue_entry sid e first o)
unfolding enqueue_entry
enqueue-Balanced sid e first o h =
    pump-Balanced sid _ o
      (same_busy sid o (get sid o.sessions) _ refl (or_new-busy (get sid o.sessions)) h)

pause-Balanced : (sid : String) (o : RunOrchestrator) → Balanced o → Balanced (pause sid o)
unfolding pause
pause-Balanced sid o h =
    save-Balanced sid _ o
      (same_busy sid o (get sid o.sessions) _ refl (or_new-busy (get sid o.sessions)) h)

resume-Balanced : (sid : String) (o : RunOrchestrator) → Balanced o → Balanced (resume sid o)
unfolding resume
resume-Balanced sid o h = found (get sid o.sessions) refl
  where
    found : (x : Option SessionQueue) → get sid o.sessions ≡ x → Balanced (resume_in sid x o)
    found none e = h
    found (some q) e = pump-Balanced sid _ o (same_busy sid o (some q) _ e refl h)

finish-Balanced :
    (sid : String) (o : RunOrchestrator)
    → busy (get sid o.sessions) ≡ 1
    → Balanced o
    → Balanced (finish sid o)
unfolding finish
finish-Balanced sid o r h = found (get sid o.sessions) refl
  where
    ended_one :
        (q : SessionQueue)
        → get sid o.sessions ≡ some q
        → Fits sid (record q { running = false }) (record o { finished = o.finished ++ sid ∷ [] })
    ended_one q e j = rw (ended-append j sid o.finished) (ground (arith, h j, r))

    found : (x : Option SessionQueue) → get sid o.sessions ≡ x → Balanced (finish_in sid x o)
    found none e = h
    found (some q) e = pump-Balanced sid _ _ (ended_one q e)

prioritize-Balanced :
    (sid rid : String) (o : RunOrchestrator) → Balanced o → Balanced (prioritize sid rid o)
unfolding prioritize
prioritize-Balanced sid rid o h = found (get sid o.sessions) refl
  where
    found :
        (x : Option SessionQueue) → get sid o.sessions ≡ x → Balanced (prioritize_in sid rid x o)
    found none e = h
    found (some q) e = save-Balanced sid _ o (same_busy sid o (some q) _ e refl h)

resolve-Balanced : (o : RunOrchestrator) → Balanced o → Balanced (resolve_idle_waiters o)
resolve-Balanced o h j = rw (sessions-resolve o, started-resolve o, finished-resolve o) (h j)

remove-Balanced :
    (sid rid : String) (o : RunOrchestrator) → Balanced o → Balanced (remove sid rid o).0
unfolding remove
remove-Balanced sid rid o h = found (get sid o.sessions) refl
  where
    taken :
        (q : SessionQueue) (x : Option (QueueEntry × List QueueEntry))
        → get sid o.sessions ≡ some q
        → Balanced (remove_from sid q x o).0
    taken q none e = h
    taken q (some (x, rest)) e = elim (Bool-cases (not q.running && is_nil rest)) [
      | inl gone ↦
          rw gone (delete-Balanced sid q o (ground arith) (same_busy sid o (some q) q e refl h))
      | inr stays ↦
          rw stays
            (resolve-Balanced _ (save-Balanced sid _ o (same_busy sid o (some q) _ e refl h)))
    ]

    found : (x : Option SessionQueue) → get sid o.sessions ≡ x → Balanced (remove_in sid rid x o).0
    found none e = h
    found (some q) e = taken q (splice rid q.pending) e

reorder-Balanced :
    (sid : String) (rids : List String) (o : RunOrchestrator)
    → Balanced o
    → Balanced (or_same o (reorder sid rids o))
unfolding reorder
reorder-Balanced sid rids o h = found (get sid o.sessions) refl
  where
    written :
        (q : SessionQueue) (r : Result (List QueueEntry))
        → get sid o.sessions ≡ some q
        → Balanced (or_same o (reordered sid q o r))
    written q (ok es) e = save-Balanced sid _ o (same_busy sid o (some q) _ e refl h)
    written q (err m) e = h

    found :
        (x : Option SessionQueue)
        → get sid o.sessions ≡ x
        → Balanced (or_same o (reorder_in sid rids x o))
    found none e = h
    found (some q) e = elim (Bool-cases (is_nil q.pending)) [
      | inl n ↦ rw n h
      | inr n ↦ rw n (written q (reorder_pending rids q.pending) e)
    ]

resume_all-Balanced :
    (ks : List String) (o : RunOrchestrator) → Balanced o → Balanced (resume_all ks o)
unfolding resume_all
resume_all-Balanced [] o h = h
resume_all-Balanced (k ∷ ks) o h = resume_all-Balanced ks (resume k o) (resume-Balanced k o h)

drain-Balanced : (o : RunOrchestrator) → Balanced o → Balanced (drain o)
unfolding drain
drain-Balanced o h =
    let h' = resume_all-Balanced (keys o.sessions) o h in
    elim (Bool-cases (is_idle (resume_all (keys o.sessions) o))) [
      | inl idle ↦ rw idle h'
      | inr waits ↦ rw waits h'
    ]

-- An operation ends only in a session that runs one.
abbrev pub Enabled : Op → RunOrchestrator → Type 0
Enabled (finishes sid) o = busy (get sid o.sessions) ≡ 1
Enabled _ o = Unit

abbrev pub AllEnabled : List Op → RunOrchestrator → Type 0
AllEnabled [] o = Unit
AllEnabled (x ∷ xs) o = Enabled x o × AllEnabled xs (step x o)

step-Balanced : (x : Op) (o : RunOrchestrator) → Enabled x o → Balanced o → Balanced (step x o)
unfolding step
step-Balanced (enqueues sid e first) o n h = enqueue-Balanced sid e first o h
step-Balanced (removes sid rid) o n h = remove-Balanced sid rid o h
step-Balanced (reorders sid rids) o n h = reorder-Balanced sid rids o h
step-Balanced (prioritizes sid rid) o n h = prioritize-Balanced sid rid o h
step-Balanced (pauses sid) o n h = pause-Balanced sid o h
step-Balanced (resumes sid) o n h = resume-Balanced sid o h
step-Balanced (finishes sid) o n h = finish-Balanced sid o n h
step-Balanced drains o n h = drain-Balanced o h

run-Balanced :
    (xs : List Op) (o : RunOrchestrator) → AllEnabled xs o → Balanced o → Balanced (run xs o)
unfolding run
run-Balanced [] o n h = h
run-Balanced (x ∷ xs) o n h = run-Balanced xs (step x o) n.1 (step-Balanced x o n.0 h)

-- After any operations on a new orchestrator in which only running operations end, a session has
-- started as many operations as have ended, and one more exactly if its queue is marked as running:
-- no session runs two operations at once.
pub one_at_a_time :
    (xs : List Op) (j : String)
    → AllEnabled xs create
    → length (entries_of j (run xs create).started)
      ≡ ended j (run xs create).finished + busy (get j (run xs create).sessions)
unfolding entries_of ended get
one_at_a_time xs j n = run-Balanced xs create n (λ k. refl) j
