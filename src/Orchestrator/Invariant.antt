-- ===== src/Orchestrator/Invariant.antt =====
-- Every session that the map holds is running or paused, after any operations.
use uma_agent.Base.{
  String, ◌≡◌, refl, subst, ◌⊎◌, inl, inr, Bool, true, not, ◌&&◌, ◌||◌, List, [], ◌∷◌, ◌++◌, Option,
  none, some, ite, same, arith, Bool-cases, if◌then◌else◌, Result, ok, err,
}
use uma_agent.JsMap.{get, delete, get-put, get-delete}
use uma_agent.Orchestrator.{
  QueueEntry, SessionQueue, RunOrchestrator, create, resolve_idle_waiters, shift, pump,
  enqueue_entry, splice, remove_from, remove, remove_in, reorder, reorder_in, reorder_pending,
  prioritize, prioritize_in, pause, resume, resume_in, resume_all, finish, finish_in, drain, keys,
  is_idle, save, reordered, is_nil,
}

-- What the runtime does with the orchestrator, and the end of a session's operation.
pub data Op : Type 0 where
  enqueues : String → QueueEntry → Bool → Op
  removes : String → String → Op
  reorders : String → List String → Op
  prioritizes : String → String → Op
  pauses resumes finishes : String → Op
  drains : Op

-- A reorder that throws leaves the orchestrator as it was.
abbrev pub or_same : RunOrchestrator → Result RunOrchestrator → RunOrchestrator
or_same o (ok o') = o'
or_same o (err m) = o

unfoldable pub step : Op → RunOrchestrator → RunOrchestrator
step (enqueues sid e first) o = enqueue_entry sid e first o
step (removes sid rid) o = (remove sid rid o).0
step (reorders sid rids) o = or_same o (reorder sid rids o)
step (prioritizes sid rid) o = prioritize sid rid o
step (pauses sid) o = pause sid o
step (resumes sid) o = resume sid o
step (finishes sid) o = finish sid o
step drains o = drain o

unfoldable pub run : List Op → RunOrchestrator → RunOrchestrator
run [] o = o
run (x ∷ xs) o = run xs (step x o)

pub sessions-resolve : (o : RunOrchestrator) → (resolve_idle_waiters o).sessions ≡ o.sessions
unfolding resolve_idle_waiters
sessions-resolve o = ground arith

pub started-resolve : (o : RunOrchestrator) → (resolve_idle_waiters o).started ≡ o.started
unfolding resolve_idle_waiters
started-resolve o = ground arith

pub finished-resolve : (o : RunOrchestrator) → (resolve_idle_waiters o).finished ≡ o.finished
unfolding resolve_idle_waiters
finished-resolve o = ground arith

-- What `pump` leaves of the session in the map.
abbrev pub shifted : SessionQueue → List QueueEntry → Option SessionQueue
shifted q [] = none
shifted q (e ∷ es) = some (record q { pending = es; running = true })

abbrev pub pumped : SessionQueue → Option SessionQueue
pumped q = if q.running || q.paused then some q else shifted q q.pending

get-shift :
    (sid : String) (q : SessionQueue) (es : List QueueEntry) (o : RunOrchestrator) (j : String)
    → get j (shift sid q es o).sessions ≡ ite (same sid j) (shifted q es) (get j o.sessions)
unfolding shift
get-shift sid q [] o j =
    rw (sessions-resolve (record o { sessions = delete sid o.sessions }))
      (get-delete sid j o.sessions)
get-shift sid q (e ∷ es) o j = get-put sid j (record q { pending = es; running = true }) o.sessions

pub get-pump :
    (sid : String) (q : SessionQueue) (o : RunOrchestrator) (j : String)
    → get j (pump sid q o).sessions ≡ ite (same sid j) (pumped q) (get j o.sessions)
unfolding pump
get-pump sid q o j = elim (Bool-cases (q.running || q.paused)) [
  | inl stays ↦ rw stays (get-put sid j q o.sessions)
  | inr goes ↦ rw goes (get-shift sid q q.pending o j)
]

abbrev pub Live : Option SessionQueue → Type 0
Live none = Unit {0}
Live (some q) = (q.running ≡ true) ⊎ (q.paused ≡ true)

abbrev pub IsLive : RunOrchestrator → Type 0
IsLive o = (j : String) → Live (get j o.sessions)

Live-pumped : (q : SessionQueue) → Live (pumped q)
Live-pumped q = elim (Bool-cases (q.running || q.paused)) [
  | inl stays ↦ rw stays (ground arith)
  | inr goes ↦ rw goes (shifted-Live q.pending)
]
  where
    shifted-Live : (es : List QueueEntry) → Live (shifted q es)
    shifted-Live [] = tt
    shifted-Live (e ∷ es) = inl refl

-- A map in which one session has changed.
Live-ite :
    (sid j : String) (a b : Option SessionQueue) → Live a → Live b → Live (ite (same sid j) a b)
Live-ite sid j a b la lb = elim (same sid j) as (λ d. Live (ite d a b)) [ yes p ↦ la | no n ↦ lb ]

pump-IsLive :
    (sid : String) (q : SessionQueue) (o : RunOrchestrator) → IsLive o → IsLive (pump sid q o)
pump-IsLive sid q o l j = rw (get-pump sid q o j) (Live-ite sid j _ _ (Live-pumped q) (l j))

put-IsLive :
    (sid : String) (q : SessionQueue) (o : RunOrchestrator)
    → Live (some q)
    → IsLive o
    → IsLive (save sid q o)
put-IsLive sid q o lq l j = rw (get-put sid j q o.sessions) (Live-ite sid j (some q) _ lq (l j))

delete-IsLive :
    (sid : String) (o : RunOrchestrator)
    → IsLive o
    → IsLive (record o { sessions = delete sid o.sessions })
delete-IsLive sid o l j = rw (get-delete sid j o.sessions) (Live-ite sid j none _ tt (l j))

resolve-IsLive : (o : RunOrchestrator) → IsLive o → IsLive (resolve_idle_waiters o)
resolve-IsLive o l j = rw (sessions-resolve o) (l j)

pause-IsLive : (sid : String) (o : RunOrchestrator) → IsLive o → IsLive (pause sid o)
unfolding pause
pause-IsLive sid o l = put-IsLive sid _ o (inr refl) l

resume-IsLive : (sid : String) (o : RunOrchestrator) → IsLive o → IsLive (resume sid o)
unfolding resume
resume-IsLive sid o l = found (get sid o.sessions)
  where
    found : (x : Option SessionQueue) → IsLive (resume_in sid x o)
    found none = l
    found (some q) = pump-IsLive sid _ o l

finish-IsLive : (sid : String) (o : RunOrchestrator) → IsLive o → IsLive (finish sid o)
unfolding finish
finish-IsLive sid o l = found (get sid o.sessions)
  where
    found : (x : Option SessionQueue) → IsLive (finish_in sid x o)
    found none = l
    found (some q) = pump-IsLive sid _ (record o { finished = o.finished ++ sid ∷ [] }) l

prioritize-IsLive :
    (sid rid : String) (o : RunOrchestrator) → IsLive o → IsLive (prioritize sid rid o)
unfolding prioritize
prioritize-IsLive sid rid o l = found (get sid o.sessions) (l sid)
  where
    found : (x : Option SessionQueue) → Live x → IsLive (prioritize_in sid rid x o)
    found none h = l
    found (some q) h = put-IsLive sid _ o h l

remove-IsLive : (sid rid : String) (o : RunOrchestrator) → IsLive o → IsLive (remove sid rid o).0
unfolding remove
remove-IsLive sid rid o l = found (get sid o.sessions) (l sid)
  where
    taken :
        (q : SessionQueue) (x : Option (QueueEntry × List QueueEntry))
        → Live (some q)
        → IsLive (remove_from sid q x o).0
    taken q none h = l
    taken q (some (e, rest)) h = elim (Bool-cases (not q.running && is_nil rest)) [
      | inl gone ↦ rw gone (resolve-IsLive _ (delete-IsLive sid o l))
      | inr stays ↦ rw stays (resolve-IsLive _ (put-IsLive sid (record q { pending = rest }) o h l))
    ]

    found : (x : Option SessionQueue) → Live x → IsLive (remove_in sid rid x o).0
    found none h = l
    found (some q) h = taken q (splice rid q.pending) h

reorder-IsLive :
    (sid : String) (rids : List String) (o : RunOrchestrator)
    → IsLive o
    → IsLive (or_same o (reorder sid rids o))
unfolding reorder
reorder-IsLive sid rids o l = found (get sid o.sessions) (l sid)
  where
    written :
        (q : SessionQueue) (r : Result (List QueueEntry))
        → Live (some q)
        → IsLive (or_same o (reordered sid q o r))
    written q (ok es) h = put-IsLive sid (record q { pending = es }) o h l
    written q (err m) h = l

    found : (x : Option SessionQueue) → Live x → IsLive (or_same o (reorder_in sid rids x o))
    found none h = l
    found (some q) h = elim (Bool-cases (is_nil q.pending)) [
      | inl e ↦ rw e l
      | inr e ↦ rw e (written q (reorder_pending rids q.pending) h)
    ]

resume_all-IsLive : (ks : List String) (o : RunOrchestrator) → IsLive o → IsLive (resume_all ks o)
unfolding resume_all
resume_all-IsLive [] o l = l
resume_all-IsLive (k ∷ ks) o l = resume_all-IsLive ks (resume k o) (resume-IsLive k o l)

drain-IsLive : (o : RunOrchestrator) → IsLive o → IsLive (drain o)
unfolding drain
drain-IsLive o l =
    let l' = resume_all-IsLive (keys o.sessions) o l in
    elim (Bool-cases (is_idle (resume_all (keys o.sessions) o))) [
      | inl idle ↦ rw idle l'
      | inr busy ↦ rw busy l'
    ]

step-IsLive : (x : Op) (o : RunOrchestrator) → IsLive o → IsLive (step x o)
unfolding step enqueue_entry
step-IsLive (enqueues sid e first) o l = pump-IsLive sid _ o l
step-IsLive (removes sid rid) o l = remove-IsLive sid rid o l
step-IsLive (reorders sid rids) o l = reorder-IsLive sid rids o l
step-IsLive (prioritizes sid rid) o l = prioritize-IsLive sid rid o l
step-IsLive (pauses sid) o l = pause-IsLive sid o l
step-IsLive (resumes sid) o l = resume-IsLive sid o l
step-IsLive (finishes sid) o l = finish-IsLive sid o l
step-IsLive drains o l = drain-IsLive o l

run-IsLive : (xs : List Op) (o : RunOrchestrator) → IsLive o → IsLive (run xs o)
unfolding run
run-IsLive [] o l = l
run-IsLive (x ∷ xs) o l = run-IsLive xs (step x o) (step-IsLive x o l)

-- After any operations on a new orchestrator, each session in the map is running or paused: work
-- that waits in a session waits for its running operation to end or for the session to be resumed.
pub work_conserving :
    (xs : List Op) (sid : String) (q : SessionQueue)
    → get sid (run xs create).sessions ≡ some q
    → (q.running ≡ true) ⊎ (q.paused ≡ true)
unfolding get
work_conserving xs sid q e = subst Live e (run-IsLive xs create (λ j. tt) sid)
