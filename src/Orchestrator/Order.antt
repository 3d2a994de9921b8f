-- ===== src/Orchestrator/Order.antt =====
-- In which order the operations of a session start.
use uma_agent.Base.{
  String, ◌≡◌, refl, ap, subst, sym, ◌∙◌, inl, inr, true, false, ◌||◌, List, [], ◌∷◌, ◌++◌,
  append-nil, append_assoc, Option, none, some, ite, same, arith, Bool-cases, All,
}
use uma_agent.JsMap.{get, delete, get-put, get-delete}
use uma_agent.Orchestrator.{
  QueueEntry, SessionQueue, RunOrchestrator, create, shift, pump, enqueue_entry, pause, resume,
  resume_in, resume_all, finish, finish_in, drain, get_session, keys, is_idle, or_new, save,
}
use uma_agent.Orchestrator.Invariant.{
  Op, enqueues, removes, reorders, prioritizes, pauses, resumes, finishes, drains, step, run,
  sessions-resolve, started-resolve,
}

-- The session's entries among those that were started, oldest first.
unfoldable pub entries_of : String → List (String × QueueEntry) → List QueueEntry
entries_of j [] = []
entries_of j ((sid, e) ∷ l) = let rest = entries_of j l in ite (same sid j) (e ∷ rest) rest

abbrev pub pending_in : Option SessionQueue → List QueueEntry
pending_in none = []
pending_in (some q) = q.pending

-- What the session has started and has still to start.
abbrev pub line : String → RunOrchestrator → List QueueEntry
line j o = entries_of j o.started ++ pending_in (get j o.sessions)

pub entries_of-append :
    (j sid : String) (e : QueueEntry) (l : List (String × QueueEntry))
    → entries_of j (l ++ (sid, e) ∷ []) ≡ entries_of j l ++ ite (same sid j) (e ∷ []) []
unfolding entries_of
entries_of-append j sid e [] = ground arith
entries_of-append j sid e ((s, x) ∷ l) = ground (arith, entries_of-append j sid e l)

line-shift :
    (j sid : String) (q : SessionQueue) (es : List QueueEntry) (o : RunOrchestrator)
    → line j (shift sid q es o) ≡ ite (same sid j) (entries_of j o.started ++ es) (line j o)
unfolding shift
line-shift j sid q [] o =
    let o' : RunOrchestrator = record o { sessions = delete sid o.sessions } in
    rw (sessions-resolve o', started-resolve o', get-delete sid j o.sessions) (ground arith)
line-shift j sid q (e ∷ es) o =
    rw
      (
        get-put sid j (record q { pending = es; running = true }) o.sessions,
        entries_of-append j sid e o.started,
      )
      (ground (
        arith,
        append_assoc (entries_of j o.started) (e ∷ []) es,
        append-nil (entries_of j o.started),
      ))

line-save :
    (j sid : String) (q : SessionQueue) (o : RunOrchestrator)
    → line j (save sid q o) ≡ ite (same sid j) (entries_of j o.started ++ q.pending) (line j o)
line-save j sid q o = rw (get-put sid j q o.sessions) (ground arith)

line-pump :
    (j sid : String) (q : SessionQueue) (o : RunOrchestrator)
    → line j (pump sid q o) ≡ ite (same sid j) (entries_of j o.started ++ q.pending) (line j o)
unfolding pump
line-pump j sid q o = elim (Bool-cases (q.running || q.paused)) [
  | inl stays ↦ rw stays (line-save j sid q o)
  | inr goes ↦ rw goes (line-shift j sid q q.pending o)
]

-- A session that is written back with its own pending entries leaves every line as it was.
line_unchanged :
    (j sid : String) (o : RunOrchestrator) (x : Option SessionQueue) (es : List QueueEntry)
    → get sid o.sessions ≡ x
    → pending_in x ≡ es
    → ite (same sid j) (entries_of j o.started ++ es) (line j o) ≡ line j o
line_unchanged j sid o x es e p = ground arith

line-pause : (j sid : String) (o : RunOrchestrator) → line j (pause sid o) ≡ line j o
unfolding pause
line-pause j sid o =
    line-save j sid (record (get_session sid o) { paused = true }) o
    ∙ line_unchanged j sid o (get sid o.sessions) (get_session sid o).pending refl
        (known (get sid o.sessions))
  where
    known : (x : Option SessionQueue) → pending_in x ≡ (or_new x).pending
    known none = refl
    known (some q) = refl

line-resume : (j sid : String) (o : RunOrchestrator) → line j (resume sid o) ≡ line j o
unfolding resume
line-resume j sid o = found (get sid o.sessions) refl
  where
    found :
        (x : Option SessionQueue) → get sid o.sessions ≡ x → line j (resume_in sid x o) ≡ line j o
    found none e = refl
    found (some q) e =
        line-pump j sid (record q { paused = false }) o
        ∙ line_unchanged j sid o (some q) q.pending e refl

line-finish : (j sid : String) (o : RunOrchestrator) → line j (finish sid o) ≡ line j o
unfolding finish
line-finish j sid o = found (get sid o.sessions) refl
  where
    found :
        (x : Option SessionQueue) → get sid o.sessions ≡ x → line j (finish_in sid x o) ≡ line j o
    found none e = refl
    found (some q) e =
        line-pump j sid (record q { running = false })
          (record o { finished = o.finished ++ sid ∷ [] })
        ∙ line_unchanged j sid o (some q) q.pending e refl

line-resume_all :
    (j : String) (ks : List String) (o : RunOrchestrator) → line j (resume_all ks o) ≡ line j o
unfolding resume_all
line-resume_all j [] o = refl
line-resume_all j (k ∷ ks) o = line-resume_all j ks (resume k o) ∙ line-resume j k o

line-drain : (j : String) (o : RunOrchestrator) → line j (drain o) ≡ line j o
unfolding drain
line-drain j o = elim (Bool-cases (is_idle (resume_all (keys o.sessions) o))) [
  | inl idle ↦ rw idle (line-resume_all j (keys o.sessions) o)
  | inr busy ↦ rw busy (line-resume_all j (keys o.sessions) o)
]

line-enqueue :
    (j sid : String) (e : QueueEntry) (o : RunOrchestrator)
    → line j (enqueue_entry sid e false o) ≡ ite (same sid j) (line j o ++ e ∷ []) (line j o)
unfolding enqueue_entry
line-enqueue j sid e o =
    line-pump j sid (record (get_session sid o) { pending = (get_session sid o).pending ++ e ∷ [] })
      o
    ∙ ground (arith, append_assoc (entries_of j o.started) (pending_in (get j o.sessions)) (e ∷ []))

-- The operations that keep the order of arrival: all but those that take an entry out, reorder, or
-- put one first.
abbrev pub InOrder : Op → Type 0
InOrder (enqueues sid e first) = first ≡ false
InOrder (removes sid rid) = ⊥
InOrder (reorders sid rids) = ⊥
InOrder (prioritizes sid rid) = ⊥
InOrder _ = Unit

-- The entries that the operations send to the session.
unfoldable pub sent : String → List Op → List QueueEntry
sent j [] = []
sent j (enqueues sid e first ∷ xs) = let rest = sent j xs in ite (same sid j) (e ∷ rest) rest
sent j (_ ∷ xs) = sent j xs

line-run :
    (j : String) (xs : List Op) (o : RunOrchestrator)
    → All InOrder xs
    → line j (run xs o) ≡ line j o ++ sent j xs
unfolding run step sent
line-run j [] o h = sym (append-nil (line j o))
line-run j (enqueues sid e first ∷ xs) o h =
    subst
      (λ b. line j (run xs (enqueue_entry sid e b o)) ≡ line j o ++ sent j (enqueues sid e b ∷ xs))
      (sym h.0)
      (ground (
        arith,
        line-run j xs (enqueue_entry sid e false o) h.1,
        line-enqueue j sid e o,
        append_assoc (line j o) (e ∷ []) (sent j xs),
      ))
line-run j (removes sid rid ∷ xs) o h = absurd h.0
line-run j (reorders sid rids ∷ xs) o h = absurd h.0
line-run j (prioritizes sid rid ∷ xs) o h = absurd h.0
line-run j (pauses sid ∷ xs) o h =
    line-run j xs (pause sid o) h.1 ∙ ap (λ l. l ++ sent j xs) (line-pause j sid o)
line-run j (resumes sid ∷ xs) o h =
    line-run j xs (resume sid o) h.1 ∙ ap (λ l. l ++ sent j xs) (line-resume j sid o)
line-run j (finishes sid ∷ xs) o h =
    line-run j xs (finish sid o) h.1 ∙ ap (λ l. l ++ sent j xs) (line-finish j sid o)
line-run j (drains ∷ xs) o h =
    line-run j xs (drain o) h.1 ∙ ap (λ l. l ++ sent j xs) (line-drain j o)

-- On a new orchestrator, under any interleaving of the sessions' operations that keep the order of
-- arrival: the operations that a session has started, followed by those that wait in it, are those
-- that were sent to it, in the order in which they were sent.
pub fifo :
    (xs : List Op) (j : String)
    → All InOrder xs
    → entries_of j (run xs create).started ++ pending_in (get j (run xs create).sessions)
      ≡ sent j xs
unfolding get entries_of
fifo xs j h = line-run j xs create h
