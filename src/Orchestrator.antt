-- ===== src/Orchestrator.antt =====
-- `RunOrchestrator` of packages/core/src/run-orchestrator.ts: the queue of each session, and who
-- runs. Its semaphore is the module Semaphore. An operation is a number; that it has ended is the
-- step `finish`, the callback that `pump` hangs on its promise. `started` and `finished` record what
-- was started and what has ended, and nothing reads them.
pub mod Invariant
pub mod Order
pub mod Exclusion
pub mod Reorder
pub mod Drain
pub mod Tests
use uma_agent.Base.{
  ℕ, zero, suc, ◌+◌, ◌-◌, String, Bool, true, false, not, ◌&&◌, ◌||◌, List, [], ◌∷◌, ◌++◌, Option,
  none, some, map, ite, same, eqs, any, all, select, length, leb, ltb, ◌==◌, if◌then◌else◌, Result,
  ok, err,
}
use uma_agent.JsMap.{get, put, delete, values}

pub record QueueEntry : Type 0 where
  pub run_id : Option String
  pub operation : ℕ

pub record SessionQueue : Type 0 where
  pub pending : List QueueEntry
  pub running : Bool
  pub paused : Bool

pub record RunOrchestrator : Type 0 where
  pub sessions : List (String × SessionQueue)
  pub idle_waiters : ℕ
  pub started : List (String × QueueEntry)
  pub finished : List String

abbrev pub create : RunOrchestrator
create = record { sessions = []; idle_waiters = 0; started = []; finished = [] }

abbrev pub is_nil {ℓ} : {A : Type ℓ} → List A → Bool
is_nil [] = true
is_nil (x ∷ xs) = false

abbrev pub is_quiet : SessionQueue → Bool
is_quiet q = not q.running && is_nil q.pending

unfoldable pub is_idle : RunOrchestrator → Bool
unfolding values
is_idle o = all is_quiet (values o.sessions)

unfoldable pub resolve_idle_waiters : RunOrchestrator → RunOrchestrator
resolve_idle_waiters o = if is_idle o then record o { idle_waiters = 0 } else o

abbrev pub or_new : Option SessionQueue → SessionQueue
or_new none = record { pending = []; running = false; paused = false }
or_new (some q) = q

-- The queue of `getSession`; the caller writes it to the map.
abbrev pub get_session : String → RunOrchestrator → SessionQueue
get_session sid o = or_new (get sid o.sessions)

abbrev pub save : String → SessionQueue → RunOrchestrator → RunOrchestrator
save sid q o = record o { sessions = put sid q o.sessions }

unfoldable pub shift : String → SessionQueue → List QueueEntry → RunOrchestrator → RunOrchestrator
shift sid q [] o = resolve_idle_waiters (record o { sessions = delete sid o.sessions })
shift sid q (e ∷ es) o = record o {
  sessions = put sid (record q { pending = es; running = true }) o.sessions;
  started = o.started ++ (sid, e) ∷ [];
}

unfoldable pub pump : String → SessionQueue → RunOrchestrator → RunOrchestrator
unfolding shift
pump sid q o = if q.running || q.paused then save sid q o else shift sid q q.pending o

unfoldable pub enqueue_entry : String → QueueEntry → Bool → RunOrchestrator → RunOrchestrator
enqueue_entry sid e first o =
    let q = get_session sid o in
    pump sid (record q { pending = if first then e ∷ q.pending else q.pending ++ e ∷ [] }) o

abbrev pub enqueue : String → QueueEntry → RunOrchestrator → RunOrchestrator
enqueue sid e o = enqueue_entry sid e false o

abbrev pub enqueue_first : String → QueueEntry → RunOrchestrator → RunOrchestrator
enqueue_first sid e o = enqueue_entry sid e true o

abbrev pub has_run : String → QueueEntry → Bool
has_run rid e = elim e.run_id [ none ↦ false | some r ↦ eqs r rid ]

abbrev pub behind :
    QueueEntry → Option (QueueEntry × List QueueEntry) → Option (QueueEntry × List QueueEntry)
behind x none = none
behind x (some (e, rest)) = some (e, x ∷ rest)

-- `findIndex`, and the entry and the rest that `splice(index, 1)` gives.
unfoldable pub splice : String → List QueueEntry → Option (QueueEntry × List QueueEntry)
splice rid [] = none
splice rid (e ∷ es) =
    let rest = splice rid es in if has_run rid e then some (e, es) else behind e rest

unfoldable pub remove_from :
    String
    → SessionQueue
    → Option (QueueEntry × List QueueEntry)
    → RunOrchestrator
    → RunOrchestrator × Bool
remove_from sid q none o = (o, false)
remove_from sid q (some (e, rest)) o = (
  resolve_idle_waiters (
      if not q.running && is_nil rest
      then record o { sessions = delete sid o.sessions }
      else save sid (record q { pending = rest }) o),
  true,
)

abbrev pub remove_in :
    String → String → Option SessionQueue → RunOrchestrator → RunOrchestrator × Bool
remove_in sid rid none o = (o, false)
remove_in sid rid (some q) o = remove_from sid q (splice rid q.pending) o

unfoldable pub remove : String → String → RunOrchestrator → RunOrchestrator × Bool
unfolding remove_from
remove sid rid o = remove_in sid rid (get sid o.sessions) o

abbrev pub index_run :
    QueueEntry → Option String → List (String × QueueEntry) → List (String × QueueEntry)
index_run e none m = m
index_run e (some r) m = put r e m

-- `new Map(pending.flatMap(...))`.
unfoldable pub by_id : List QueueEntry → List (String × QueueEntry) → List (String × QueueEntry)
by_id [] m = m
by_id (e ∷ es) m = by_id es (index_run e e.run_id m)

abbrev pub is_there : Option QueueEntry → Bool
is_there none = false
is_there (some e) = true

-- `runIds.map((id) => byId.get(id))`, where all ids are there.
unfoldable pub pick : List (String × QueueEntry) → List String → List QueueEntry
pick m [] = []
pick m (r ∷ rs) = elim (get r m) [ none ↦ pick m rs | some e ↦ e ∷ pick m rs ]

unfoldable pub reorder_pending : List String → List QueueEntry → Result (List QueueEntry)
reorder_pending rids pending =
    let m = by_id pending [] in
    if length m == length pending
      && length rids == length pending
      && all (λ r. is_there (get r m)) rids
    then ok (pick m rids)
    else err "Queue changed; reload the session snapshot"

abbrev pub reordered :
    String → SessionQueue → RunOrchestrator → Result (List QueueEntry) → Result RunOrchestrator
reordered sid q o (ok pending) = ok (save sid (record q { pending = pending }) o)
reordered sid q o (err m) = err m

abbrev pub reorder_in :
    String → List String → Option SessionQueue → RunOrchestrator → Result RunOrchestrator
reorder_in sid rids none o = ok o
reorder_in sid rids (some q) o =
    if is_nil q.pending then ok o else reordered sid q o (reorder_pending rids q.pending)

unfoldable pub reorder : String → List String → RunOrchestrator → Result RunOrchestrator
reorder sid rids o = reorder_in sid rids (get sid o.sessions) o

-- The entry of the run goes to the front; at index 0 or with no such entry nothing moves.
unfoldable pub to_front : String → List QueueEntry → List QueueEntry
to_front rid pending = elim (splice rid pending) [ none ↦ pending | some (e, rest) ↦ e ∷ rest ]

abbrev pub prioritize_in : String → String → Option SessionQueue → RunOrchestrator → RunOrchestrator
prioritize_in sid rid none o = o
prioritize_in sid rid (some q) o = save sid (record q { pending = to_front rid q.pending }) o

unfoldable pub prioritize : String → String → RunOrchestrator → RunOrchestrator
prioritize sid rid o = prioritize_in sid rid (get sid o.sessions) o

unfoldable pub pause : String → RunOrchestrator → RunOrchestrator
pause sid o = save sid (record (get_session sid o) { paused = true }) o

abbrev pub resume_in : String → Option SessionQueue → RunOrchestrator → RunOrchestrator
resume_in sid none o = o
resume_in sid (some q) o = pump sid (record q { paused = false }) o

unfoldable pub resume : String → RunOrchestrator → RunOrchestrator
resume sid o = resume_in sid (get sid o.sessions) o

abbrev pub finish_in : String → Option SessionQueue → RunOrchestrator → RunOrchestrator
finish_in sid none o = o
finish_in sid (some q) o =
    pump sid (record q { running = false }) (record o { finished = o.finished ++ sid ∷ [] })

-- The operation of the session has ended: the `finally` of `pump`.
unfoldable pub finish : String → RunOrchestrator → RunOrchestrator
finish sid o = finish_in sid (get sid o.sessions) o

abbrev pub keys : List (String × SessionQueue) → List String
keys = map (λ p. p.0)

unfoldable pub resume_all : List String → RunOrchestrator → RunOrchestrator
resume_all [] o = o
resume_all (k ∷ ks) o = resume_all ks (resume k o)

-- `drain` up to its `await`: every session is unpaused and pumped, and the caller waits unless all
-- is idle.
unfoldable pub drain : RunOrchestrator → RunOrchestrator
drain o =
    let o' = resume_all (keys o.sessions) o in
    if is_idle o' then o' else record o' { idle_waiters = o'.idle_waiters + 1 }
