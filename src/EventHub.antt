-- ===== src/EventHub.antt =====
-- The hub that gives events to their listeners: packages/core/src/events.ts, over the transactions and
-- the table of events of packages/core/src/database.ts. What a listener does when it is given an event,
-- such as further transactions of the hub, is the argument `react`; an error of it is dropped. What the
-- listeners are given is a list, in the order in which the hub turns to them. Payloads stand for what
-- the database stores of them, its secrets already scrubbed; the clock is an argument.
pub mod Scripts
pub mod Within
pub mod Log
pub mod Order
pub mod Tests
use uma_agent.JsMap.{get, put, delete}
use uma_agent.Base.{
  ℕ, suc, ◌+◌, ◌==◌, String, Bool, true, false, List, [], ◌∷◌, ◌++◌, Option, none, some,
  if◌then◌else◌, eqs, length, map, or_else,
}
use uma_agent.Snapshot.{Text, MessageDelta, TranscriptItem}

pub data RunState : Type 0 where
  active completed failed cancelled interrupted : RunState

-- What the hub reads of the types and payloads of events.
pub data Payload : Type 0 where
  message_started : (id : String) (is_streaming : Bool) (content : Text) → Payload
  message_delta : MessageDelta → Payload
  message_completed : (id : String) → Payload
  run_updated : RunState → Payload
  other_event : ℕ → Payload

pub record Event : Type 0 where
  pub session_id : String
  pub run_id : Option String
  pub sequence : ℕ
  pub timestamp : ℕ
  pub transient : Bool
  pub payload : Payload

pub record Draft : Type 0 where
  pub run_id : Option String
  pub content : Text
  pub updated_at : ℕ

-- The hub with the tables that stand behind it: the events, the next sequence number of each session
-- and the rows of the other tables. `events` and `resources` are what the listeners were given.
pub record World : Type 0 where
  pub pending : Option (List Event)
  pub pending_resources : Option (List (String × Option String))
  pub streaming : List (String × Draft)
  pub events : List Event
  pub resources : List (String × Option String)
  pub session_events : List Event
  pub next_sequence : List (String × ℕ)
  pub rows : List ℕ
  pub in_transaction : Bool

-- Where a call ends: the state, and the error that it threw.
abbrev pub Ended : Type 0
Ended = World × Option String

-- `withTransaction` of the database.
abbrev pub settle_transaction : World → Ended → Ended
settle_transaction before (w, none) = (record w { in_transaction = false }, none)
settle_transaction before (w, some e) = (
  record w {
    session_events = before.session_events;
    next_sequence = before.next_sequence;
    rows = before.rows;
    in_transaction = false;
  },
  some e,
)

unfoldable pub with_transaction : (World → Ended) → World → Ended
with_transaction operation w =
    if w.in_transaction
    then operation w
    else settle_transaction w (operation (record w { in_transaction = true }))

abbrev pub ends_run : RunState → Bool
ends_run active = false
ends_run completed = true
ends_run failed = true
ends_run cancelled = true
ends_run interrupted = true

abbrev pub same_run : Option String → Option String → Bool
same_run none none = true
same_run (some a) (some b) = eqs a b
same_run _ _ = false

-- The drafts but those of the run.
unfoldable pub without_run : Option String → List (String × Draft) → List (String × Draft)
without_run run_id [] = []
without_run run_id ((id, d) ∷ m) =
    let rest = without_run run_id m in if same_run d.run_id run_id then rest else (id, d) ∷ rest

abbrev pub grown : MessageDelta → Option Draft → List (String × Draft) → List (String × Draft)
grown d none m = m
grown d (some draft) m =
    if d.offset == length draft.content
    then put d.message_id
        (record draft { content = draft.content ++ d.append; updated_at = d.updated_at }) m
    else m

-- The drafts after an event.
unfoldable pub track : Event → Payload → List (String × Draft) → List (String × Draft)
track e (message_started id is_streaming content) m =
    if is_streaming
    then put id (record { run_id = e.run_id; content = content; updated_at = e.timestamp }) m
    else m
track e (message_delta d) m = grown d (get d.message_id m) m
track e (message_completed id) m = delete id m
track e (run_updated state) m = if ends_run state then without_run e.run_id m else m
track e (other_event n) m = m

module _ (react : Event → World → World) where
  -- The drafts, and then the listeners.
  unfoldable pub broadcast : Event → World → World
  broadcast e w =
      react e (record w { streaming = track e e.payload w.streaming; events = w.events ++ e ∷ [] })

  unfoldable pub broadcast_all : List Event → World → World
  broadcast_all [] w = w
  broadcast_all (e ∷ es) w = broadcast_all es (broadcast e w)

abbrev pub broadcast_resources : List (String × Option String) → World → World
broadcast_resources rs w = record w { resources = w.resources ++ rs }

abbrev pub is_open : Option (List Event) → Bool
is_open none = false
is_open (some es) = true

module _ (react : Event → World → World) where
  -- The part of `transaction` behind the operation.
  unfoldable pub settle : Ended → Ended
  unfolding broadcast_all
  settle (w, none) =
      let closed : World = record w { pending = none; pending_resources = none } in
      (
        broadcast_resources (or_else w.pending_resources [])
            (broadcast_all react (or_else w.pending []) closed),
        none,
      )
  settle (w, some e) = (record w { pending = none; pending_resources = none }, some e)

  unfoldable pub transaction : (World → Ended) → World → Ended
  unfolding settle
  transaction operation w =
      if is_open w.pending
      then operation w
      else settle
          (with_transaction operation (record w { pending = some []; pending_resources = some [] }))

-- `appendEvent` of the database, for a session whose next sequence number is `n`.
abbrev pub append_event : String → Option String → ℕ → Payload → ℕ → World → Event × World
append_event session_id run_id now payload n w =
    let e : Event = record {
      session_id = session_id;
      run_id = run_id;
      sequence = n;
      timestamp = now;
      transient = false;
      payload = payload;
    } in
    (
      e,
      record w {
        session_events = w.session_events ++ e ∷ [];
        next_sequence = put session_id (n + 1) w.next_sequence;
      },
    )

-- A session that is not there has no next number.
abbrev pub emit_in :
    Option (List Event) → Option ℕ → String → Option String → ℕ → Payload → World → Ended
emit_in none next session_id run_id now payload w =
    (w, some "Durable events must be emitted inside an EventHub transaction")
emit_in (some es) none session_id run_id now payload w = (w, some "Session not found")
emit_in (some es) (some n) session_id run_id now payload w =
    let r = append_event session_id run_id now payload n w in
    (record r.1 { pending = some (es ++ r.0 ∷ []) }, none)

unfoldable pub emit : String → Option String → ℕ → Payload → World → Ended
emit session_id run_id now payload w =
    emit_in w.pending (get session_id w.next_sequence) session_id run_id now payload w

abbrev pub invalidate_in :
    Option (List (String × Option String)) → String → Option String → World → Ended
invalidate_in none resource owner_id w =
    (w, some "Resource invalidations must be emitted inside an EventHub transaction")
invalidate_in (some m) resource owner_id w =
    (record w { pending_resources = some (put resource owner_id m) }, none)

unfoldable pub invalidate : String → Option String → World → Ended
invalidate resource owner_id w = invalidate_in w.pending_resources resource owner_id w

module _ (react : Event → World → World) where
  -- `emitTransientDelta`, for a delta that fits its schema.
  unfoldable pub emit_transient_delta : String → Option String → ℕ → MessageDelta → World → World
  unfolding broadcast
  emit_transient_delta session_id run_id now d w =
      broadcast react
        (record {
          session_id = session_id;
          run_id = run_id;
          sequence = 0;
          timestamp = now;
          transient = true;
          payload = message_delta d;
        })
        w

abbrev pub overlay_item : Option Draft → TranscriptItem → TranscriptItem
overlay_item none item = item
overlay_item (some d) item = record item { content = d.content; updated_at = d.updated_at }

-- `overlaySnapshot`, on the transcript.
unfoldable pub overlay : World → List TranscriptItem → List TranscriptItem
overlay w items = map (λ (item : TranscriptItem). overlay_item (get item.id w.streaming) item) items
