-- ===== src/Snapshot/Cursor.antt =====
-- What reaches a client in any order, and the cursor that keeps late events out.
use uma_agent.Base.{
  ℕ, ◌≤◌, String, ◌≡◌, refl, List, [], ◌∷◌, Option, none, some, if◌then◌else◌, arith, inl, inr, ◌⊎◌,
  max,
}
use uma_agent.Snapshot.{SessionSnapshot, MessageDelta, Activity, Attachment, apply_streaming_event}
use uma_agent.Snapshot.Merge.{
  SessionHistoryPage, merge_session_snapshot, merge_session_history_page, present,
}
use uma_agent.Snapshot.Events.{
  Event, Payload, session_snapshot, message_started, message_completed, message_summary,
  tool_started, tool_completed, tool_summary, run_updated, response_changed, response_activity,
  response_attachment, plan_updated, other_event, apply_payload, is_snapshot, apply_durable_event,
  set_plan, add_activity, add_attachment,
}

-- What a client receives: an event, a piece of a text, a snapshot or a page of older messages.
pub data Delivery : Type 0 where
  event : Event → Delivery
  delta : MessageDelta → Delivery
  snapshot : SessionSnapshot → Delivery
  page : SessionHistoryPage → Delivery

unfoldable pub deliver : Delivery → SessionSnapshot → SessionSnapshot
deliver (event e) s = apply_durable_event e s
deliver (delta d) s = apply_streaming_event d s
deliver (snapshot i) s = merge_session_snapshot s i
deliver (page p) s = merge_session_history_page s p

unfoldable pub deliver_all : List Delivery → SessionSnapshot → SessionSnapshot
unfolding deliver
deliver_all [] s = s
deliver_all (d ∷ ds) s = deliver_all ds (deliver d s)

-- The sequence number up to which the delivery tells of the session.
abbrev pub reaches : Delivery → ℕ
reaches (event e) = if is_snapshot e.payload then 0 else e.sequence
reaches (delta d) = 0
reaches (snapshot i) = i.snapshot_sequence
reaches (page p) = 0

activity-cursor :
    (id : Option String) (a : Option Activity) (s : SessionSnapshot)
    → (add_activity id a s).snapshot_sequence ≡ s.snapshot_sequence
activity-cursor none a s = refl
activity-cursor (some i) none s = refl
activity-cursor (some i) (some a) s = refl

attachment-cursor :
    (id : Option String) (a : Option Attachment) (s : SessionSnapshot)
    → (add_attachment id a s).snapshot_sequence ≡ s.snapshot_sequence
attachment-cursor none a s = refl
attachment-cursor (some i) none s = refl
attachment-cursor (some i) (some a) s = refl

plan-cursor :
    (id : Option String) (p : List ℕ) (s : SessionSnapshot)
    → (set_plan id p s).snapshot_sequence ≡ s.snapshot_sequence
plan-cursor none p s = refl
plan-cursor (some i) p s = refl

payload-cursor :
    (p : Payload) (s : SessionSnapshot)
    → (apply_payload p s).snapshot_sequence ≡ s.snapshot_sequence
unfolding apply_payload
payload-cursor session_snapshot s = refl
payload-cursor (message_started item) s = refl
payload-cursor (message_completed item) s = refl
payload-cursor (message_summary p) s = refl
payload-cursor (tool_started none) s = refl
payload-cursor (tool_started (some item)) s = refl
payload-cursor (tool_completed item) s = refl
payload-cursor (tool_summary p) s = refl
payload-cursor (run_updated run) s = refl
payload-cursor (response_changed r) s = refl
payload-cursor (response_activity id a) s = activity-cursor (present id) a s
payload-cursor (response_attachment id a) s = attachment-cursor (present id) a s
payload-cursor (plan_updated id p) s = plan-cursor (present id) p s
payload-cursor other_event s = refl

event-cursor :
    (e : Event) (s : SessionSnapshot)
    → (apply_durable_event e s).snapshot_sequence ≡ max s.snapshot_sequence (reaches (event e))
unfolding apply_durable_event
event-cursor e s =
    let next : SessionSnapshot = record s {
      snapshot_sequence = max s.snapshot_sequence e.sequence;
    } in
    ground (arith, payload-cursor e.payload next)

-- The cursor of a client is the highest sequence number of what it has received, whatever the order:
-- it never falls.
pub deliver-cursor :
    (d : Delivery) (s : SessionSnapshot)
    → (deliver d s).snapshot_sequence ≡ max s.snapshot_sequence (reaches d)
unfolding deliver apply_streaming_event merge_session_snapshot merge_session_history_page
deliver-cursor (event e) s = event-cursor e s
deliver-cursor (delta d) s = omega arith
deliver-cursor (snapshot i) s = ground arith
deliver-cursor (page p) s = ground arith

deliver_all-grows :
    (ds : List Delivery) (s : SessionSnapshot)
    → s.snapshot_sequence ≤ (deliver_all ds s).snapshot_sequence
unfolding deliver_all
deliver_all-grows [] s = omega arith
deliver_all-grows (d ∷ ds) s = omega (arith, deliver-cursor d s, deliver_all-grows ds (deliver d s))

-- One of the deliveries tells of the session up to `n`.
abbrev pub Told : ℕ → List Delivery → Type 0
Told n [] = ⊥
Told n (d ∷ ds) = (n ≤ reaches d) ⊎ Told n ds

Told-cursor :
    (n : ℕ) (ds : List Delivery) (s : SessionSnapshot)
    → Told n ds
    → n ≤ (deliver_all ds s).snapshot_sequence
unfolding deliver_all
Told-cursor n [] s t = absurd t
Told-cursor n (d ∷ ds) s (inl h) =
    omega (arith, deliver-cursor d s, deliver_all-grows ds (deliver d s), h)
Told-cursor n (d ∷ ds) s (inr t) = Told-cursor n ds (deliver d s) t

old_event :
    (e : Event) (s : SessionSnapshot)
    → e.sequence ≤ s.snapshot_sequence
    → apply_durable_event e s ≡ s
unfolding apply_durable_event
old_event e s h = ground (arith, h)

-- An event that reaches a client after anything that told of the session as far, be it the event
-- itself, a later one or a snapshot, changes nothing, whatever the client has received besides.
pub late_event_ignored :
    (e : Event) (ds : List Delivery) (s : SessionSnapshot)
    → Told e.sequence ds
    → deliver (event e) (deliver_all ds s) ≡ deliver_all ds s
unfolding deliver
late_event_ignored e ds s t = old_event e (deliver_all ds s) (Told-cursor e.sequence ds s t)
