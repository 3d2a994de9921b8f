-- ===== src/Snapshot/Events.antt =====
-- The events of a session, applied to a snapshot: `applyDurableEvent` of apps/web/src/streaming.ts.
use uma_agent.Snapshot.{Attachment, Activity, Response, TranscriptItem, Run, SessionSnapshot}
use uma_agent.Snapshot.Merge.{
  Summary, present, merge_transcript_item, update_transcript_summary, merge_run, merge_response,
  activity_created,
}
use uma_agent.Base.{
  ℕ, String, Bool, true, false, not, List, [], ◌∷◌, ◌++◌, Option, none, some, map, leb,
  if◌then◌else◌, eqs, or_else, select, sort_by, max,
}

-- The payloads, by the type of the event and the shape of its payload.
pub data Payload : Type 0 where
  session_snapshot : Payload
  message_started : TranscriptItem → Payload
  message_completed : TranscriptItem → Payload
  message_summary : Summary → Payload
  tool_started : Option TranscriptItem → Payload
  tool_completed : TranscriptItem → Payload
  tool_summary : Summary → Payload
  run_updated : Run → Payload
  response_changed : Response → Payload
  response_activity : Option String → Option Activity → Payload
  response_attachment : Option String → Option Attachment → Payload
  plan_updated : Option String → List ℕ → Payload
  other_event : Payload

pub record Event : Type 0 where
  pub sequence : ℕ
  pub payload : Payload

abbrev pub with_activity : Activity → Response → Response
with_activity a r = record r {
  activities = sort_by activity_created (select (λ b. not (eqs b.id a.id)) r.activities ++ a ∷ []);
  updated_at = max r.updated_at a.created_at;
}

abbrev pub with_attachment : Attachment → Response → Response
with_attachment a r = record r {
  attachments = select (λ b. not (eqs b.id a.id)) r.attachments ++ a ∷ [];
}

abbrev pub on_response : String → (Response → Response) → SessionSnapshot → SessionSnapshot
on_response id f s = record s {
  responses =
      some (map (λ (r : Response). if eqs r.id id then f r else r) (or_else s.responses []));
}

abbrev pub merge_started : Option TranscriptItem → SessionSnapshot → SessionSnapshot
merge_started none s = s
merge_started (some item) s = record s { transcript = merge_transcript_item s.transcript item }

abbrev pub add_activity : Option String → Option Activity → SessionSnapshot → SessionSnapshot
add_activity (some id) (some a) s = on_response id (with_activity a) s
add_activity _ _ s = s

abbrev pub add_attachment : Option String → Option Attachment → SessionSnapshot → SessionSnapshot
add_attachment (some id) (some a) s = on_response id (with_attachment a) s
add_attachment _ _ s = s

abbrev pub set_plan : Option String → List ℕ → SessionSnapshot → SessionSnapshot
set_plan none plan s = s
set_plan (some id) plan s = record s {
  recent_runs =
      map (λ (run : Run). if eqs run.id id then record run { plan = plan } else run) s.recent_runs;
}

-- The cases of the switch, on the snapshot with the new cursor.
unfoldable pub apply_payload : Payload → SessionSnapshot → SessionSnapshot
apply_payload session_snapshot s = s
apply_payload (message_started item) s = record s {
  transcript = merge_transcript_item s.transcript item;
}
apply_payload (message_completed item) s = record s {
  transcript = merge_transcript_item s.transcript item;
}
apply_payload (message_summary p) s = record s {
  transcript = update_transcript_summary s.transcript p;
}
apply_payload (tool_started item) s = merge_started item s
apply_payload (tool_completed item) s = record s {
  transcript = merge_transcript_item s.transcript item;
}
apply_payload (tool_summary p) s = record s {
  transcript = update_transcript_summary s.transcript p;
}
apply_payload (run_updated run) s = record s { recent_runs = merge_run s.recent_runs run }
apply_payload (response_changed r) s = record s {
  responses = some (merge_response (or_else s.responses []) r);
}
apply_payload (response_activity id a) s = add_activity (present id) a s
apply_payload (response_attachment id a) s = add_attachment (present id) a s
apply_payload (plan_updated id plan) s = set_plan (present id) plan s
apply_payload other_event s = s

abbrev pub is_snapshot : Payload → Bool
is_snapshot session_snapshot = true
is_snapshot _ = false

-- `applyDurableEvent`, where the session has a snapshot.
unfoldable pub apply_durable_event : Event → SessionSnapshot → SessionSnapshot
apply_durable_event e s =
    if is_snapshot e.payload
    then s
    else if leb e.sequence s.snapshot_sequence
    then s
    else apply_payload e.payload
        (record s { snapshot_sequence = max s.snapshot_sequence e.sequence })
