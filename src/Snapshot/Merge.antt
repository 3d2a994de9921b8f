-- ===== src/Snapshot/Merge.antt =====
-- How lists of the same session are merged: apps/web/src/streaming.ts.
use uma_agent.JsMap.{get, put, values}
use uma_agent.Snapshot.{
  Status, is_streaming, Attachment, Activity, Response, TranscriptItem, Run, Session, History,
  SessionSnapshot,
}
use uma_agent.Base.{
  ℕ, ◌==◌, String, Bool, true, false, not, ◌&&◌, ◌||◌, List, [], ◌∷◌, ◌++◌, Option, none, some, map,
  leb, ltb, if◌then◌else◌, eqs, any, length, or_else, first_of_two, sort_by,
}

-- `{ ...value, ...item }`: a field that the item leaves out keeps its value.
abbrev pub merged_item : TranscriptItem → TranscriptItem → TranscriptItem
merged_item value item = record item {
  name = first_of_two item.name value.name;
  run_id = first_of_two item.run_id value.run_id;
  parent_message_id = first_of_two item.parent_message_id value.parent_message_id;
}

abbrev pub sequence_of : TranscriptItem → ℕ
sequence_of item = item.sequence

unfoldable pub merge_transcript_item : List TranscriptItem → TranscriptItem → List TranscriptItem
merge_transcript_item items item =
    if any (λ value. eqs value.id item.id) items
    then map
        (λ (value : TranscriptItem). if eqs value.id item.id then merged_item value item else value)
        items
    else sort_by sequence_of (items ++ item ∷ [])

-- What `message.completed` and `tool.completed` say of a message without its item.
pub record Summary : Type 0 where
  pub message_id : Option String
  pub status : Option Status
  pub updated_at : Option ℕ

abbrev pub summarized : Summary → TranscriptItem → TranscriptItem
summarized p item = record item {
  status = or_else p.status item.status;
  updated_at = or_else p.updated_at item.updated_at;
}

-- A text that is there and not empty.
abbrev pub present : Option String → Option String
present none = none
present (some t) = if eqs t "" then none else some t

abbrev pub update_with : Summary → Option String → List TranscriptItem → List TranscriptItem
update_with p none items = items
update_with p (some id) items =
    map (λ (item : TranscriptItem). if eqs item.id id then summarized p item else item) items

unfoldable pub update_transcript_summary : List TranscriptItem → Summary → List TranscriptItem
update_transcript_summary items p = update_with p (present p.message_id) items

abbrev pub run_created : Run → ℕ
run_created run = run.created_at

unfoldable pub merge_run : List Run → Run → List Run
merge_run runs run = sort_by run_created (
    if any (λ value. eqs value.id run.id) runs
    then map (λ (value : Run). if eqs value.id run.id then run else value) runs
    else runs ++ run ∷ [])

abbrev pub response_created : Response → ℕ
response_created response = response.created_at

abbrev pub activity_created : Activity → ℕ
activity_created activity = activity.created_at

-- `new Map([...].map((item) => [item.id, item]))`.
unfoldable pub by_activity : List Activity → List (String × Activity) → List (String × Activity)
by_activity [] m = m
by_activity (a ∷ as') m = by_activity as' (put a.id a m)

unfoldable pub by_attachment :
    List Attachment → List (String × Attachment) → List (String × Attachment)
by_attachment [] m = m
by_attachment (a ∷ as') m = by_attachment as' (put a.id a m)

abbrev pub merged_response : Response → Response → Response
merged_response current response = record response {
  activities =
      sort_by activity_created
        (values (by_activity (current.activities ++ response.activities) []));
  attachments = values (by_attachment (current.attachments ++ response.attachments) []);
}

abbrev pub find_run : String → List Response → Option Response
find_run id [] = none
find_run id (r ∷ rs) = if eqs r.run_id id then some r else find_run id rs

abbrev pub merge_found : Option Response → List Response → Response → List Response
merge_found none responses response = sort_by response_created (responses ++ response ∷ [])
merge_found (some current) responses response =
    if ltb response.updated_at current.updated_at
    then responses
    else sort_by response_created (
        map
          (λ (value : Response).
            if eqs value.run_id response.run_id then merged_response current response else value)
          responses)

unfoldable pub merge_response : List Response → Response → List Response
merge_response responses response =
    merge_found (find_run response.run_id responses) responses response

abbrev pub first_or : Response → List Response → Response
first_or d [] = d
first_or d (r ∷ rs) = r

abbrev pub join_response :
    Option Response → Response → List (String × Response) → List (String × Response)
join_response none response m = put response.run_id response m
join_response (some previous) response m =
    if leb previous.updated_at response.updated_at
    then put response.run_id (first_or response (merge_response (previous ∷ []) response)) m
    else m

unfoldable pub by_run_id : List Response → List (String × Response) → List (String × Response)
by_run_id [] m = m
by_run_id (r ∷ rs) m = by_run_id rs (join_response (get r.run_id m) r m)

unfoldable pub merge_response_lists : List Response → List Response → List Response
unfolding by_run_id
merge_response_lists current incoming =
    sort_by response_created (values (by_run_id (current ++ incoming) []))

abbrev pub same_id : Option String → Option String → Bool
same_id none none = true
same_id (some a) (some b) = eqs a b
same_id _ _ = false

abbrev pub same_number : Option ℕ → Option ℕ → Bool
same_number none none = true
same_number (some a) (some b) = a == b
same_number _ _ = false

unfoldable pub index_items :
    List TranscriptItem → List (String × TranscriptItem) → List (String × TranscriptItem)
index_items [] m = m
index_items (item ∷ items) m = index_items items (put item.id item m)

-- The item that is kept of the one that is there and the one that comes.
abbrev pub newer_item : Option TranscriptItem → TranscriptItem → TranscriptItem
newer_item none item = item
newer_item (some previous) item =
    if is_streaming previous.status
      && is_streaming item.status
      && ltb (length item.content) (length previous.content)
    then previous
    else item

unfoldable pub merge_items :
    List TranscriptItem → List (String × TranscriptItem) → List (String × TranscriptItem)
merge_items [] m = m
merge_items (item ∷ items) m = merge_items items (put item.id (newer_item (get item.id m) item) m)

unfoldable pub index_runs : List Run → List (String × Run) → List (String × Run)
index_runs [] m = m
index_runs (run ∷ runs) m = index_runs runs (put run.id run m)

abbrev pub join_run : Option Run → Run → List (String × Run) → List (String × Run)
join_run none run m = put run.id run m
join_run (some previous) run m =
    if leb previous.updated_at run.updated_at then put run.id run m else m

unfoldable pub merge_runs : List Run → List (String × Run) → List (String × Run)
merge_runs [] m = m
merge_runs (run ∷ runs) m = merge_runs runs (join_run (get run.id m) run m)

abbrev pub same_branch : Session → Session → Bool
same_branch a b =
    same_id a.active_branch_id b.active_branch_id && same_number a.branch_revision b.branch_revision

abbrev pub older_history : History → History → History
older_history current incoming =
    if ltb 0 current.oldest_message_sequence
      && leb current.oldest_message_sequence incoming.oldest_message_sequence
    then current
    else incoming

abbrev pub union_snapshot : SessionSnapshot → SessionSnapshot → SessionSnapshot
union_snapshot current incoming = record incoming {
  transcript =
      sort_by sequence_of
        (values (merge_items incoming.transcript (index_items current.transcript [])));
  recent_runs =
      sort_by run_created
        (values (merge_runs incoming.recent_runs (index_runs current.recent_runs [])));
  responses =
      some (merge_response_lists (or_else current.responses []) (or_else incoming.responses []));
  history = older_history current.history incoming.history;
}

-- `mergeSessionSnapshot`, where the session has a snapshot.
unfoldable pub merge_session_snapshot : SessionSnapshot → SessionSnapshot → SessionSnapshot
merge_session_snapshot current incoming =
    if ltb incoming.snapshot_sequence current.snapshot_sequence
    then current
    else if not (same_branch current.session incoming.session)
    then incoming
    else union_snapshot current incoming

pub record SessionHistoryPage : Type 0 where
  pub session_id : String
  pub items : List TranscriptItem
  pub responses : List Response
  pub runs : List Run
  pub active_branch_id : Option String
  pub branch_revision : ℕ
  pub oldest_sequence : ℕ
  pub has_more : Bool

unfoldable pub merge_session_history_page : SessionSnapshot → SessionHistoryPage → SessionSnapshot
merge_session_history_page current page =
    if not (eqs current.session.id page.session_id)
      || not (same_id current.session.active_branch_id page.active_branch_id)
      || not (or_else current.session.branch_revision 0 == page.branch_revision)
    then current
    else record current {
      transcript =
          sort_by sequence_of (values (index_items current.transcript (index_items page.items [])));
      recent_runs =
          sort_by run_created (values (merge_runs current.recent_runs (index_runs page.runs [])));
      responses = some (merge_response_lists page.responses (or_else current.responses []));
      history = record {
        oldest_message_sequence = page.oldest_sequence;
        has_more_before = page.has_more;
      };
    }
