-- ===== src/Snapshot/Ids.antt =====
-- Every message stands once in a client's transcript.
use uma_agent.Base.{
  ℕ, ◌+◌, ◌≤◌, String, ◌≡◌, refl, sym, subst, false, not, List, [], ◌∷◌, ◌++◌, Option, none, some,
  map, leb, ltb, any, if◌then◌else◌, arith, Bool-cases, inl, inr, max, eqs, insert_by, sort_by,
}
use uma_agent.JsMap.{get, put, values}
use uma_agent.Snapshot.{
  SessionSnapshot, MessageDelta, Activity, Attachment, TranscriptItem, apply_streaming_event,
  stream_first, stream_item,
}
use uma_agent.Snapshot.Merge.{
  SessionHistoryPage, Summary, sequence_of, merged_item, summarized, merge_transcript_item,
  update_transcript_summary, update_with, present, index_items, newer_item, merge_items,
  same_branch, merge_session_snapshot, merge_session_history_page,
}
use uma_agent.Snapshot.Events.{
  Event, Payload, session_snapshot, message_started, message_completed, message_summary,
  tool_started, tool_completed, tool_summary, run_updated, response_changed, response_activity,
  response_attachment, plan_updated, other_event, apply_payload, is_snapshot, apply_durable_event,
  add_activity, add_attachment, set_plan,
}
use uma_agent.Snapshot.Cursor.{Delivery, event, delta, snapshot, page, deliver, deliver_all}

-- How often a message stands in a transcript.
unfoldable pub times : String → List TranscriptItem → ℕ
times id [] = 0
times id (item ∷ items) = let rest = times id items in if eqs item.id id then rest + 1 else rest

abbrev pub HasDistinctIds : List TranscriptItem → Type 0
HasDistinctIds items = (id : String) → times id items ≤ 1

times-map :
    (f : TranscriptItem → TranscriptItem) (id : String) (items : List TranscriptItem)
    → ((item : TranscriptItem) → (f item).id ≡ item.id)
    → times id (map f items) ≡ times id items
unfolding times
times-map f id [] h = refl
times-map f id (item ∷ items) h = let ih = times-map f id items h in rw ih (rw (h item) refl)

times-append :
    (id : String) (xs ys : List TranscriptItem) → times id (xs ++ ys) ≡ times id xs + times id ys
unfolding times
times-append id [] ys = omega arith
times-append id (x ∷ xs) ys = ground (arith, times-append id xs ys)

times-insert_by :
    (id : String) (x : TranscriptItem) (ys : List TranscriptItem)
    → times id (insert_by sequence_of x ys) ≡ times id (x ∷ ys)
unfolding times
times-insert_by id x [] = refl
times-insert_by id x (y ∷ ys) = ground (arith, times-insert_by id x ys)

times-sort_by :
    (id : String) (xs : List TranscriptItem) → times id (sort_by sequence_of xs) ≡ times id xs
unfolding times
times-sort_by id [] = refl
times-sort_by id (x ∷ xs) =
    ground (arith, times-insert_by id x (sort_by sequence_of xs), times-sort_by id xs)

times-absent :
    (id : String) (items : List TranscriptItem)
    → any (λ (value : TranscriptItem). eqs value.id id) items ≡ false
    → times id items ≡ 0
unfolding times
times-absent id [] h = refl
times-absent id (item ∷ items) h = ground (arith, h, times-absent id items)

merge_transcript_item-HasDistinctIds :
    (items : List TranscriptItem) (item : TranscriptItem)
    → HasDistinctIds items
    → HasDistinctIds (merge_transcript_item items item)
unfolding merge_transcript_item times
merge_transcript_item-HasDistinctIds items item h id =
    elim (Bool-cases (any (λ (value : TranscriptItem). eqs value.id item.id) items)) [
      | inl there ↦
          let f : TranscriptItem → TranscriptItem =
            λ value. if eqs value.id item.id then merged_item value item else value in
          rw there (omega (arith, h id, times-map f id items (λ value. ground arith)))
      | inr absent ↦ rw absent (
          ground (
            arith,
            times-sort_by id (items ++ item ∷ []),
            times-append id items (item ∷ []),
            h id,
            times-absent item.id items absent,
          ))
    ]

update_with-HasDistinctIds :
    (p : Summary) (o : Option String) (items : List TranscriptItem)
    → HasDistinctIds items
    → HasDistinctIds (update_with p o items)
update_with-HasDistinctIds p none items h id = h id
update_with-HasDistinctIds p (some k) items h id =
    let f : TranscriptItem → TranscriptItem =
      λ item. if eqs item.id k then summarized p item else item in
    omega (arith, h id, times-map f id items (λ item. ground arith))

stream_item-id : (d : MessageDelta) (item : TranscriptItem) → (stream_item d item).id ≡ item.id
unfolding stream_item
stream_item-id d item = ground arith

times-stream_first :
    (id : String) (d : MessageDelta) (items : List TranscriptItem)
    → times id (stream_first d items) ≡ times id items
unfolding times stream_first
times-stream_first id d [] = refl
times-stream_first id d (item ∷ items) =
    ground (arith, times-stream_first id d items, stream_item-id d item)

-- Every value of the map has its key as its id.
abbrev IsKeyed : List (String × TranscriptItem) → Type 0
IsKeyed [] = Unit {0}
IsKeyed ((k, v) ∷ m) = (v.id ≡ k) × IsKeyed m

put-IsKeyed :
    (k : String) (v : TranscriptItem) (m : List (String × TranscriptItem))
    → v.id ≡ k
    → IsKeyed m
    → IsKeyed (put k v m)
unfolding put
put-IsKeyed k v [] e h = (e, tt)
put-IsKeyed k v ((j, w) ∷ m) e h = ground (arith, e, h, put-IsKeyed k v m e h.1)

get-IsKeyed :
    (k : String) (v : TranscriptItem) (m : List (String × TranscriptItem))
    → IsKeyed m
    → get k m ≡ some v
    → v.id ≡ k
unfolding get
get-IsKeyed k v [] h e = cc e
get-IsKeyed k v ((j, w) ∷ m) h e = ground (arith, h, e, get-IsKeyed k v m h.1)

times-put :
    (id k : String) (v : TranscriptItem) (m : List (String × TranscriptItem))
    → v.id ≡ k
    → IsKeyed m
    → times id (values (put k v m)) ≤ max (times id (values m)) (if eqs k id then 1 else 0)
unfolding times put values
times-put id k v [] e h = ground arith
times-put id k v ((j, w) ∷ m) e h = ground (arith, e, h.0, times-put id k v m e h.1)

-- A map of messages by their ids, each once.
record IsIndex (m : List (String × TranscriptItem)) : Type 0 where
  keyed : IsKeyed m
  once : HasDistinctIds (values m)

put-IsIndex :
    (k : String) (v : TranscriptItem) (m : List (String × TranscriptItem))
    → v.id ≡ k
    → IsIndex m
    → IsIndex (put k v m)
put-IsIndex k v m e h = record {
  keyed = put-IsKeyed k v m e h.keyed;
  once = λ id. ground (arith, times-put id k v m e h.keyed, h.once id);
}

index_items-IsIndex :
    (items : List TranscriptItem) (m : List (String × TranscriptItem))
    → IsIndex m
    → IsIndex (index_items items m)
unfolding index_items
index_items-IsIndex [] m h = h
index_items-IsIndex (item ∷ items) m h =
    index_items-IsIndex items (put item.id item m) (put-IsIndex item.id item m refl h)

newer_item-id :
    (o : Option TranscriptItem) (item : TranscriptItem)
    → ((v : TranscriptItem) → o ≡ some v → v.id ≡ item.id)
    → (newer_item o item).id ≡ item.id
newer_item-id none item h = refl
newer_item-id (some v) item h = ground (arith, h v refl)

merge_items-IsIndex :
    (items : List TranscriptItem) (m : List (String × TranscriptItem))
    → IsIndex m
    → IsIndex (merge_items items m)
unfolding merge_items
merge_items-IsIndex [] m h = h
merge_items-IsIndex (item ∷ items) m h =
    let kept = newer_item (get item.id m) item in
    let its = newer_item-id (get item.id m) item (λ v e. get-IsKeyed item.id v m h.keyed e) in
    merge_items-IsIndex items (put item.id kept m) (put-IsIndex item.id kept m its h)

empty-IsIndex : IsIndex []
unfolding times values
empty-IsIndex = record { keyed = tt; once = λ id. omega arith }

sorted-HasDistinctIds :
    (m : List (String × TranscriptItem))
    → IsIndex m
    → HasDistinctIds (sort_by sequence_of (values m))
sorted-HasDistinctIds m h id = omega (arith, times-sort_by id (values m), h.once id)

activity-transcript :
    (id : Option String) (a : Option Activity) (s : SessionSnapshot)
    → (add_activity id a s).transcript ≡ s.transcript
activity-transcript none a s = refl
activity-transcript (some i) none s = refl
activity-transcript (some i) (some a) s = refl

attachment-transcript :
    (id : Option String) (a : Option Attachment) (s : SessionSnapshot)
    → (add_attachment id a s).transcript ≡ s.transcript
attachment-transcript none a s = refl
attachment-transcript (some i) none s = refl
attachment-transcript (some i) (some a) s = refl

plan-transcript :
    (id : Option String) (p : List ℕ) (s : SessionSnapshot)
    → (set_plan id p s).transcript ≡ s.transcript
plan-transcript none p s = refl
plan-transcript (some i) p s = refl

payload-HasDistinctIds :
    (p : Payload) (s : SessionSnapshot)
    → HasDistinctIds s.transcript
    → HasDistinctIds (apply_payload p s).transcript
unfolding apply_payload update_transcript_summary
payload-HasDistinctIds session_snapshot s h = h
payload-HasDistinctIds (message_started item) s h =
    merge_transcript_item-HasDistinctIds s.transcript item h
payload-HasDistinctIds (message_completed item) s h =
    merge_transcript_item-HasDistinctIds s.transcript item h
payload-HasDistinctIds (message_summary p) s h =
    update_with-HasDistinctIds p (present p.message_id) s.transcript h
payload-HasDistinctIds (tool_started none) s h = h
payload-HasDistinctIds (tool_started (some item)) s h =
    merge_transcript_item-HasDistinctIds s.transcript item h
payload-HasDistinctIds (tool_completed item) s h =
    merge_transcript_item-HasDistinctIds s.transcript item h
payload-HasDistinctIds (tool_summary p) s h =
    update_with-HasDistinctIds p (present p.message_id) s.transcript h
payload-HasDistinctIds (run_updated run) s h = h
payload-HasDistinctIds (response_changed r) s h = h
payload-HasDistinctIds (response_activity id a) s h =
    subst HasDistinctIds (sym (activity-transcript (present id) a s)) h
payload-HasDistinctIds (response_attachment id a) s h =
    subst HasDistinctIds (sym (attachment-transcript (present id) a s)) h
payload-HasDistinctIds (plan_updated id p) s h =
    subst HasDistinctIds (sym (plan-transcript (present id) p s)) h
payload-HasDistinctIds other_event s h = h

event-HasDistinctIds :
    (e : Event) (s : SessionSnapshot)
    → HasDistinctIds s.transcript
    → HasDistinctIds (apply_durable_event e s).transcript
unfolding apply_durable_event
event-HasDistinctIds e s h =
    let next : SessionSnapshot = record s {
      snapshot_sequence = max s.snapshot_sequence e.sequence;
    } in
    elim (Bool-cases (is_snapshot e.payload)) [
      | inl whole ↦ rw whole h
      | inr part ↦ rw part (elim (Bool-cases (leb e.sequence s.snapshot_sequence)) [
        | inl late ↦ rw late h
        | inr new ↦ rw new (payload-HasDistinctIds e.payload next h)
      ])
    ]

-- The snapshots among the deliveries name every message once.
abbrev pub SnapshotsDistinct : List Delivery → Type 0
SnapshotsDistinct [] = Unit {0}
SnapshotsDistinct (snapshot i ∷ ds) = HasDistinctIds i.transcript × SnapshotsDistinct ds
SnapshotsDistinct (event e ∷ ds) = SnapshotsDistinct ds
SnapshotsDistinct (delta d ∷ ds) = SnapshotsDistinct ds
SnapshotsDistinct (page p ∷ ds) = SnapshotsDistinct ds

snapshot-HasDistinctIds :
    (s i : SessionSnapshot)
    → HasDistinctIds s.transcript
    → HasDistinctIds i.transcript
    → HasDistinctIds (merge_session_snapshot s i).transcript
unfolding merge_session_snapshot
snapshot-HasDistinctIds s i h k = elim (Bool-cases (ltb i.snapshot_sequence s.snapshot_sequence)) [
  | inl stale ↦ rw stale h
  | inr fresh ↦ rw fresh (elim (Bool-cases (not (same_branch s.session i.session))) [
    | inl other ↦ rw other k
    | inr same_one ↦ rw same_one (
        sorted-HasDistinctIds (merge_items i.transcript (index_items s.transcript [])) (
          merge_items-IsIndex i.transcript (index_items s.transcript [])
            (index_items-IsIndex s.transcript [] empty-IsIndex)))
  ])
]

page-HasDistinctIds :
    (s : SessionSnapshot) (p : SessionHistoryPage)
    → HasDistinctIds s.transcript
    → HasDistinctIds (merge_session_history_page s p).transcript
unfolding merge_session_history_page
page-HasDistinctIds s p h =
    let index = index_items s.transcript (index_items p.items []) in
    let merged = sorted-HasDistinctIds index (
      index_items-IsIndex s.transcript (index_items p.items [])
        (index_items-IsIndex p.items [] empty-IsIndex)) in
    λ id. ground (arith, h id, merged id)

-- If the snapshots that are received name every message once, then after any events, pieces of text,
-- snapshots and pages, in any order and with repetitions, no message stands twice in the transcript
-- of the client.
pub deliver_all-HasDistinctIds :
    (ds : List Delivery) (s : SessionSnapshot)
    → SnapshotsDistinct ds
    → HasDistinctIds s.transcript
    → HasDistinctIds (deliver_all ds s).transcript
unfolding deliver_all deliver apply_streaming_event
deliver_all-HasDistinctIds [] s k h = h
deliver_all-HasDistinctIds (event e ∷ ds) s k h =
    deliver_all-HasDistinctIds ds (apply_durable_event e s) k (event-HasDistinctIds e s h)
deliver_all-HasDistinctIds (delta d ∷ ds) s k h =
    deliver_all-HasDistinctIds ds (apply_streaming_event d s) k
      (λ id. omega (arith, times-stream_first id d s.transcript, h id))
deliver_all-HasDistinctIds (snapshot i ∷ ds) s k h =
    deliver_all-HasDistinctIds ds (merge_session_snapshot s i) k.1
      (snapshot-HasDistinctIds s i h k.0)
deliver_all-HasDistinctIds (page p ∷ ds) s k h =
    deliver_all-HasDistinctIds ds (merge_session_history_page s p) k (page-HasDistinctIds s p h)
