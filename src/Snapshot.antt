-- ===== src/Snapshot.antt =====
-- The client's picture of a session, and how events, snapshots and pages of history change it:
-- apps/web/src/streaming.ts, with the data of packages/protocol/src/index.ts. Fields that this code
-- only passes on are left out or kept as one value (`other`). Texts are lists of UTF-16 code units.
pub mod Merge
pub mod Events
pub mod Prefix
pub mod Cursor
pub mod Ids
pub mod Tests
use uma_agent.Base.{
  ℕ, ◌-◌, String, Bool, true, false, List, [], ◌∷◌, ◌++◌, Option, none, some, leb, ◌&&◌,
  if◌then◌else◌, eqs, length, drop, max,
}

abbrev pub Text : Type 0
Text = List ℕ

pub data Status : Type 0 where
  streaming complete error cancelled : Status

pub record Attachment : Type 0 where
  pub id : String
  pub name : String
  pub other : ℕ

pub record Activity : Type 0 where
  pub id : String
  pub created_at : ℕ
  pub other : ℕ

pub record Response : Type 0 where
  pub id : String
  pub run_id : String
  pub content : Text
  pub activities : List Activity
  pub attachments : List Attachment
  pub created_at : ℕ
  pub updated_at : ℕ

pub record TranscriptItem : Type 0 where
  pub id : String
  pub sequence : ℕ
  pub status : Status
  pub content : Text
  pub name : Option String
  pub run_id : Option String
  pub parent_message_id : Option String
  pub attachments : List Attachment
  pub created_at : ℕ
  pub updated_at : ℕ

pub record Run : Type 0 where
  pub id : String
  pub plan : List ℕ
  pub created_at : ℕ
  pub updated_at : ℕ
  pub other : ℕ

pub record Session : Type 0 where
  pub id : String
  pub active_branch_id : Option String
  pub branch_revision : Option ℕ

pub record History : Type 0 where
  pub oldest_message_sequence : ℕ
  pub has_more_before : Bool

pub record SessionSnapshot : Type 0 where
  pub session : Session
  pub transcript : List TranscriptItem
  pub recent_runs : List Run
  pub snapshot_sequence : ℕ
  pub history : History
  pub responses : Option (List Response)
  pub other : ℕ

pub record MessageDelta : Type 0 where
  pub message_id : String
  pub append : Text
  pub offset : ℕ
  pub updated_at : ℕ

abbrev pub is_streaming : Status → Bool
is_streaming streaming = true
is_streaming complete = false
is_streaming error = false
is_streaming cancelled = false

abbrev pub extended : TranscriptItem → Text → ℕ → TranscriptItem
extended item [] at = item
extended item (c ∷ suffix) at = record item {
  content = item.content ++ c ∷ suffix;
  updated_at = max item.updated_at at;
}

-- The item of the delta, with the part of the delta that is new; an offset is a natural number.
unfoldable pub stream_item : MessageDelta → TranscriptItem → TranscriptItem
stream_item d item =
    if is_streaming item.status && leb d.offset (length item.content)
    then extended item (drop (length item.content - d.offset) d.append) d.updated_at
    else item

-- The first item with the delta's id.
unfoldable pub stream_first : MessageDelta → List TranscriptItem → List TranscriptItem
stream_first d [] = []
stream_first d (item ∷ items) =
    let rest = stream_first d items in
    if eqs item.id d.message_id then stream_item d item ∷ items else item ∷ rest

-- `applyStreamingEvent`, where the session has a snapshot.
unfoldable pub apply_streaming_event : MessageDelta → SessionSnapshot → SessionSnapshot
unfolding stream_first
apply_streaming_event d s = record s { transcript = stream_first d s.transcript }
