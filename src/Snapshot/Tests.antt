-- ===== src/Snapshot/Tests.antt =====
-- A client at concrete inputs.
use uma_agent.Base.{ℕ, ◌≡◌, refl, false, List, [], ◌∷◌, none, some, arith}
use uma_agent.Snapshot.{
  Text, TranscriptItem, SessionSnapshot, MessageDelta, streaming, complete, Status,
}
use uma_agent.Snapshot.Events.{Event, message_started, message_completed}
use uma_agent.Snapshot.Prefix.{stream_all, stream_all_complete}
use uma_agent.Snapshot.Cursor.{Delivery, event, delta, snapshot, deliver_all}
use uma_agent.Snapshot.Ids.{HasDistinctIds, times, deliver_all-HasDistinctIds}

abbrev item_with : Text → Status → TranscriptItem
item_with t status = record {
  id = "m";
  sequence = 2;
  status = status;
  content = t;
  name = none;
  run_id = some "r";
  parent_message_id = none;
  attachments = [];
  created_at = 5;
  updated_at = 5;
}

abbrev piece : ℕ → Text → MessageDelta
piece n t = record { message_id = "m"; append = t; offset = n; updated_at = 6 }

-- The text 7 8 9, of which 7 is there: a piece that is partly known, and one that comes twice.
abbrev pieces : List MessageDelta
pieces = piece 0 (7 ∷ 8 ∷ []) ∷ piece 2 (9 ∷ []) ∷ piece 2 (9 ∷ []) ∷ []

stream_all_complete_example :
    (stream_all pieces (item_with (7 ∷ []) streaming)).content ≡ 7 ∷ 8 ∷ 9 ∷ []
stream_all_complete_example =
    stream_all_complete pieces (item_with (7 ∷ []) streaming) (7 ∷ 8 ∷ 9 ∷ [])
      (([], 9 ∷ [], refl, refl), ((7 ∷ 8 ∷ [], [], refl, refl), ((7 ∷ 8 ∷ [], [], refl, refl), tt)))
      (8 ∷ 9 ∷ [], refl) refl (omega arith, (omega arith, (omega arith, omega arith)))

abbrev session_of : ℕ → List TranscriptItem → SessionSnapshot
session_of n items = record {
  session = record { id = "s"; active_branch_id = none; branch_revision = some 1 };
  transcript = items;
  recent_runs = [];
  snapshot_sequence = n;
  history = record { oldest_message_sequence = 2; has_more_before = false };
  responses = none;
  other = 0;
}

abbrev started : Event
started = record { sequence = 4; payload = message_started (item_with [] streaming) }

abbrev completed : Event
completed = record { sequence = 5; payload = message_completed (item_with (7 ∷ 8 ∷ []) complete) }

-- The start of the message comes again after its end and a snapshot.
abbrev received : List Delivery
received =
    event started
    ∷ delta (piece 0 (7 ∷ []))
    ∷ event completed
    ∷ snapshot (session_of 6 (item_with (7 ∷ 8 ∷ []) complete ∷ []))
    ∷ []

one_message : HasDistinctIds (item_with (7 ∷ 8 ∷ []) complete ∷ [])
unfolding times
one_message id = ground arith

no_message : HasDistinctIds []
unfolding times
no_message id = omega arith

deliver_all-HasDistinctIds_example :
    HasDistinctIds (deliver_all received (session_of 3 [])).transcript
deliver_all-HasDistinctIds_example =
    deliver_all-HasDistinctIds received (session_of 3 []) (one_message, tt) no_message
