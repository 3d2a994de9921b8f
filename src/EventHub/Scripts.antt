-- ===== src/EventHub/Scripts.antt =====
-- What callers do with the hub: sequences of calls, in and outside transactions, with errors that are
-- thrown and caught. What the listeners do is such a script for each event, to any depth.
use uma_agent.Base.{ℕ, zero, suc, String, [], ◌∷◌, ◌++◌, Option, none, some}
use uma_agent.Snapshot.{MessageDelta}
use uma_agent.EventHub.{
  Event, Payload, World, Ended, emit, invalidate, emit_transient_delta, transaction,
}

pub data Script : Type 0 where
  done : Script
  fails : String → Script
  emits : String → Option String → ℕ → Payload → Script → Script
  invalidates : String → Option String → Script → Script
  deltas : String → Option String → ℕ → MessageDelta → Script → Script
  writes : ℕ → Script → Script
  transacts : Script → Script → Script
  catches : Script → Script → Script

abbrev pub and_then : (World → Ended) → Ended → Ended
and_then rest (w, none) = rest w
and_then rest (w, some e) = (w, some e)

-- A write that is not in a transaction is one by itself.
abbrev pub write_row : ℕ → World → World
write_row n w = record w { rows = w.rows ++ n ∷ [] }

module _ (react : Event → World → World) where
  unfoldable pub run : Script → World → Ended
  run done w = (w, none)
  run (fails e) w = (w, some e)
  run (emits session_id run_id now payload rest) w =
      and_then (run rest) (emit session_id run_id now payload w)
  run (invalidates resource owner_id rest) w = and_then (run rest) (invalidate resource owner_id w)
  run (deltas session_id run_id now d rest) w =
      run rest (emit_transient_delta react session_id run_id now d w)
  run (writes n rest) w = run rest (write_row n w)
  run (transacts body rest) w = and_then (run rest) (transaction react (run body) w)
  run (catches body rest) w = run rest (run body w).0

-- What listeners do, who call the hub in their turn: `listener` tells the calls by the event and the
-- state. The listeners' calls are nested at most as deep as `depth`.
unfoldable pub reacts : ℕ → (Event → World → Script) → Event → World → World
unfolding run
reacts zero listener e w = w
reacts (suc depth) listener e w = (run (reacts depth listener) (listener e w) w).0
