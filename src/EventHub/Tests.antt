-- ===== src/EventHub/Tests.antt =====
-- The hub at concrete inputs.
use uma_agent.Base.{◌≡◌, refl, zero, suc, true, false, [], ◌∷◌, none, some, same, map}
use mathlib.Core.List.Perm
use uma_agent.JsMap.{get, put}
use uma_agent.Snapshot.{MessageDelta}
use uma_agent.EventHub.{
  Event, Payload, broadcast, broadcast_all, other_event, message_started, World, with_transaction,
  transaction, settle, emit,
}
use uma_agent.EventHub.Scripts.{
  Script, done, fails, emits, deltas, writes, transacts, catches, run, reacts,
}
use uma_agent.EventHub.Within.{durable}
use uma_agent.EventHub.Log.{IsSettled, run-IsSettled}
use uma_agent.EventHub.Order.{passive, InOrder, run-InOrder}

abbrev new_world : World
new_world = record {
  pending = none;
  pending_resources = none;
  streaming = [];
  events = [];
  resources = [];
  session_events = [];
  next_sequence = ("s", 1) ∷ [];
  rows = [];
  in_transaction = false;
}

new-IsSettled : IsSettled new_world
unfolding durable
new-IsSettled = (refl, refl, Perm.refl [])

abbrev piece : MessageDelta
piece = record { message_id = "m"; append = 7 ∷ []; offset = 0; updated_at = 1 }

-- A transaction that is nested in another and throws, caught within it.
abbrev nested : Script
nested =
    transacts
      (emits "s" none 1 (message_started "m" true [])
        (catches (transacts (emits "s" none 2 (other_event 1) (fails "no")) done) (writes 5 done)))
      (deltas "s" none 3 piece done)

abbrev failing : Script
failing = emits "s" none 1 (other_event 1) (writes 5 (deltas "s" none 3 piece (fails "no")))

-- A listener that makes an event of its own of the event 1.
abbrev answering : Payload → Script
answering (other_event (suc zero)) = transacts (emits "s" none 4 (other_event 3) done) done
answering p = done

abbrev listener : Event → World → Script
listener e w = answering e.payload

run-IsSettled_example : IsSettled (run (reacts 2 listener) nested new_world).0
run-IsSettled_example = run-IsSettled 2 listener nested new_world new-IsSettled

failing_fails :
    (transaction (reacts 0 listener) (run (reacts 0 listener) failing) new_world).1 ≡ some "no"
unfolding transaction with_transaction run emit settle same get put
failing_fails = refl

-- Of two events of a transaction the first makes the listener begin another: its event is told before
-- the second.
abbrev two_events : Script
two_events =
    transacts (emits "s" none 1 (other_event 1) (emits "s" none 2 (other_event 2) done)) done

told_out_of_order :
    map (λ (e : Event). e.sequence) (run (reacts 1 listener) two_events new_world).0.events
    ≡ 1 ∷ 3 ∷ 2 ∷ []
unfolding reacts run transaction with_transaction emit settle broadcast_all broadcast same get put
told_out_of_order = refl

new-InOrder : InOrder new_world
unfolding durable
new-InOrder = record { closed = refl; outside = refl; told = refl }

run-InOrder_example : InOrder (run passive nested new_world).0
run-InOrder_example = run-InOrder nested new_world new-InOrder
