-- ===== src/ClientEvents/Tests.antt =====
-- The events of a client at fixed inputs.
use uma_agent.Base.{◌≡◌, ◌+◌, refl, true, false, none, some, List, [], ◌∷◌, arith}
use uma_agent.ClientEvents.{
  event, gave_up, Feed, idle, subscribed, dispatch, take_page, page_by, take_failure, read_page,
  ◌⟶*◌, hears, pages, stays, goes,
}
use uma_agent.ClientEvents.Chain.{reachable_chained}
use uma_agent.ClientEvents.Order.{is_chained, since, IsDescending}
use uma_agent.ClientEvents.CatchUp.{behind, tell, recovery_catches_up}
use uma_agent.ClientEvents.Reconnect.{
  Signal, connects, fires, closes, dropped, run, new_connection, step, connect_events, on_close,
  schedule_reconnect, close,
}

-- At 5 of 9, the event 8 is heard: the events 6 to 9 are fetched.
abbrev heard : Feed
unfolding dispatch
heard = dispatch 8 (subscribed (some 5) 9)

abbrev caught : Feed
unfolding take_page heard page_by read_page dispatch
caught = take_page (behind 5 4) 9 false heard

caught_up : caught.told ≡ tell (behind 5 4) []
unfolding caught
caught_up = refl

caught_steps : subscribed (some 5) 9 ⟶* caught
unfolding caught
caught_steps = goes (hears 8 (omega arith)) (
    goes (pages (behind 5 4) 9 false (omega arith, (omega arith, (omega arith, (omega arith, tt)))))
      stays)

reachable_chained_example :
    (is_chained (some 5) caught.told ≡ true) × IsDescending (since caught.told)
reachable_chained_example = reachable_chained (some 5) 9 caught (omega arith) caught_steps

recovery_catches_up_example : take_page (behind 5 4) (5 + 4) false heard ≡ record heard {
  last = some (5 + 4);
  target = none;
  work = idle;
  told = tell (behind 5 4) heard.told;
}
unfolding heard
recovery_catches_up_example =
    recovery_catches_up 5 5 4 8 heard refl refl (omega arith) (omega arith)

-- A page and then the snapshot fail; the next event that is heard, 12, is told as if nothing was
-- missing.
skipped :
    (dispatch 12 (take_failure (take_failure (dispatch 8 (subscribed (some 5) 12))))).told
    ≡ event 12 ∷ gave_up ∷ []
unfolding dispatch take_failure
skipped = refl

-- A connection that is dropped, scheduled again and closed.
abbrev signals : List Signal
signals = connects ∷ dropped 0 ∷ fires ∷ dropped 1 ∷ closes ∷ fires ∷ []

delays_double : (run signals new_connection).delays ≡ 1000 ∷ 500 ∷ []
unfolding run step connect_events on_close schedule_reconnect close
delays_double = refl
