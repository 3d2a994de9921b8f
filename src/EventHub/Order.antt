-- ===== src/EventHub/Order.antt =====
-- The order in which listeners are given events, where they make no calls of the hub themselves.
use uma_agent.Base.{
  ℕ, String, ◌≡◌, refl, ap, sym, subst, ◌∙◌, true, false, List, [], ◌∷◌, ◌++◌, Option, none, some,
  append_assoc, append-nil, All, Bool, if◌then◌else◌,
}
use uma_agent.JsMap.{get}
use uma_agent.Snapshot.{MessageDelta}
use uma_agent.EventHub.{
  Event, Payload, World, Ended, with_transaction, settle_transaction, settle, transaction, emit,
  emit_in, invalidate, invalidate_in, emit_transient_delta, broadcast, broadcast_all,
}
use uma_agent.EventHub.Scripts.{
  Script, done, fails, emits, invalidates, deltas, writes, transacts, catches, run, and_then,
  write_row,
}
use uma_agent.EventHub.Within.{durable, durable-append, IsWithin, delta-events, run-IsWithin}

-- A listener that makes no calls.
abbrev pub passive : Event → World → World
passive e w = w

durable_self : (es : List Event) → All (λ e. e.transient ≡ false) es → durable es ≡ es
unfolding durable
durable_self [] a = refl
durable_self (e ∷ es) a = stays e.transient a.0 (durable_self es a.1)
  where
    stays :
        (b : Bool)
        → b ≡ false
        → durable es ≡ es
        → (if b then durable es else e ∷ durable es) ≡ e ∷ es
    stays true p q = cc p
    stays false p q = ap (◌∷◌ e) q

-- Between transactions: the listeners have been given the durable events of the table, in its order.
pub record InOrder (w : World) : Type 0 where
  pub closed : w.pending ≡ none
  pub outside : w.in_transaction ≡ false
  pub told : durable w.events ≡ w.session_events

delta-InOrder :
    (session_id : String) (run_id : Option String) (now : ℕ) (d : MessageDelta) (w : World)
    → InOrder w
    → InOrder (emit_transient_delta passive session_id run_id now d w)
unfolding emit_transient_delta broadcast
delta-InOrder session_id run_id now d w s = record {
  closed = s.closed;
  outside = s.outside;
  told = delta-events _ w.events refl ∙ s.told;
}

record Broadcast (es : List Event) (w v : World) : Type 0 where
  closed : v.pending ≡ w.pending
  inside : v.in_transaction ≡ w.in_transaction
  told : v.events ≡ w.events ++ es
  kept : v.session_events ≡ w.session_events

broadcast_all-Broadcast :
    (es : List Event) (w : World) → Broadcast es w (broadcast_all passive es w)
unfolding broadcast_all broadcast
broadcast_all-Broadcast [] w = record {
  closed = refl;
  inside = refl;
  told = sym (append-nil w.events);
  kept = refl;
}
broadcast_all-Broadcast (e ∷ es) w =
    let ih = broadcast_all-Broadcast es (broadcast passive e w) in
    record {
      closed = ih.closed;
      inside = ih.inside;
      told = ih.told ∙ append_assoc w.events (e ∷ []) es;
      kept = ih.kept;
    }

settle-InOrder :
    (start : World) (r : Ended)
    → IsWithin start.session_events start.session_events r.0
    → InOrder (settle passive (settle_transaction start r)).0
unfolding settle durable
settle-InOrder start (w, none) i =
    let closed : World = record w {
      pending = none;
      pending_resources = none;
      in_transaction = false;
    } in
    let b = broadcast_all-Broadcast i.held closed in
    rw (i.opened) (record {
      closed = b.closed;
      outside = b.inside;
      told =
          ap durable b.told
          ∙ durable-append w.events i.held
          ∙ ap (λ l. l ++ durable i.held) i.before
          ∙ ap (◌++◌ start.session_events) (durable_self i.held i.lasting)
          ∙ sym i.after
          ∙ sym b.kept;
    })
settle-InOrder start (w, some e) i = record { closed = refl; outside = refl; told = i.before }

-- The state in which the operation of an outermost transaction starts.
abbrev pub opened_world : World → World
opened_world w = record w { pending = some []; pending_resources = some []; in_transaction = true }

opened-IsWithin :
    (w : World) → InOrder w → IsWithin w.session_events w.session_events (opened_world w)
unfolding durable
opened-IsWithin w s = record {
  held = [];
  opened = refl;
  inside = refl;
  before = s.told;
  after = sym (append-nil w.session_events);
  lasting = tt;
}

transaction_opens :
    (operation : World → Ended) (w : World)
    → InOrder w
    → transaction passive operation w
      ≡ settle passive (
          settle_transaction
            (record w { pending = some []; pending_resources = some [] })
            (operation (opened_world w)))
unfolding transaction with_transaction
transaction_opens operation w s = rw (s.closed) (rw (s.outside) refl)

transaction-InOrder :
    (body : Script) (w : World) → InOrder w → InOrder (transaction passive (run passive body) w).0
transaction-InOrder body w s =
    let begun : World = record w { pending = some []; pending_resources = some [] } in
    subst (λ (r : Ended). InOrder r.0) (sym (transaction_opens (run passive body) w s))
      (settle-InOrder begun (run passive body (opened_world w)) (
        run-IsWithin passive (λ told base e v i. i) w.session_events w.session_events body
          (opened_world w) (opened-IsWithin w s)))

emit_in-InOrder :
    (o : Option (List Event)) (next : Option ℕ) (session_id : String) (run_id : Option String)
    (now : ℕ) (p : Payload) (w : World)
    → w.pending ≡ o
    → InOrder w
    → InOrder (emit_in o next session_id run_id now p w).0
emit_in-InOrder none next session_id run_id now p w h s = s
emit_in-InOrder (some es) next session_id run_id now p w h s = absurd (cc (h, s.closed))

emit-InOrder :
    (session_id : String) (run_id : Option String) (now : ℕ) (p : Payload) (w : World)
    → InOrder w
    → InOrder (emit session_id run_id now p w).0
unfolding emit
emit-InOrder session_id run_id now p w s =
    emit_in-InOrder w.pending (get session_id w.next_sequence) session_id run_id now p w refl s

invalidate_in-InOrder :
    (o : Option (List (String × Option String))) (resource : String) (owner : Option String)
    (w : World)
    → InOrder w
    → InOrder (invalidate_in o resource owner w).0
invalidate_in-InOrder none resource owner w s = s
invalidate_in-InOrder (some m) resource owner w s = record {
  closed = s.closed;
  outside = s.outside;
  told = s.told;
}

invalidate-InOrder :
    (resource : String) (owner : Option String) (w : World)
    → InOrder w
    → InOrder (invalidate resource owner w).0
unfolding invalidate
invalidate-InOrder resource owner w s = invalidate_in-InOrder w.pending_resources resource owner w s

and_then-InOrder :
    (rest : World → Ended) (r : Ended)
    → InOrder r.0
    → ((w : World) → InOrder w → InOrder (rest w).0)
    → InOrder (and_then rest r).0
and_then-InOrder rest (w, none) s go = go w s
and_then-InOrder rest (w, some e) s go = s

-- If the listeners make no calls of the hub, have been given exactly the durable events of the table in
-- their order, and no transaction is open, the same holds after any calls of the hub, in transactions
-- and outside, nested or not, whichever of them throw and whichever errors are caught: what is
-- committed is told once and in order, and what is rolled back is never told.
pub run-InOrder : (script : Script) (w : World) → InOrder w → InOrder (run passive script w).0
unfolding run
run-InOrder done w s = s
run-InOrder (fails e) w s = s
run-InOrder (emits session_id run_id now p rest) w s =
    and_then-InOrder (run passive rest) (emit session_id run_id now p w)
      (emit-InOrder session_id run_id now p w s) (run-InOrder rest)
run-InOrder (invalidates resource owner rest) w s =
    and_then-InOrder (run passive rest) (invalidate resource owner w)
      (invalidate-InOrder resource owner w s) (run-InOrder rest)
run-InOrder (deltas session_id run_id now d rest) w s =
    run-InOrder rest (emit_transient_delta passive session_id run_id now d w)
      (delta-InOrder session_id run_id now d w s)
run-InOrder (writes n rest) w s =
    run-InOrder rest (write_row n w)
      (record { closed = s.closed; outside = s.outside; told = s.told })
run-InOrder (transacts body rest) w s =
    and_then-InOrder (run passive rest) (transaction passive (run passive body) w)
      (transaction-InOrder body w s) (run-InOrder rest)
run-InOrder (catches body rest) w s = run-InOrder rest (run passive body w).0 (run-InOrder body w s)
