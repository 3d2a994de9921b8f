-- ===== src/EventHub/Log.antt =====
-- What the listeners are given and what the database keeps.
use mathlib.Core.List.{Perm, perm_append_comm}
use mathlib.Core.List.Perm
use uma_agent.Base.{
  ℕ, zero, suc, String, ◌≡◌, refl, ap, sym, subst, ◌∙◌, true, false, List, [], ◌∷◌, ◌++◌, Option,
  none, some, append_assoc, append-nil, All, Bool, if◌then◌else◌,
}
use uma_agent.JsMap.{get}
use uma_agent.Snapshot.{MessageDelta}
use uma_agent.EventHub.{
  Event, Payload, World, Ended, with_transaction, settle_transaction, settle, transaction, emit,
  emit_in, invalidate, invalidate_in, emit_transient_delta, broadcast, broadcast_all,
}
use uma_agent.EventHub.Scripts.{
  Script, done, fails, emits, invalidates, deltas, writes, transacts, catches, run, and_then,
  write_row, reacts,
}
use uma_agent.EventHub.Within.{
  durable, durable-append, IsWithin, StaysWithin, delta-events, run-IsWithin,
}

-- Outside of transactions: the durable events that the listeners have been given, with those that
-- they are still to be given, are those of the table.
pub record Owes (due : List Event) (w : World) : Type 0 where
  pub closed : w.pending ≡ none
  pub outside : w.in_transaction ≡ false
  pub told : Perm (durable w.events ++ due) w.session_events

-- Nothing is left to be given.
abbrev pub IsSettled : World → Type 0
IsSettled w =
    (w.pending ≡ none) × (w.in_transaction ≡ false) × Perm (durable w.events) w.session_events

-- What the listeners do keeps this.
abbrev pub StaysOwing : (Event → World → World) → Type 0
StaysOwing react = (due : List Event) (e : Event) (w : World) → Owes due w → Owes due (react e w)

durable-snoc :
    (e : Event) (events : List Event)
    → e.transient ≡ false
    → durable (events ++ e ∷ []) ≡ durable events ++ e ∷ []
unfolding durable
durable-snoc e events t =
    durable-append events (e ∷ []) ∙ ap (λ l. durable events ++ l) (stays e.transient t)
  where
    stays : (b : Bool) → b ≡ false → (if b then [] else e ∷ []) ≡ e ∷ []
    stays true p = cc p
    stays false p = refl

-- The events of a transaction are due behind it, in front of those that were due before.
due_more : (t held due s : List Event) → Perm (t ++ due) s → Perm (t ++ (held ++ due)) (s ++ held)
due_more t held due s p =
    Perm.trans (Perm.append (Perm.refl t) (perm_append_comm held due))
      (subst (λ l. Perm l (s ++ held)) (append_assoc t due held) (Perm.append p (Perm.refl held)))

emit_in-Owes :
    (o : Option (List Event)) (next : Option ℕ) (due : List Event) (session_id : String)
    (run_id : Option String) (now : ℕ) (p : Payload) (w : World)
    → w.pending ≡ o
    → Owes due w
    → Owes due (emit_in o next session_id run_id now p w).0
emit_in-Owes none next due session_id run_id now p w h s = s
emit_in-Owes (some es) next due session_id run_id now p w h s = absurd (cc (h, s.closed))

emit-Owes :
    (due : List Event) (session_id : String) (run_id : Option String) (now : ℕ) (p : Payload)
    (w : World)
    → Owes due w
    → Owes due (emit session_id run_id now p w).0
unfolding emit
emit-Owes due session_id run_id now p w s =
    emit_in-Owes w.pending (get session_id w.next_sequence) due session_id run_id now p w refl s

invalidate_in-Owes :
    (o : Option (List (String × Option String))) (due : List Event) (resource : String)
    (owner : Option String) (w : World)
    → Owes due w
    → Owes due (invalidate_in o resource owner w).0
invalidate_in-Owes none due resource owner w s = s
invalidate_in-Owes (some m) due resource owner w s = record {
  closed = s.closed;
  outside = s.outside;
  told = s.told;
}

invalidate-Owes :
    (due : List Event) (resource : String) (owner : Option String) (w : World)
    → Owes due w
    → Owes due (invalidate resource owner w).0
unfolding invalidate
invalidate-Owes due resource owner w s =
    invalidate_in-Owes w.pending_resources due resource owner w s

and_then-Owes :
    (due : List Event) (rest : World → Ended) (r : Ended)
    → Owes due r.0
    → ((w : World) → Owes due w → Owes due (rest w).0)
    → Owes due (and_then rest r).0
and_then-Owes due rest (w, none) s go = go w s
and_then-Owes due rest (w, some e) s go = s

-- The state in which the operation of an outermost transaction starts.
abbrev pub opened_world : World → World
opened_world w = record w { pending = some []; pending_resources = some []; in_transaction = true }

opened-IsWithin :
    (due : List Event) (w : World)
    → Owes due w
    → IsWithin (durable w.events) w.session_events (opened_world w)
opened-IsWithin due w s = record {
  held = [];
  opened = refl;
  inside = refl;
  before = refl;
  after = sym (append-nil w.session_events);
  lasting = tt;
}

module _ (react : Event → World → World) (stays_within : StaysWithin react)
    (stays_owing : StaysOwing react) where
  delta-Owes :
      (due : List Event) (session_id : String) (run_id : Option String) (now : ℕ) (d : MessageDelta)
      (w : World)
      → Owes due w
      → Owes due (emit_transient_delta react session_id run_id now d w)
  unfolding emit_transient_delta broadcast
  delta-Owes due session_id run_id now d w s = stays_owing due _ _ (record {
    closed = s.closed;
    outside = s.outside;
    told =
        subst (λ l. Perm (l ++ due) w.session_events) (sym (delta-events _ w.events refl)) s.told;
  })

  broadcast_all-Owes :
      (es due : List Event) (w : World)
      → All (λ e. e.transient ≡ false) es
      → Owes (es ++ due) w
      → Owes due (broadcast_all react es w)
  unfolding broadcast_all broadcast
  broadcast_all-Owes [] due w a s = s
  broadcast_all-Owes (e ∷ es) due w a s = broadcast_all-Owes es due (broadcast react e w) a.1 (
      stays_owing (es ++ due) e _ (record {
        closed = s.closed;
        outside = s.outside;
        told =
            subst (λ l. Perm l w.session_events)
              (sym (
                ap (λ l. l ++ (es ++ due)) (durable-snoc e w.events a.0)
                ∙ append_assoc (durable w.events) (e ∷ []) (es ++ due)))
              s.told;
      }))

  settle-Owes :
      (due : List Event) (start : World) (r : Ended)
      → Perm (durable start.events ++ due) start.session_events
      → IsWithin (durable start.events) start.session_events r.0
      → Owes due (settle react (settle_transaction start r)).0
  unfolding settle
  settle-Owes due start (w, none) p i =
      let closed : World = record w {
        pending = none;
        pending_resources = none;
        in_transaction = false;
      } in
      let b = broadcast_all-Owes i.held due closed i.lasting (record {
        closed = refl;
        outside = refl;
        told =
            subst (λ l. Perm (durable w.events ++ (i.held ++ due)) l) (sym i.after)
              (subst (λ l. Perm (l ++ (i.held ++ due)) (start.session_events ++ i.held))
                (sym i.before) (due_more (durable start.events) i.held due start.session_events p));
      }) in
      rw (i.opened) (record { closed = b.closed; outside = b.outside; told = b.told })
  settle-Owes due start (w, some e) p i = record {
    closed = refl;
    outside = refl;
    told = subst (λ l. Perm (l ++ due) start.session_events) (sym i.before) p;
  }

  transaction_opens :
      (operation : World → Ended) (due : List Event) (w : World)
      → Owes due w
      → transaction react operation w
        ≡ settle react (
            settle_transaction
              (record w { pending = some []; pending_resources = some [] })
              (operation (opened_world w)))
  unfolding transaction with_transaction
  transaction_opens operation due w s = rw (s.closed) (rw (s.outside) refl)

  transaction-Owes :
      (body : Script) (due : List Event) (w : World)
      → Owes due w
      → Owes due (transaction react (run react body) w).0
  transaction-Owes body due w s =
      let begun : World = record w { pending = some []; pending_resources = some [] } in
      subst (λ (r : Ended). Owes due r.0) (sym (transaction_opens (run react body) due w s))
        (settle-Owes due begun (run react body (opened_world w)) s.told (
          run-IsWithin react stays_within (durable w.events) w.session_events body (opened_world w)
            (opened-IsWithin due w s)))

  run-Owes :
      (due : List Event) (script : Script) (w : World)
      → Owes due w
      → Owes due (run react script w).0
  unfolding run
  run-Owes due done w s = s
  run-Owes due (fails e) w s = s
  run-Owes due (emits session_id run_id now p rest) w s =
      and_then-Owes due (run react rest) (emit session_id run_id now p w)
        (emit-Owes due session_id run_id now p w s) (run-Owes due rest)
  run-Owes due (invalidates resource owner rest) w s =
      and_then-Owes due (run react rest) (invalidate resource owner w)
        (invalidate-Owes due resource owner w s) (run-Owes due rest)
  run-Owes due (deltas session_id run_id now d rest) w s =
      run-Owes due rest (emit_transient_delta react session_id run_id now d w)
        (delta-Owes due session_id run_id now d w s)
  run-Owes due (writes n rest) w s =
      run-Owes due rest (write_row n w)
        (record { closed = s.closed; outside = s.outside; told = s.told })
  run-Owes due (transacts body rest) w s =
      and_then-Owes due (run react rest) (transaction react (run react body) w)
        (transaction-Owes body due w s) (run-Owes due rest)
  run-Owes due (catches body rest) w s =
      run-Owes due rest (run react body w).0 (run-Owes due body w s)

-- Whatever the listeners call, to any depth.
reacts-stays :
    (depth : ℕ) (listener : Event → World → Script)
    → StaysWithin (reacts depth listener) × StaysOwing (reacts depth listener)
unfolding reacts
reacts-stays zero listener = (λ told base e w i. i, λ due e w s. s)
reacts-stays (suc depth) listener =
    let (within, owing) = reacts-stays depth listener in
    (
      λ told base e w i. run-IsWithin (reacts depth listener) within told base (listener e w) w i,
      λ due e w s. run-Owes (reacts depth listener) within owing due (listener e w) w s,
    )

-- If the listeners have been given exactly the durable events of the table, each once, and no
-- transaction is open, the same holds after any calls of the hub, in transactions and outside, nested
-- or not, whichever of them throw and whichever errors are caught, and whatever calls of the hub the
-- listeners make in their turn, nested to any depth: what is committed is told exactly once, and what
-- is rolled back is never told.
pub run-IsSettled :
    (depth : ℕ) (listener : Event → World → Script) (script : Script) (w : World)
    → IsSettled w
    → IsSettled (run (reacts depth listener) script w).0
run-IsSettled depth listener script w s =
    let (within, owing) = reacts-stays depth listener in
    let o = run-Owes (reacts depth listener) within owing [] script w (record {
      closed = s.0;
      outside = s.1;
      told = subst (λ l. Perm l w.session_events) (sym (append-nil (durable w.events))) s.2;
    }) in
    let v = (run (reacts depth listener) script w).0 in
    (
      o.closed,
      o.outside,
      subst (λ l. Perm l v.session_events) (append-nil (durable v.events)) o.told,
    )
