-- ===== src/EventHub/Within.antt =====
-- Calls of the hub within a transaction.
use uma_agent.Base.{
  All, All-append, Bool, false, ℕ, String, ◌≡◌, refl, ap, sym, subst, ◌∙◌, true, List, [], ◌∷◌,
  ◌++◌, Option, none, some, if◌then◌else◌, arith, append_assoc, append-nil,
}
use uma_agent.JsMap.{get}
use uma_agent.Snapshot.{MessageDelta}
use uma_agent.EventHub.{
  Event, Payload, World, Ended, transaction, emit, emit_in, append_event, invalidate, invalidate_in,
  emit_transient_delta, broadcast,
}
use uma_agent.EventHub.Scripts.{
  Script, done, fails, emits, invalidates, deltas, writes, transacts, catches, run, and_then,
  write_row,
}

-- The durable ones among the events that the listeners were given.
unfoldable pub durable : List Event → List Event
durable [] = []
durable (e ∷ es) = let rest = durable es in if e.transient then rest else e ∷ rest

pub durable-append : (xs ys : List Event) → durable (xs ++ ys) ≡ durable xs ++ durable ys
unfolding durable
durable-append [] ys = refl
durable-append (x ∷ xs) ys = let ih = durable-append xs ys in ground (arith, ih)

-- Within a transaction that began when the listeners had been given the durable events `told`, and the
-- events `base` were in the table.
pub record IsWithin (told base : List Event) (w : World) : Type 0 where
  pub held : List Event
  pub opened : w.pending ≡ some held
  pub inside : w.in_transaction ≡ true
  pub before : durable w.events ≡ told
  pub after : w.session_events ≡ base ++ held
  pub lasting : All (λ e. e.transient ≡ false) held

emit_in-IsWithin :
    (o : Option (List Event)) (next : Option ℕ) (told base : List Event) (session_id : String)
    (run_id : Option String) (now : ℕ) (p : Payload) (w : World)
    → w.pending ≡ o
    → IsWithin told base w
    → IsWithin told base (emit_in o next session_id run_id now p w).0
unfolding durable
emit_in-IsWithin none next told base session_id run_id now p w h i = i
emit_in-IsWithin (some es) none told base session_id run_id now p w h i = i
emit_in-IsWithin (some es) (some n) told base session_id run_id now p w h i =
    let e = (append_event session_id run_id now p n w).0 in
    let same_held : i.held ≡ es = cc (h, i.opened) in
    let lasting : All (λ x. x.transient ≡ false) es =
      subst (All (λ x. x.transient ≡ false)) same_held i.lasting in
    record {
      held = es ++ e ∷ [];
      opened = refl;
      inside = i.inside;
      before = i.before;
      after =
          ap (λ l. l ++ e ∷ []) (i.after ∙ ap (◌++◌ base) same_held)
          ∙ append_assoc base es (e ∷ []);
      lasting = All-append (λ x. x.transient ≡ false) es (e ∷ []) lasting (refl, tt);
    }

emit-IsWithin :
    (told base : List Event) (session_id : String) (run_id : Option String) (now : ℕ) (p : Payload)
    (w : World)
    → IsWithin told base w
    → IsWithin told base (emit session_id run_id now p w).0
unfolding emit
emit-IsWithin told base session_id run_id now p w i =
    emit_in-IsWithin w.pending (get session_id w.next_sequence) told base session_id run_id now p w
      refl i

invalidate_in-IsWithin :
    (o : Option (List (String × Option String))) (told base : List Event) (resource : String)
    (owner : Option String) (w : World)
    → IsWithin told base w
    → IsWithin told base (invalidate_in o resource owner w).0
invalidate_in-IsWithin none told base resource owner w i = i
invalidate_in-IsWithin (some m) told base resource owner w i = record {
  held = i.held;
  opened = i.opened;
  inside = i.inside;
  before = i.before;
  after = i.after;
  lasting = i.lasting;
}

invalidate-IsWithin :
    (told base : List Event) (resource : String) (owner : Option String) (w : World)
    → IsWithin told base w
    → IsWithin told base (invalidate resource owner w).0
unfolding invalidate
invalidate-IsWithin told base resource owner w i =
    invalidate_in-IsWithin w.pending_resources told base resource owner w i

-- What the listeners do keeps a transaction that is open.
abbrev pub StaysWithin : (Event → World → World) → Type 0
StaysWithin react =
    (told base : List Event) (e : Event) (w : World)
    → IsWithin told base w
    → IsWithin told base (react e w)

pub delta-events :
    (e : Event) (events : List Event)
    → e.transient ≡ true
    → durable (events ++ e ∷ []) ≡ durable events
unfolding durable
delta-events e events t =
    durable-append events (e ∷ [])
    ∙ ap (λ l. durable events ++ l) (gone e.transient t)
    ∙ append-nil (durable events)
  where
    gone : (b : Bool) → b ≡ true → (if b then [] else e ∷ []) ≡ []
    gone true p = refl
    gone false p = cc p

and_then-IsWithin :
    (told base : List Event) (rest : World → Ended) (r : Ended)
    → IsWithin told base r.0
    → ((w : World) → IsWithin told base w → IsWithin told base (rest w).0)
    → IsWithin told base (and_then rest r).0
and_then-IsWithin told base rest (w, none) i go = go w i
and_then-IsWithin told base rest (w, some e) i go = i

module _ (react : Event → World → World) (stays_within : StaysWithin react) where
  delta-IsWithin :
      (told base : List Event) (session_id : String) (run_id : Option String) (now : ℕ)
      (d : MessageDelta) (w : World)
      → IsWithin told base w
      → IsWithin told base (emit_transient_delta react session_id run_id now d w)
  unfolding emit_transient_delta broadcast
  delta-IsWithin told base session_id run_id now d w i = stays_within told base _ _ (record {
    held = i.held;
    opened = i.opened;
    inside = i.inside;
    before = delta-events _ w.events refl ∙ i.before;
    after = i.after;
    lasting = i.lasting;
  })

  transaction-within :
      (operation : World → Ended) (told base : List Event) (w : World)
      → IsWithin told base w
      → transaction react operation w ≡ operation w
  unfolding transaction
  transaction-within operation told base w i = rw (i.opened) refl

  -- A script that runs in a transaction stays in it.
  pub run-IsWithin :
      (told base : List Event) (script : Script) (w : World)
      → IsWithin told base w
      → IsWithin told base (run react script w).0
  unfolding run
  run-IsWithin told base done w i = i
  run-IsWithin told base (fails e) w i = i
  run-IsWithin told base (emits session_id run_id now p rest) w i =
      and_then-IsWithin told base (run react rest) (emit session_id run_id now p w)
        (emit-IsWithin told base session_id run_id now p w i) (run-IsWithin told base rest)
  run-IsWithin told base (invalidates resource owner rest) w i =
      and_then-IsWithin told base (run react rest) (invalidate resource owner w)
        (invalidate-IsWithin told base resource owner w i) (run-IsWithin told base rest)
  run-IsWithin told base (deltas session_id run_id now d rest) w i =
      run-IsWithin told base rest (emit_transient_delta react session_id run_id now d w)
        (delta-IsWithin told base session_id run_id now d w i)
  run-IsWithin told base (writes n rest) w i = run-IsWithin told base rest (write_row n w) (record {
    held = i.held;
    opened = i.opened;
    inside = i.inside;
    before = i.before;
    after = i.after;
    lasting = i.lasting;
  })
  run-IsWithin told base (transacts body rest) w i =
      and_then-IsWithin told base (run react rest) (transaction react (run react body) w)
        (subst (λ (r : Ended). IsWithin told base r.0)
          (sym (transaction-within (run react body) told base w i))
          (run-IsWithin told base body w i))
        (run-IsWithin told base rest)
  run-IsWithin told base (catches body rest) w i =
      run-IsWithin told base rest (run react body w).0 (run-IsWithin told base body w i)
