-- ===== src/ClientEvents/Chain.antt =====
-- That listeners are given the events of a session one by one:
-- packages/client/src/index.ts.
use uma_agent.Base.{
  ℕ, ◌≤◌, ◌≡◌, inl, inr, refl, subst, true, Option, List, ◌∷◌, or_else, arith, Option-cases,
}
use uma_agent.ClientEvents.Order.{cursor, is_chained, since, IsDescending, chained-Descending}
use uma_agent.ClientEvents.{
  Told, snapshot, Work, idle, paging, falling_back, snapshots, Feed, subscribed, dispatch,
  dispatch_delta, take_page, snapshot_thrown, snapshot_answer, take_snapshot, failure_by,
  take_failure, floor_of, ◌⟶◌, emits, hears, hears_delta, opens, pages, page_throws, answers,
  snapshot_throws, fails, ◌⟶*◌, stays, goes,
}
use uma_agent.ClientEvents.Places.{
  IsPlaced, IsSound, subscribed-IsSound, IsPlaced-later, dispatch_by-IsSound, open-IsSound,
}
use uma_agent.ClientEvents.Pages.{page_by-IsSound, page_thrown-IsSound}

snapshot_chained :
    (start : Option ℕ) (floor n : ℕ) (told : List Told)
    → is_chained start told ≡ true
    → or_else (cursor start told) 0 ≤ floor
    → floor ≤ n
    → is_chained start (snapshot n ∷ told) ≡ true
snapshot_chained start floor n told h p a = elim (Option-cases (cursor start told)) [
  | inl e ↦ ground (arith, e, h)
  | inr (c, e) ↦ ground (arith, e, h, p)
]

snapshot_answer-IsSound :
    (start : Option ℕ) (w : Work) (n : ℕ) (f : Feed)
    → f.work ≡ w
    → floor_of w ≤ n
    → n ≤ f.server
    → IsSound start f
    → IsSound start (snapshot_answer w n f)
snapshot_answer-IsSound start idle n f e a b h = h
snapshot_answer-IsSound start (paging cur expected obs) n f e a b h = h
snapshot_answer-IsSound start (falling_back fl) n f e a b h =
    let p = subst (λ w. IsPlaced f.server w f.last f.target (cursor start f.told)) e h.placed in
    record {
      chained = snapshot_chained start fl n f.told h.chained p.2 a;
      placed = (refl, refl);
      bound = b;
    }
snapshot_answer-IsSound start (snapshots r fl) n f e a b h =
    let p = subst (λ w. IsPlaced f.server w f.last f.target (cursor start f.told)) e h.placed in
    let c = snapshot_chained start fl n f.told h.chained p.5 a in ground (arith, c, p, h.bound)

snapshot_thrown-IsSound :
    (start : Option ℕ) (w : Work) (n : ℕ) (f : Feed)
    → f.work ≡ w
    → floor_of w ≤ n
    → IsSound start f
    → IsSound start (snapshot_thrown w n f)
unfolding snapshot_thrown
snapshot_thrown-IsSound start idle n f e a h = h
snapshot_thrown-IsSound start (paging cur expected obs) n f e a h = h
snapshot_thrown-IsSound start (falling_back fl) n f e a h =
    let p = subst (λ w. IsPlaced f.server w f.last f.target (cursor start f.told)) e h.placed in
    record {
      chained = snapshot_chained start fl n f.told h.chained p.2 a;
      placed = (refl, refl);
      bound = omega arith;
    }
snapshot_thrown-IsSound start (snapshots r fl) n f e a h =
    let p = subst (λ w. IsPlaced f.server w f.last f.target (cursor start f.told)) e h.placed in
    record {
      chained = snapshot_chained start fl n f.told h.chained p.5 a;
      placed = (refl, refl);
      bound = omega arith;
    }

failure_by-IsSound :
    (start : Option ℕ) (w : Work) (f : Feed)
    → f.work ≡ w
    → IsSound start f
    → IsSound start (failure_by w f)
failure_by-IsSound start idle f e h = h
failure_by-IsSound start (falling_back fl) f e h = record {
  chained = h.chained;
  placed = (refl, refl);
  bound = omega arith;
}
failure_by-IsSound start (snapshots r fl) f e h = record {
  chained = h.chained;
  placed = (refl, refl);
  bound = omega arith;
}
failure_by-IsSound start (paging cur expected obs) f e h =
    let p = subst (λ w. IsPlaced f.server w f.last f.target (cursor start f.told)) e h.placed in
    record { chained = h.chained; placed = (p.0, p.1, h.bound); bound = h.bound }

step-IsSound : (start : Option ℕ) (f g : Feed) → f ⟶ g → IsSound start f → IsSound start g
unfolding dispatch dispatch_delta take_page take_snapshot take_failure
step-IsSound start f _ emits h = record {
  chained = h.chained;
  placed = IsPlaced-later f.server f.work f.last f.target (cursor start f.told) h.placed;
  bound = omega (arith, h.bound);
}
step-IsSound start f _ (hears n b) h = dispatch_by-IsSound start f.target n f b refl h
step-IsSound start f _ hears_delta h = record {
  chained = h.chained;
  placed = h.placed;
  bound = h.bound;
}
step-IsSound start f _ opens h = open-IsSound start f h
step-IsSound start f _ (pages events next has_more a) h =
    page_by-IsSound start f.work events next has_more f refl a h
step-IsSound start f _ (page_throws events a) h = page_thrown-IsSound start f.work events f refl a h
step-IsSound start f _ (answers n a b) h = snapshot_answer-IsSound start f.work n f refl a b h
step-IsSound start f _ (snapshot_throws n a b) h = snapshot_thrown-IsSound start f.work n f refl a h
step-IsSound start f _ fails h = failure_by-IsSound start f.work f refl h

steps-IsSound : (start : Option ℕ) (f g : Feed) → f ⟶* g → IsSound start f → IsSound start g
steps-IsSound start f _ stays h = h
steps-IsSound start f _ (goes {g = m} s rest) h =
    steps-IsSound start m _ rest (step-IsSound start f m s h)

-- Over any order of frames, of pages with the server's events in any order, of snapshots, failures,
-- throwing listeners and reconnections, the place of a session's listeners only moves forward until a
-- recovery gives up, which it does where its snapshot fails or a listener throws at it: each event
-- that they are given is the one directly behind their place, which is the last event or snapshot
-- that they were given, or where they began, and no snapshot is older than the place. So since the
-- beginning, or since the last recovery that gave up, no event is given twice or after a later one. A
-- recovery that gave up forgets the place, and the next event may be any. This needs that a snapshot
-- is no older than the server was when it was asked for, and that the listeners began at a place the
-- server had reached.
pub reachable_chained :
    (start : Option ℕ) (server : ℕ) (f : Feed)
    → or_else start 0 ≤ server
    → subscribed start server ⟶* f
    → (is_chained start f.told ≡ true) × IsDescending (since f.told)
reachable_chained start server f b steps =
    let chained =
      (steps-IsSound start (subscribed start server) f steps
        (subscribed-IsSound start server b)).chained in
    (chained, (chained-Descending start f.told chained).1)
