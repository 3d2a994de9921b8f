-- ===== src/ClientEvents/Pages.antt =====
-- What a page of events leaves: packages/client/src/index.ts.
use uma_agent.Base.{
  ℕ, suc, ◌≤◌, ◌≡◌, ◌⊎◌, inl, inr, refl, sym, subst, ap, ◌∙◌, Bool, true, ◌==◌, Option, none, some,
  List, [], ◌∷◌, if◌then◌else◌, is_some_b, or_else, All, arith, Bool-cases, Option-cases,
}
use uma_agent.ClientEvents.Order.{cursor, is_chained}
use uma_agent.ClientEvents.{
  event, Work, idle, paging, falling_back, snapshots, Feed, read_page, is_nil, behind_page, page_by,
  page_thrown,
}
use uma_agent.ClientEvents.Places.{IsPlaced, IsSound}

-- What the loop on a page leaves.
pub record Reads (start : Option ℕ) (f : Feed) (g : Feed × Option ℕ) : Type 0 where
  pub read_chained : is_chained start g.0.told ≡ true
  pub read_last : g.0.last ≡ cursor start g.0.told
  pub read_some : is_some_b g.0.last ≡ true
  pub read_next : (g.1 ≡ none) ⊎ (g.1 ≡ some (suc (or_else g.0.last 0)))
  pub target_kept : g.0.target ≡ f.target
  pub server_kept : g.0.server ≡ f.server
  pub read_bound : or_else (cursor start g.0.told) 0 ≤ f.server

read_page-Reads :
    (start : Option ℕ) (ns : List ℕ) (m : ℕ) (f : Feed)
    → is_chained start f.told ≡ true
    → f.last ≡ some m
    → cursor start f.told ≡ some m
    → m ≤ f.server
    → All (λ n. n ≤ f.server) ns
    → Reads start f (read_page ns (suc m) f)
unfolding read_page
read_page-Reads start [] m f h l c b a = record {
  read_chained = h;
  read_last = l ∙ sym c;
  read_some = ap is_some_b l;
  read_next = inr (ap (λ o. some (suc (or_else o 0))) (sym l));
  target_kept = refl;
  server_kept = refl;
  read_bound = omega (arith, ap (λ o. or_else o 0) c);
}
read_page-Reads start (n ∷ ns) m f h l c b a =
    let g = record f { last = some n; told = event n ∷ f.told } in
    elim (Bool-cases (n == suc m)) [
      | inl e ↦
          let r =
            read_page-Reads start ns (suc m) g (ground arith) (ground arith) (ground arith)
              (ground (arith, a.0)) a.1 in
          subst (Reads start f)
            (sym (ap (λ t. if t then read_page ns (suc (suc m)) g else (f, none)) e))
            (record {
              read_chained = r.read_chained;
              read_last = r.read_last;
              read_some = r.read_some;
              read_next = r.read_next;
              target_kept = r.target_kept;
              server_kept = r.server_kept;
              read_bound = r.read_bound;
            })
      | inr e ↦
          subst (Reads start f)
            (sym (ap (λ t. if t then read_page ns (suc (suc m)) g else (f, none)) e))
            (record {
              read_chained = h;
              read_last = l ∙ sym c;
              read_some = ap is_some_b l;
              read_next = inl refl;
              target_kept = refl;
              server_kept = refl;
              read_bound = omega (arith, ap (λ o. or_else o 0) c);
            })
    ]

-- The lines behind the loop keep the place.
behind_page-IsSound :
    (start : Option ℕ) (empty : Bool) (next : ℕ) (has_more : Bool) (observed : ℕ) (f : Feed)
    (g : Feed × Option ℕ)
    → is_some_b f.target ≡ true
    → Reads start f g
    → IsSound start (behind_page empty next has_more observed g)
behind_page-IsSound start empty next has_more observed f (g, none) t r = ground arith
behind_page-IsSound start empty next has_more observed f (g, some e) t r = ground arith

-- What the page of a recovery leaves.
paging-Reads :
    (start : Option ℕ) (cur expected obs : ℕ) (events : List ℕ) (f : Feed)
    → f.work ≡ paging cur expected obs
    → All (λ n. n ≤ f.server) events
    → IsSound start f
    → Reads start f (read_page events expected f)
paging-Reads start cur expected obs events f e a h =
    let p = subst (λ w. IsPlaced f.server w f.last f.target (cursor start f.told)) e h.placed in
    elim (Option-cases (cursor start f.told)) [
      | inl none_there ↦ ground (arith, p, none_there)
      | inr (m, there) ↦
          subst (λ x. Reads start f (read_page events x f)) (ground (arith, p, there))
            (read_page-Reads start events m f h.chained (p.1 ∙ there) there
              (omega (arith, h.bound, ap (λ o. or_else o 0) there)) a)
    ]

pub page_by-IsSound :
    (start : Option ℕ) (w : Work) (events : List ℕ) (next : ℕ) (has_more : Bool) (f : Feed)
    → f.work ≡ w
    → All (λ n. n ≤ f.server) events
    → IsSound start f
    → IsSound start (page_by w events next has_more f)
unfolding page_by
page_by-IsSound start idle events next has_more f e a h = h
page_by-IsSound start (falling_back fl) events next has_more f e a h = h
page_by-IsSound start (snapshots r fl) events next has_more f e a h = h
page_by-IsSound start (paging cur expected obs) events next has_more f e a h =
    behind_page-IsSound start (is_nil events) next has_more obs f (read_page events expected f)
      (subst (λ w. IsPlaced f.server w f.last f.target (cursor start f.told)) e h.placed).0
      (paging-Reads start cur expected obs events f e a h)

pub page_thrown-IsSound :
    (start : Option ℕ) (w : Work) (events : List ℕ) (f : Feed)
    → f.work ≡ w
    → All (λ n. n ≤ f.server) events
    → IsSound start f
    → IsSound start (page_thrown w events f)
unfolding page_thrown
page_thrown-IsSound start idle events f e a h = h
page_thrown-IsSound start (falling_back fl) events f e a h = h
page_thrown-IsSound start (snapshots r fl) events f e a h = h
page_thrown-IsSound start (paging cur expected obs) events f e a h =
    let t = (subst (λ w. IsPlaced f.server w f.last f.target (cursor start f.told)) e h.placed).0 in
    let r = paging-Reads start cur expected obs events f e a h in
    record {
      chained = r.read_chained;
      placed =
          (ap is_some_b r.target_kept ∙ t, r.read_last, omega (arith, r.read_bound, r.server_kept));
      bound = omega (arith, r.read_bound, r.server_kept);
    }
