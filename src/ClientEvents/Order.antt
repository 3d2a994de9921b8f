-- ===== src/ClientEvents/Order.antt =====
-- What listeners are given in order: packages/client/src/index.ts.
use uma_agent.Base.{
  ℕ, suc, ◌≤◌, ◌<◌, ◌≡◌, refl, sym, subst, Bool, true, ◌&&◌, ◌==◌, Option, none, some, List, [],
  ◌∷◌, leb, All, arith,
}
use uma_agent.ClientEvents.{Told, event, snapshot, delta, gave_up}

-- The place that the calls so far leave a listener at, who began at `start`.
abbrev pub cursor : Option ℕ → List Told → Option ℕ
cursor start [] = start
cursor start (event n ∷ told) = some n
cursor start (snapshot n ∷ told) = some n
cursor start (delta ∷ told) = cursor start told
cursor start (gave_up ∷ told) = none

abbrev pub follows : Option ℕ → ℕ → Bool
follows none n = true
follows (some c) n = n == suc c

abbrev pub reaches : Option ℕ → ℕ → Bool
reaches none n = true
reaches (some c) n = leb c n

-- Each event is the next one behind its place, and no snapshot is older than its place.
abbrev pub is_chained : Option ℕ → List Told → Bool
is_chained start [] = true
is_chained start (event n ∷ told) = follows (cursor start told) n && is_chained start told
is_chained start (snapshot n ∷ told) = reaches (cursor start told) n && is_chained start told
is_chained start (delta ∷ told) = is_chained start told
is_chained start (gave_up ∷ told) = is_chained start told

-- The events that were told since a recovery gave up, latest first, or since the beginning.
abbrev pub since : List Told → List ℕ
since [] = []
since (event n ∷ told) = n ∷ since told
since (snapshot n ∷ told) = since told
since (delta ∷ told) = since told
since (gave_up ∷ told) = []

-- Each number is greater than the one behind it.
abbrev pub IsDescending : List ℕ → Type 0
IsDescending [] = Unit {0}
IsDescending (n ∷ ns) = All (λ m. m < n) ns × IsDescending ns

at_most_later : (c d : ℕ) (ns : List ℕ) → c ≤ d → All (λ m. m < suc c) ns → All (λ m. m < suc d) ns
at_most_later c d [] h a = tt
at_most_later c d (n ∷ ns) h a = (omega (arith, a.0), at_most_later c d ns h a.1)

-- The events lie at the place or before it, and there are none while the place is not known.
abbrev pub AtMost : Option ℕ → List ℕ → Type 0
AtMost none ns = ns ≡ []
AtMost (some c) ns = All (λ m. m < suc c) ns

forward :
    (o : Option ℕ) (n : ℕ) (ns : List ℕ)
    → AtMost o ns
    → reaches o n ≡ true
    → All (λ m. m < suc n) ns
forward none n ns a r = subst (All (λ m. m < suc n)) (sym a) tt
forward (some c) n ns a r = at_most_later c n ns (ground arith) a

next_one :
    (o : Option ℕ) (n : ℕ) (ns : List ℕ) → AtMost o ns → follows o n ≡ true → All (λ m. m < n) ns
next_one none n ns a r = subst (All (λ m. m < n)) (sym a) tt
next_one (some c) n ns a r = subst (λ k. All (λ m. m < k) ns) (sym (ground arith)) a

both-true : (x y : Bool) → (x && y) ≡ true → (x ≡ true) × (y ≡ true)
both-true x y h = (ground arith, ground arith)

pub chained-Descending :
    (start : Option ℕ) (told : List Told)
    → is_chained start told ≡ true
    → AtMost (cursor start told) (since told) × IsDescending (since told)
chained-Descending start [] h = (no_events start, tt)
  where
    no_events : (o : Option ℕ) → AtMost o []
    no_events none = refl
    no_events (some c) = tt
chained-Descending start (event n ∷ told) h =
    let (r, k) = both-true (follows (cursor start told) n) (is_chained start told) h in
    let ih = chained-Descending start told k in
    let below = next_one (cursor start told) n (since told) ih.0 r in
    ((omega arith, lower n (since told) below), (below, ih.1))
  where
    lower : (n : ℕ) (ns : List ℕ) → All (λ m. m < n) ns → All (λ m. m < suc n) ns
    lower n [] a = tt
    lower n (m ∷ ns) a = (omega (arith, a.0), lower n ns a.1)
chained-Descending start (snapshot n ∷ told) h =
    let (r, k) = both-true (reaches (cursor start told) n) (is_chained start told) h in
    let ih = chained-Descending start told k in
    (forward (cursor start told) n (since told) ih.0 r, ih.1)
chained-Descending start (delta ∷ told) h = chained-Descending start told h
chained-Descending start (gave_up ∷ told) h = (refl, tt)
