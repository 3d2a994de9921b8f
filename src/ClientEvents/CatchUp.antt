-- ===== src/ClientEvents/CatchUp.antt =====
-- That a recovery catches up with the server: `recoverEvents` of packages/client/src/index.ts.
use uma_agent.Base.{
  ℕ, zero, suc, ◌+◌, ◌≤◌, ◌≡◌, refl, ap, ◌∙◌, Bool, false, none, some, List, [], ◌∷◌, or_else,
  arith,
}
use uma_agent.ClientEvents.{
  Told, event, idle, paging, Feed, finish, read_page, is_nil, behind_page, page_by, take_page,
}

-- The `k` numbers behind `m`.
abbrev pub behind : ℕ → ℕ → List ℕ
behind m zero = []
behind m (suc k) = suc m ∷ behind (suc m) k

-- The events of the numbers, put on what was told.
abbrev pub tell : List ℕ → List Told → List Told
tell [] told = told
tell (n ∷ ns) told = tell ns (event n ∷ told)

read_behind :
    (k m : ℕ) (f : Feed)
    → f.last ≡ some m
    → read_page (behind m k) (suc m) f
      ≡ (record f { last = some (m + k); told = tell (behind m k) f.told }, some (suc (m + k)))
unfolding read_page
read_behind zero m f e = ground arith
read_behind (suc k) m f e =
    let g = record f { last = some (suc m); told = event (suc m) ∷ f.told } in
    ground (arith, read_behind k (suc m) g refl)

ends :
    (empty : Bool) (f : Feed) (next observed expected : ℕ)
    → observed ≤ next
    → or_else f.target observed ≤ next
    → behind_page empty next false observed (f, some expected) ≡ finish f
ends empty f next observed expected a b = ground arith

-- When a recovery at the place `m` is answered with the `k` events behind it, as the last page there
-- is, and these reach what the recovery has heard of, it ends: the listeners are given exactly these
-- events in order, and the place is behind them.
pub recovery_catches_up :
    (cursor m k observed : ℕ) (f : Feed)
    → f.work ≡ paging cursor (suc m) observed
    → f.last ≡ some m
    → observed ≤ m + k
    → or_else f.target observed ≤ m + k
    → take_page (behind m k) (m + k) false f ≡ record f {
      last = some (m + k);
      target = none;
      work = idle;
      told = tell (behind m k) f.told;
    }
unfolding take_page page_by
recovery_catches_up cursor m k observed f w l a b =
    ap (λ v. page_by v (behind m k) (m + k) false f) w
    ∙ ap (behind_page (is_nil (behind m k)) (m + k) false observed) (read_behind k m f l)
    ∙ ends (is_nil (behind m k)) (record f { last = some (m + k); told = tell (behind m k) f.told })
        (m + k) observed (suc (m + k)) a b
