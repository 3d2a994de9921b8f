-- ===== src/ClientEvents/Places.antt =====
-- The place of a session's listeners in each state: packages/client/src/index.ts.
use uma_agent.Base.{
  ℕ, suc, ◌≤◌, ◌≡◌, inl, inr, refl, sym, subst, ap, true, Option, none, some, if◌then◌else◌, max,
  is_some_b, or_else, arith, Bool-cases,
}
use uma_agent.ClientEvents.Order.{cursor, is_chained}
use uma_agent.ClientEvents.{
  Work, idle, paging, falling_back, snapshots, Feed, subscribed, dispatch_behind, dispatch_by,
  snapshot_by, recover_snapshot, open_socket,
}

-- What the variables of a session are at each await, with the place of its listeners.
abbrev pub IsPlaced : ℕ → Work → Option ℕ → Option ℕ → Option ℕ → Type 0
IsPlaced server idle last target place = (target ≡ none) × (last ≡ place)
IsPlaced server (paging c expected observed) last target place =
    (is_some_b target ≡ true)
    × (last ≡ place)
    × (is_some_b place ≡ true)
    × (expected ≡ suc (or_else place 0))
IsPlaced server (falling_back floor) last target place =
    (is_some_b target ≡ true) × (last ≡ place) × (or_else place 0 ≤ floor)
IsPlaced server (snapshots requested floor) last target place =
    (is_some_b target ≡ true)
    × (requested ≤ or_else target 0)
    × (or_else target 0 ≤ server)
    × (requested ≤ floor)
    × (floor ≤ server)
    × (or_else place 0 ≤ floor)

pub record IsSound (start : Option ℕ) (f : Feed) : Type 0 where
  pub chained : is_chained start f.told ≡ true
  pub placed : IsPlaced f.server f.work f.last f.target (cursor start f.told)
  pub bound : or_else (cursor start f.told) 0 ≤ f.server

pub subscribed-IsSound :
    (start : Option ℕ) (server : ℕ)
    → or_else start 0 ≤ server
    → IsSound start (subscribed start server)
subscribed-IsSound start server b = record { chained = refl; placed = (refl, refl); bound = b }

pub IsPlaced-later :
    (server : ℕ) (w : Work) (l t c : Option ℕ)
    → IsPlaced server w l t c
    → IsPlaced (suc server) w l t c
IsPlaced-later server idle l t c h = h
IsPlaced-later server (paging cur e o) l t c h = h
IsPlaced-later server (falling_back fl) l t c h = h
IsPlaced-later server (snapshots r fl) l t c h = ground arith

behind-IsSound :
    (start o : Option ℕ) (n : ℕ) (f : Feed)
    → f.last ≡ o
    → f.last ≡ cursor start f.told
    → f.target ≡ none
    → f.work ≡ idle
    → is_chained start f.told ≡ true
    → or_else (cursor start f.told) 0 ≤ f.server
    → n ≤ f.server
    → IsSound start (dispatch_behind o n f)
behind-IsSound start none n f e c t w h b a = ground arith
behind-IsSound start (some p) n f e c t w h b a = ground arith

-- Without a target no recovery runs; with one, the target may rise up to the server's sequence.
rests : (server : ℕ) (w : Work) (l c : Option ℕ) → IsPlaced server w l none c → (w ≡ idle) × (l ≡ c)
rests server idle l c h = (refl, h.1)
rests server (paging cur e o) l c h = ground arith
rests server (falling_back fl) l c h = ground arith
rests server (snapshots r fl) l c h = ground arith

rises :
    (server : ℕ) (w : Work) (l c : Option ℕ) (k n : ℕ)
    → n ≤ server
    → IsPlaced server w l (some k) c
    → IsPlaced server w l (some (max k n)) c
rises server idle l c k n b h = ground arith
rises server (paging cur e o) l c k n b h = (refl, h.1, h.2, h.3)
rises server (falling_back fl) l c k n b h = (refl, h.1, h.2)
rises server (snapshots r fl) l c k n b h =
    (refl, omega (arith, h.1), omega (arith, h.2, b), h.3, h.4, h.5)

pub dispatch_by-IsSound :
    (start o : Option ℕ) (n : ℕ) (f : Feed)
    → n ≤ f.server
    → f.target ≡ o
    → IsSound start f
    → IsSound start (dispatch_by o n f)
dispatch_by-IsSound start none n f b e h =
    let r =
      rests f.server f.work f.last (cursor start f.told)
        (subst (λ t. IsPlaced f.server f.work f.last t (cursor start f.told)) e h.placed) in
    behind-IsSound start f.last n f refl r.1 e r.0 h.chained h.bound b
dispatch_by-IsSound start (some k) n f b e h = record {
  chained = h.chained;
  placed =
      rises f.server f.work f.last (cursor start f.told) k n b
        (subst (λ t. IsPlaced f.server f.work f.last t (cursor start f.told)) e h.placed);
  bound = h.bound;
}

snapshot_by-IsSound :
    (start o : Option ℕ) (f : Feed)
    → f.target ≡ o
    → IsSound start f
    → IsSound start (snapshot_by o 0 f)
snapshot_by-IsSound start none f e h = record {
  chained = h.chained;
  placed = (refl, omega arith, omega arith, omega arith, omega arith, h.bound);
  bound = h.bound;
}
snapshot_by-IsSound start (some k) f e h = record {
  chained = h.chained;
  placed =
      rises f.server f.work f.last (cursor start f.told) k 0 (omega arith)
        (subst (λ t. IsPlaced f.server f.work f.last t (cursor start f.told)) e h.placed);
  bound = h.bound;
}

pub open-IsSound : (start : Option ℕ) (f : Feed) → IsSound start f → IsSound start (open_socket f)
unfolding open_socket recover_snapshot
open-IsSound start f h = elim (Bool-cases (is_some_b f.last)) [
  | inl e ↦ subst (IsSound start) (sym (ap (λ t. if t then f else snapshot_by f.target 0 f) e)) h
  | inr e ↦
      subst (IsSound start) (sym (ap (λ t. if t then f else snapshot_by f.target 0 f) e))
        (snapshot_by-IsSound start f.target f refl h)
]
