-- ===== src/Base/Texts.antt =====
-- Texts as lists of code units, where the code takes them apart.
use Prim.Native.Nat.{ℕ}
use mathlib.Core.Path.{◌≡◌, refl, ap₂}
use mathlib.Core.Bool.{Bool, true, false, ◌&&◌}
use mathlib.Core.List.{List, [], ◌∷◌}
use native.Mathlib.Omega.{arith}
use uma_agent.Base.Tests.{◌==◌, is_space, if◌then◌else◌}

abbrev pub Text : Type 0
Text = List ℕ

unfoldable pub same_text : Text → Text → Bool
same_text [] [] = true
same_text (c ∷ t) (d ∷ u) = c == d && same_text t u
same_text _ _ = false

unfoldable pub drop_spaces : Text → Text
drop_spaces [] = []
drop_spaces (c ∷ t) = let rest = drop_spaces t in if is_space c then rest else c ∷ t

unfoldable pub backwards : Text → Text → Text
backwards [] acc = acc
backwards (c ∷ t) acc = backwards t (c ∷ acc)

unfoldable pub trim : Text → Text
unfolding drop_spaces backwards
trim t = backwards (drop_spaces (backwards (drop_spaces t) [])) []

unfoldable pub split_after : ℕ → Text → Text × List Text
split_after sep [] = ([], [])
split_after sep (c ∷ t) =
    let rest = split_after sep t in if c == sep then ([], rest.0 ∷ rest.1) else (c ∷ rest.0, rest.1)

-- `t.split(sep)` for one code unit.
unfoldable pub split : ℕ → Text → List Text
unfolding split_after
split sep t = let parts = split_after sep t in parts.0 ∷ parts.1

pub same_text_self : (t : Text) → same_text t t ≡ true
unfolding same_text
same_text_self [] = refl
same_text_self (c ∷ t) = ground (arith, same_text_self t)

pub same_text_sound : (t u : Text) → same_text t u ≡ true → t ≡ u
unfolding same_text
same_text_sound [] [] h = refl
same_text_sound [] (d ∷ u) h = ground arith
same_text_sound (c ∷ t) [] h = ground arith
same_text_sound (c ∷ t) (d ∷ u) h = ap₂ (◌∷◌) (ground arith) (same_text_sound t u (ground arith))
