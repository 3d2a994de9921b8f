-- ===== src/Base/Tests.antt =====
-- Boolean tests on numbers and texts, and the conditional.
use Prim.Native.Nat.{ℕ, compare, Ordering}
use Prim.Native.String.{String}
use mathlib.Core.Path.{◌≡◌, refl}
use mathlib.Core.Logic.{◌⊎◌, inl, inr}
use mathlib.Core.Bool.{Bool, true, false, ◌&&◌, ◌||◌}
use mathlib.Core.Option.{Option, none, some}
use text.Mathlib.Text.{◌==◌ as text_eq}
use text.Mathlib.TextEquality.{eq_iff}
use native.Mathlib.Omega.{arith}

abbrev pub ltb : ℕ → ℕ → Bool
ltb a b = elim (compare a b) [ Ordering.lt ↦ true | _ ↦ false ]

abbrev pub leb : ℕ → ℕ → Bool
leb a b = elim (compare a b) [ Ordering.gt ↦ false | _ ↦ true ]

infix 50 ◌==◌
abbrev pub ◌==◌ : ℕ → ℕ → Bool
a == b = elim (compare a b) [ Ordering.eq ↦ true | _ ↦ false ]

infix 1 if◌then◌else◌
abbrev pub if◌then◌else◌ {ℓ} : {A : Type ℓ} → Bool → A → A → A
if true then x else y = x
if false then x else y = y

pub Bool-cases : (b : Bool) → (b ≡ true) ⊎ (b ≡ false)
Bool-cases true = inl refl
Bool-cases false = inr refl

pub Option-cases {ℓ} : {A : Type ℓ} (o : Option A) → (o ≡ none) ⊎ ((a : A) × (o ≡ some a))
Option-cases none = inl refl
Option-cases (some a) = inr (a, refl)

-- `===` on strings, as a decision: the branch that it selects knows the equation.
text_dec : (a b : String) (t : Bool) → text_eq a b ≡ t → Dec (a ≡ b)
text_dec a b true e = yes ((eq_iff a b).0 e)
text_dec a b false e = no (λ p. cc (e, (eq_iff a b).1 p))

unfoldable pub same : (a b : String) → Dec (a ≡ b)
unfolding text_dec
same a b = text_dec a b (text_eq a b) refl

abbrev pub decide_b {ℓ} : {P : Type ℓ} → Dec P → Bool
decide_b (yes p) = true
decide_b (no n) = false

-- `a === b` and `a !== b` as tests.
abbrev pub eqs : String → String → Bool
eqs a b = decide_b (same a b)

pub eqs_self : (a : String) → eqs a a ≡ true
eqs_self a = ground arith

pub eqs_sound : (a b : String) → eqs a b ≡ true → a ≡ b
eqs_sound a b h = ground arith

pub texts_differ : (a b : String) → eqs a b ≡ false → (a ≡ b → ⊥)
texts_differ a b h = ground arith

-- `a ?? b`.
abbrev pub or_else {ℓ} : {A : Type ℓ} → Option A → A → A
or_else none d = d
or_else (some a) d = a

-- `a ?? b ?? null`.
abbrev pub first_of_two {ℓ} : {A : Type ℓ} → Option A → Option A → Option A
first_of_two none d = d
first_of_two (some a) d = some a

abbrev pub is_some_b {ℓ} : {A : Type ℓ} → Option A → Bool
is_some_b none = false
is_some_b (some a) = true

-- The characters that `trim` takes off.
abbrev pub is_space : ℕ → Bool
is_space c =
    (leb 9 c && leb c 13)
    || (c == 32)
    || (c == 160)
    || (c == 0x1680)
    || (leb 0x2000 c && leb c 0x200a)
    || (c == 0x2028)
    || (c == 0x2029)
    || (c == 0x202f)
    || (c == 0x205f)
    || (c == 0x3000)
    || (c == 0xfeff)
