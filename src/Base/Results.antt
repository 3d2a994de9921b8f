-- ===== src/Base/Results.antt =====
-- What a function that may throw returns: its value, or the message of the error.
use Prim.Native.String.{String}
use mathlib.Core.Path.{◌≡◌, refl}

pub data Result {ℓ} (V : Type ℓ) : Type ℓ where
  err : String → Result V
  ok : V → Result V

module _ {ℓ κ} {V : Type ℓ} {W : Type κ} where
  infixl 5 ◌>>=◌
  -- What follows a call that may throw.
  abbrev pub ◌>>=◌ : Result V → (V → Result W) → Result W
  err message >>= go = err message
  ok v >>= go = go v

  pub >>=-eq-ok :
      (r : Result V) (go : V → Result W) {w : W}
      → (r >>= go) ≡ ok w
      → (v : V) × (r ≡ ok v) × (go v ≡ ok w)
  >>=-eq-ok (err message) go e = cc
  >>=-eq-ok (ok v) go e = (v, refl, e)
