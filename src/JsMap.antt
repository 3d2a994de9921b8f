-- ===== src/JsMap.antt =====
-- JavaScript's `Map` with string keys: the entries in the order of insertion. `set` of a key that
-- is there replaces its value in place, and of a new key appends it.
use uma_agent.Base.{String, ◌≡◌, ◌≢◌, refl, List, [], ◌∷◌, Option, none, some, ite, arith, same}

module _ {ℓ} {V : Type ℓ} where
  unfoldable pub get : String → List (String × V) → Option V
  get k [] = none
  get k ((j, v) ∷ m) = ite (same j k) (some v) (get k m)

  unfoldable pub put : String → V → List (String × V) → List (String × V)
  put k v [] = (k, v) ∷ []
  put k v ((j, w) ∷ m) = ite (same j k) ((j, v) ∷ m) ((j, w) ∷ put k v m)

  unfoldable pub delete : String → List (String × V) → List (String × V)
  delete k [] = []
  delete k ((j, v) ∷ m) = let rest = delete k m in ite (same j k) rest ((j, v) ∷ rest)

  unfoldable pub values : List (String × V) → List V
  values [] = []
  values ((j, v) ∷ m) = v ∷ values m

  pub get-put :
      (k j : String) (v : V) (m : List (String × V))
      → get j (put k v m) ≡ ite (same k j) (some v) (get j m)
  unfolding get put
  get-put k j v [] = refl
  get-put k j v ((i, w) ∷ m) = ground (arith, get-put k j v m)

  pub get-delete :
      (k j : String) (m : List (String × V)) → get j (delete k m) ≡ ite (same k j) none (get j m)
  unfolding get delete
  get-delete k j [] = ground arith
  get-delete k j ((i, w) ∷ m) = ground (arith, get-delete k j m)

  pub get-put_self : (k : String) (v : V) (m : List (String × V)) → get k (put k v m) ≡ some v
  get-put_self k v m = ground (arith, get-put k k v m)

  pub get-put_ne :
      (k j : String) (v : V) (m : List (String × V)) → k ≢ j → get j (put k v m) ≡ get j m
  get-put_ne k j v m h = ground (arith, get-put k j v m)
