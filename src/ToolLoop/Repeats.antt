-- ===== src/ToolLoop/Repeats.antt =====
-- How often a call was made, and when the guard stops it.
use uma_agent.Base.{
  ◌+◌, ◌≤◌, ◌<◌, String, ◌≡◌, refl, false, List, [], ◌∷◌, ◌++◌, Option, some, arith, length,
  length-append, length-select-append,
}
use uma_agent.ToolLoop.{
  ToolRecord, ToolLoopGuard, critical, repeat, judge, repeat_count, has_signature, has_key, trim,
  check, signature_of,
}

-- The state after one call for each of the keys, all with one tool and one input.
unfoldable pub check_all :
    {V : Type 0} → (V → String) → String → V → List String → ToolLoopGuard → ToolLoopGuard
check_all digest tool args [] g = g
check_all digest tool args (k ∷ ks) g = check_all digest tool args ks (check digest tool args k g).0

-- The keys are new to the guard, and distinct.
abbrev pub Fresh : List String → List String → Type 0
Fresh [] old = Unit {0}
Fresh (k ∷ ks) old = (has_key k old ≡ false) × Fresh ks (old ++ k ∷ [])

repeat_count-append :
    (sig : String) (rs : List ToolRecord) (r : ToolRecord)
    → r.signature ≡ sig
    → repeat_count sig (rs ++ r ∷ []) ≡ repeat_count sig rs + 1
unfolding repeat_count
repeat_count-append sig rs r e =
    ground (arith, length-select-append (has_signature sig) rs (r ∷ []))

trim_short : (rs : List ToolRecord) → length rs ≤ 64 → trim rs ≡ rs
unfolding trim
trim_short rs h = ground arith

module _ {V : Type 0} (digest : V → String) (tool : String) (args : V) where
  abbrev sig : String
  sig = signature_of digest tool args

  abbrev call : String → ToolRecord
  call key = record { idempotency_key = key; signature = sig; result = Option.none }

  check_fresh :
      (key : String) (g : ToolLoopGuard)
      → has_key key g.keys ≡ false
      → length g.records < 64
      → check digest tool args key g ≡ (
        record { records = g.records ++ call key ∷ []; keys = g.keys ++ key ∷ [] },
        judge sig (g.records ++ call key ∷ []),
      )
  unfolding check
  check_fresh key g new room =
      let t : trim (g.records ++ call key ∷ []) ≡ g.records ++ call key ∷ [] =
        trim_short _ (omega (arith, length-append g.records (call key ∷ []))) in
      rw (new, t)

  check_all-count :
      (ks : List String) (g : ToolLoopGuard)
      → Fresh ks g.keys
      → length g.records + length ks ≤ 64
      → (repeat_count sig (check_all digest tool args ks g).records
          ≡ repeat_count sig g.records + length ks)
        × (length (check_all digest tool args ks g).records ≡ length g.records + length ks)
  unfolding check_all
  check_all-count [] g f room = (omega arith, omega arith)
  check_all-count (k ∷ ks) g f room =
      let e = check_fresh k g f.0 (omega arith) in
      let g' : ToolLoopGuard = record {
        records = g.records ++ call k ∷ [];
        keys = g.keys ++ k ∷ [];
      } in
      let l = length-append g.records (call k ∷ []) in
      let ih = check_all-count ks g' f.1 (omega (arith, l)) in
      rw (e, check_all)
        (
          omega (arith, ih.0, repeat_count-append sig g.records (call k) refl),
          omega (arith, ih.1, l),
        )

  -- Six calls with the same tool and input and with new keys, from any guard that has room for
  -- them: the last is answered by a critical decision, whatever was recorded before, and its count
  -- is that of all such calls in the window.
  pub sixth_repeat_stops :
      (ks : List String) (key : String) (g : ToolLoopGuard)
      → Fresh ks g.keys
      → 5 ≤ length ks
      → length g.records + length ks < 64
      → has_key key (check_all digest tool args ks g).keys ≡ false
      → (check digest tool args key (check_all digest tool args ks g)).1
        ≡ some (record {
          level = critical;
          pattern_ = repeat;
          count = repeat_count sig g.records + length ks + 1;
          signature = sig;
        })
  unfolding judge
  sixth_repeat_stops ks key g f many room new =
      let h = check_all digest tool args ks g in
      let c = check_all-count ks g f (omega arith) in
      let n = repeat_count-append sig h.records (call key) refl in
      let n' : repeat_count sig (h.records ++ call key ∷ [])
          ≡ repeat_count sig g.records + length ks + 1 =
        omega (arith, n, c.0) in
      rw (check_fresh key h new (omega (arith, c.1))) (ground (arith, n'))
