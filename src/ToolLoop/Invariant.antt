-- ===== src/ToolLoop/Invariant.antt =====
-- The guard's records and keys after any calls.
use uma_agent.Base.{
  ℕ, zero, suc, ◌+◌, ◌≤◌, String, ◌≡◌, ◌≢◌, refl, ap, ◌∙◌, Bool, true, false, List, [], ◌∷◌, ◌++◌,
  some, none, map, ite, arith, Bool-cases, inl, inr, ltb, length, length-append, length-drop, sym,
  drop, same, All, All-append, All-map, All-drop, max,
}
use uma_agent.ToolLoop.{
  ToolRecord, ToolLoopGuard, RunAction, has_key, trim, check, signature_of, write_last, mark,
  record_result, restore, restore_all, new_guard, empty_guard, digest_of,
}

-- Distinct keys, oldest first.
abbrev pub Distinct : List ToolRecord → Type 0
Distinct [] = Unit {0}
Distinct (r ∷ rs) = All (λ x. x.idempotency_key ≢ r.idempotency_key) rs × Distinct rs

-- Each record's key is in `keys`, and no two records have one key.
pub record IsValid (g : ToolLoopGuard) : Type 0 where
  pub known : All (λ r. has_key r.idempotency_key g.keys ≡ true) g.records
  pub distinct : Distinct g.records

has_key-append_left :
    (k j : String) (ks : List String) → has_key k ks ≡ true → has_key k (ks ++ j ∷ []) ≡ true
has_key-append_left k j [] h = cc
has_key-append_left k j (i ∷ ks) h = ground (arith, has_key-append_left k j ks)

has_key-append_self : (k : String) (ks : List String) → has_key k (ks ++ k ∷ []) ≡ true
has_key-append_self k [] = ground arith
has_key-append_self k (i ∷ ks) = ground (arith, has_key-append_self k ks)

Distinct-append :
    (rs : List ToolRecord) (r : ToolRecord)
    → Distinct rs
    → All (λ x. r.idempotency_key ≢ x.idempotency_key) rs
    → Distinct (rs ++ r ∷ [])
Distinct-append [] r d h = (tt, tt)
Distinct-append (x ∷ rs) r d h =
    (All-append _ rs (r ∷ []) d.0 (h.0, tt), Distinct-append rs r d.1 h.1)

Distinct-drop : (n : ℕ) (rs : List ToolRecord) → Distinct rs → Distinct (drop n rs)
Distinct-drop zero rs d = d
Distinct-drop (suc n) [] d = d
Distinct-drop (suc n) (r ∷ rs) d = Distinct-drop n rs d.1

append-IsValid :
    (g : ToolLoopGuard) (r : ToolRecord)
    → has_key r.idempotency_key g.keys ≡ false
    → IsValid g
    → IsValid (record { records = g.records ++ r ∷ []; keys = g.keys ++ r.idempotency_key ∷ [] })
append-IsValid g r new v = record {
  known =
      All-append _ g.records (r ∷ [])
        (All-map _ _ (λ x h. has_key-append_left x.idempotency_key r.idempotency_key g.keys h)
          g.records v.known)
        (has_key-append_self r.idempotency_key g.keys, tt);
  distinct =
      Distinct-append g.records r v.distinct (All-map _ _ (λ x h e. clash x h e) g.records v.known);
}
  where
    clash :
        (x : ToolRecord)
        → has_key x.idempotency_key g.keys ≡ true
        → r.idempotency_key ≡ x.idempotency_key
        → ⊥
    clash x h e = cc (new, h, ap (λ k. has_key k g.keys) e)

trim-IsValid :
    (rs : List ToolRecord) (ks : List String)
    → IsValid (record { records = rs; keys = ks })
    → IsValid (record { records = trim rs; keys = ks })
unfolding trim
trim-IsValid rs ks v = elim (Bool-cases (ltb 64 (length rs))) [
  | inl long ↦
      rw long (record { known = All-drop _ 1 rs v.known; distinct = Distinct-drop 1 rs v.distinct })
  | inr short ↦ rw short v
]

-- A write by key is a write to each record that has the key.
abbrev pub put_result : String → String → ToolRecord → ToolRecord
put_result key text r = ite (same r.idempotency_key key) (record r { result = some text }) r

write_last-absent :
    (key text : String) (rs : List ToolRecord)
    → All (λ x. x.idempotency_key ≢ key) rs
    → write_last key text rs ≡ (rs, false)
unfolding write_last
write_last-absent key text [] h = refl
write_last-absent key text (r ∷ rs) h = rw (write_last-absent key text rs h.1) (ground (arith, h.0))

write_last-eq-map :
    (key text : String) (rs : List ToolRecord)
    → Distinct rs
    → (write_last key text rs).0 ≡ map (put_result key text) rs
unfolding write_last
write_last-eq-map key text [] d = refl
write_last-eq-map key text (r ∷ rs) d = elim (same r.idempotency_key key) as (λ _. goal) [
  | yes p ↦ hit p
  | no q ↦ miss q (write_last key text rs) (write_last-eq-map key text rs d.1)
]
  where
    goal : Type 0
    goal =
        (mark key text r (write_last key text rs)).0
        ≡ put_result key text r ∷ map (put_result key text) rs

    others : r.idempotency_key ≡ key → All (λ x. x.idempotency_key ≢ key) rs
    others p = All-map _ _ (λ x n e. n (e ∙ sym p)) rs d.0

    map_absent :
        (xs : List ToolRecord)
        → All (λ x. x.idempotency_key ≢ key) xs
        → map (put_result key text) xs ≡ xs
    map_absent [] h = refl
    map_absent (x ∷ xs) h = ground (arith, map_absent xs h.1, h.0)

    hit : r.idempotency_key ≡ key → goal
    hit p = rw (write_last-absent key text rs (others p)) (ground (arith, map_absent rs (others p)))

    miss :
        r.idempotency_key ≢ key
        → (w : List ToolRecord × Bool) → w.0 ≡ map (put_result key text) rs
        → (mark key text r w).0 ≡ put_result key text r ∷ map (put_result key text) rs
    miss q (ws, true) e = ground arith
    miss q (ws, false) e = ground arith

keys-map :
    (key text : String) (r : ToolRecord)
    → (put_result key text r).idempotency_key ≡ r.idempotency_key
keys-map key text r = ground arith

All-put_result :
    (P : String → Type 0) (key text : String) (rs : List ToolRecord)
    → All (λ r. P r.idempotency_key) rs
    → All (λ r. P r.idempotency_key) (map (put_result key text) rs)
All-put_result P key text [] h = tt
All-put_result P key text (r ∷ rs) h =
    (rw (keys-map key text r) h.0, All-put_result P key text rs h.1)

Distinct-put_result :
    (key text : String) (rs : List ToolRecord)
    → Distinct rs
    → Distinct (map (put_result key text) rs)
Distinct-put_result key text [] d = tt
Distinct-put_result key text (r ∷ rs) d = (
  rw (keys-map key text r) (All-put_result (λ k. k ≢ r.idempotency_key) key text rs d.0),
  Distinct-put_result key text rs d.1,
)

length-write_last :
    (key text : String) (rs : List ToolRecord) → length (write_last key text rs).0 ≡ length rs
unfolding write_last
length-write_last key text [] = refl
length-write_last key text (r ∷ rs) =
    marked (write_last key text rs) (length-write_last key text rs)
  where
    marked :
        (w : List ToolRecord × Bool)
        → length w.0 ≡ length rs
        → length (mark key text r w).0 ≡ suc (length rs)
    marked (ws, true) e = ground arith
    marked (ws, false) e = ground arith

-- What the runtime does with a guard.
pub data Op (V : Type 0) : Type 0 where
  calls : String → V → String → Op V
  returns : String → V → Op V

module _ {V : Type 0} (digest : V → String) where
  check-IsValid :
      (tool : String) (args : V) (key : String) (g : ToolLoopGuard)
      → IsValid g
      → IsValid (check digest tool args key g).0
  unfolding check
  check-IsValid tool args key g v = elim (Bool-cases (has_key key g.keys)) [
    | inl seen ↦ rw seen v
    | inr new ↦ rw new (trim-IsValid _ _ (append-IsValid g _ new v))
  ]

  record_result-IsValid :
      (key : String) (value : V) (g : ToolLoopGuard)
      → IsValid g
      → IsValid (record_result digest key value g)
  unfolding record_result
  record_result-IsValid key value g v =
      rw (write_last-eq-map key (digest value) g.records v.distinct) (record {
        known = All-put_result (λ k. has_key k g.keys ≡ true) key (digest value) g.records v.known;
        distinct = Distinct-put_result key (digest value) g.records v.distinct;
      })

  restore-IsValid : (a : RunAction V) (g : ToolLoopGuard) → IsValid g → IsValid (restore digest a g)
  unfolding restore
  restore-IsValid a g v = elim (Bool-cases (has_key a.idempotency_key g.keys)) [
    | inl seen ↦ rw seen v
    | inr new ↦ rw new (append-IsValid g _ new v)
  ]

  restore_all-IsValid :
      (xs : List (RunAction V)) (g : ToolLoopGuard) → IsValid g → IsValid (restore_all digest xs g)
  unfolding restore_all
  restore_all-IsValid [] g v = v
  restore_all-IsValid (a ∷ xs) g v =
      restore_all-IsValid xs (restore digest a g) (restore-IsValid a g v)

  length-restore_all :
      (xs : List (RunAction V)) (g : ToolLoopGuard)
      → length (restore_all digest xs g).records ≤ length g.records + length xs
  unfolding restore_all restore
  length-restore_all [] g = omega arith
  length-restore_all (a ∷ xs) g =
      let ih = length-restore_all xs (restore digest a g) in
      let one : length (restore digest a g).records ≤ length g.records + 1 = ground (
        arith,
        length-append g.records (
            record {
              idempotency_key = a.idempotency_key;
              signature = signature_of digest a.tool_name a.input;
              result = digest_of digest a.result;
            }
            ∷ []),
      ) in
      omega (arith, ih, one)

  length-check :
      (tool : String) (args : V) (key : String) (g : ToolLoopGuard) (n : ℕ)
      → length g.records ≤ max 64 n
      → length (check digest tool args key g).0.records ≤ max 64 n
  unfolding check trim
  length-check tool args key g n h =
      let new : ToolRecord = record {
        idempotency_key = key;
        signature = signature_of digest tool args;
        result = none;
      } in
      ground (arith, length-append g.records (new ∷ []), length-drop 1 (g.records ++ new ∷ []))

  unfoldable pub step : Op V → ToolLoopGuard → ToolLoopGuard
  step (calls tool args key) g = (check digest tool args key g).0
  step (returns key value) g = record_result digest key value g

  unfoldable pub run : List (Op V) → ToolLoopGuard → ToolLoopGuard
  run [] g = g
  run (o ∷ os) g = run os (step o g)

  run-IsValid : (os : List (Op V)) (g : ToolLoopGuard) → IsValid g → IsValid (run os g)
  unfolding run step
  run-IsValid [] g v = v
  run-IsValid (calls tool args key ∷ os) g v = run-IsValid os _ (check-IsValid tool args key g v)
  run-IsValid (returns key value ∷ os) g v = run-IsValid os _ (record_result-IsValid key value g v)

  run-length :
      (os : List (Op V)) (g : ToolLoopGuard) (n : ℕ)
      → length g.records ≤ max 64 n
      → length (run os g).records ≤ max 64 n
  unfolding run step record_result
  run-length [] g n h = h
  run-length (calls tool args key ∷ os) g n h = run-length os _ n (length-check tool args key g n h)
  run-length (returns key value ∷ os) g n h =
      run-length os (record_result digest key value g) n
        (rw (length-write_last key (digest value) g.records) h)

  -- A guard restored from any actions and put through any calls and results holds records with
  -- distinct keys that are all among its keys, and at most 64 of them, or as many as the actions
  -- that it was restored from where those are more.
  pub run-new_guard :
      (actions : List (RunAction V)) (os : List (Op V))
      → IsValid (run os (new_guard digest actions))
        × (length (run os (new_guard digest actions)).records ≤ max 64 (length actions))
  unfolding new_guard
  run-new_guard actions os = (
    run-IsValid os _
        (restore_all-IsValid actions empty_guard (record { known = tt; distinct = tt })),
    run-length os _ (length actions) (omega (arith, length-restore_all actions empty_guard)),
  )

  -- A call whose key has been checked before is not counted again, whatever its tool and input, and
  -- gets no decision: also right after the check that saw it first.
  pub check_again :
      (tool tool' : String) (args args' : V) (key : String) (g : ToolLoopGuard)
      → check digest tool' args' key (check digest tool args key g).0
        ≡ ((check digest tool args key g).0, none)
  unfolding check
  check_again tool tool' args args' key g = elim (Bool-cases (has_key key g.keys)) [
    | inl seen ↦ rw (seen, seen)
    | inr new ↦ rw (new, has_key-append_self key g.keys)
  ]

  -- In a valid guard a result is written to the one record with its key, and every other record
  -- stays as it is.
  pub record_result_lem :
      (key : String) (value : V) (g : ToolLoopGuard)
      → IsValid g
      → record_result digest key value g
        ≡ record g { records = map (put_result key (digest value)) g.records }
  unfolding record_result
  record_result_lem key value g v = rw (write_last-eq-map key (digest value) g.records v.distinct)
