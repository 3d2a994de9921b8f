-- ===== src/Orchestrator/Reorder.antt =====
-- What `reorder` and `prioritize` do to a session's pending entries.
use mathlib.Core.List.{Perm}
use mathlib.Core.List.Perm
use uma_agent.Base.{
  ℕ, suc, ◌+◌, ◌≤◌, String, ◌≡◌, ◌≢◌, refl, ap, sym, subst, ◌∙◌, inl, inr, true, List, [], ◌∷◌,
  ◌++◌, append-nil, append_assoc, Option, none, some, ite, same, arith, Bool-cases, Option-cases,
  ok, length, length-append, All, all,
}
use uma_agent.JsMap.{get, put, delete, values, get-put, get-delete}
use uma_agent.Orchestrator.{
  QueueEntry, splice, has_run, to_front, by_id, is_there, pick, reorder_pending, behind, index_run,
}

-- The entry that `splice` finds, in front of the rest, is a rearrangement of the list.
abbrev Spliced : String → List QueueEntry → Option (QueueEntry × List QueueEntry) → Type 0
Spliced rid es none = Unit
Spliced rid es (some (e, rest)) = Perm (e ∷ rest) es × (has_run rid e ≡ true)

behind-Spliced :
    (rid : String) (x : QueueEntry) (xs : List QueueEntry)
    (w : Option (QueueEntry × List QueueEntry))
    → Spliced rid xs w
    → Spliced rid (x ∷ xs) (behind x w)
behind-Spliced rid x xs none h = tt
behind-Spliced rid x xs (some (e, rest)) h =
    (Perm.trans (Perm.swap x e rest) (Perm.cons x h.0), h.1)

splice-Spliced : (rid : String) (es : List QueueEntry) → Spliced rid es (splice rid es)
unfolding splice
splice-Spliced rid [] = tt
splice-Spliced rid (x ∷ xs) = elim (Bool-cases (has_run rid x)) [
  | inl hit ↦ rw hit (Perm.refl (x ∷ xs), hit)
  | inr miss ↦ rw miss (behind-Spliced rid x xs (splice rid xs) (splice-Spliced rid xs))
]

-- Prioritising a run loses no pending entry and adds none.
pub to_front-perm : (rid : String) (es : List QueueEntry) → Perm (to_front rid es) es
unfolding to_front
to_front-perm rid es = moved (splice rid es) (splice-Spliced rid es)
  where
    moved :
        (w : Option (QueueEntry × List QueueEntry))
        → Spliced rid es w
        → Perm (elim w [ none ↦ es | some (e, rest) ↦ e ∷ rest ]) es
    moved none h = Perm.refl es
    moved (some (e, rest)) h = h.0

-- Distinct keys.
abbrev Keyed : List (String × QueueEntry) → Type 0
Keyed [] = Unit {0}
Keyed ((k, e) ∷ m) = (get k m ≡ none) × Keyed m

put_new :
    (k : String) (e : QueueEntry) (m : List (String × QueueEntry))
    → get k m ≡ none
    → put k e m ≡ m ++ (k, e) ∷ []
unfolding get put
put_new k e [] h = refl
put_new k e ((j, x) ∷ m) h = ground (arith, put_new k e m)

length-put_old :
    (k : String) (e x : QueueEntry) (m : List (String × QueueEntry))
    → get k m ≡ some x
    → length (put k e m) ≡ length m
unfolding get put
length-put_old k e x [] h = cc
length-put_old k e x ((j, y) ∷ m) h = ground (arith, length-put_old k e x m)

Keyed-put :
    (k : String) (e : QueueEntry) (m : List (String × QueueEntry)) → Keyed m → Keyed (put k e m)
unfolding get put
Keyed-put k e [] h = (refl, tt)
Keyed-put k e ((j, x) ∷ m) h = ground (arith, Keyed-put k e m, get-put k j e m)

length-put_le :
    (k : String) (e : QueueEntry) (m : List (String × QueueEntry))
    → length (put k e m) ≤ length m + 1
length-put_le k e m = elim (Option-cases (get k m)) [
  | inl absent ↦ rw (put_new k e m absent) (omega (arith, length-append m ((k, e) ∷ [])))
  | inr (x, there) ↦ omega (arith, length-put_old k e x m there)
]

Keyed-by_id : (es : List QueueEntry) (m : List (String × QueueEntry)) → Keyed m → Keyed (by_id es m)
unfolding by_id
Keyed-by_id [] m h = h
Keyed-by_id (e ∷ es) m h = Keyed-by_id es (index_run e e.run_id m) (added e.run_id)
  where
    added : (r : Option String) → Keyed (index_run e r m)
    added none = h
    added (some k) = Keyed-put k e m h

length-by_id_le :
    (es : List QueueEntry) (m : List (String × QueueEntry))
    → length (by_id es m) ≤ length m + length es
unfolding by_id
length-by_id_le [] m = omega arith
length-by_id_le (e ∷ es) m =
    omega (arith, length-by_id_le es (index_run e e.run_id m), added e.run_id)
  where
    added : (r : Option String) → length (index_run e r m) ≤ length m + 1
    added none = omega arith
    added (some k) = length-put_le k e m

values-append : (m n : List (String × QueueEntry)) → values (m ++ n) ≡ values m ++ values n
unfolding values
values-append [] n = refl
values-append ((k, e) ∷ m) n = ap (◌∷◌ e) (values-append m n)

length-values : (m : List (String × QueueEntry)) → length (values m) ≡ length m
unfolding values
length-values [] = refl
length-values ((k, e) ∷ m) = ap suc (length-values m)

-- The map holds as many entries as the list only if it holds the list.
values-by_id :
    (es : List QueueEntry) (m : List (String × QueueEntry))
    → length (by_id es m) ≡ length m + length es
    → values (by_id es m) ≡ values m ++ es
unfolding by_id values
values-by_id [] m h = sym (append-nil (values m))
values-by_id (e ∷ es) m h =
    let p = appended e.run_id (omega (arith, length-by_id_le es (index_run e e.run_id m))) in
    let l : length (index_run e e.run_id m) ≡ length m + 1 = grown e.run_id p in
    values-by_id es (index_run e e.run_id m) (omega (arith, l))
    ∙ ap (λ v. v ++ es) p
    ∙ append_assoc (values m) (e ∷ []) es
  where
    appended :
        (r : Option String)
        → length m + 1 ≤ length (index_run e r m)
        → values (index_run e r m) ≡ values m ++ e ∷ []
    appended none l = absurd (omega arith)
    appended (some k) l = elim (Option-cases (get k m)) [
      | inl absent ↦ ap values (put_new k e m absent) ∙ values-append m ((k, e) ∷ [])
      | inr (x, there) ↦ absurd (omega (arith, length-put_old k e x m there))
    ]

    grown :
        (r : Option String)
        → values (index_run e r m) ≡ values m ++ e ∷ []
        → length (index_run e r m) ≡ length m + 1
    grown r p = omega (
      arith,
      length-values (index_run e r m),
      length-values m,
      ap length p,
      length-append (values m) (e ∷ []),
    )

delete_absent : (k : String) (m : List (String × QueueEntry)) → get k m ≡ none → delete k m ≡ m
unfolding get delete
delete_absent k [] h = refl
delete_absent k ((j, e) ∷ m) h = ground (arith, delete_absent k m)

Keyed-delete : (k : String) (m : List (String × QueueEntry)) → Keyed m → Keyed (delete k m)
unfolding get delete
Keyed-delete k [] h = tt
Keyed-delete k ((j, e) ∷ m) h = ground (arith, Keyed-delete k m, get-delete k j m)

-- Taking out a key that is there takes out one entry.
delete_there :
    (k : String) (e : QueueEntry) (m : List (String × QueueEntry))
    → Keyed m
    → get k m ≡ some e
    → Perm (e ∷ values (delete k m)) (values m) × (length (delete k m) + 1 ≡ length m)
unfolding get delete values
delete_there k e [] h g = cc
delete_there k e ((j, x) ∷ m) h g =
    elim (same j k) as (λ d. goal d → goal_of d) [
      | yes p ↦ λ q. hit p q
      | no n ↦ λ q. miss (delete_there k e m h.1 q)
    ]
      g
  where
    goal : Dec (j ≡ k) → Type 0
    goal d = ite d (some x) (get k m) ≡ some e

    goal_of : Dec (j ≡ k) → Type 0
    goal_of d =
        Perm (e ∷ values (ite d (delete k m) ((j, x) ∷ delete k m))) (x ∷ values m)
        × (length (ite d (delete k m) ((j, x) ∷ delete k m)) + 1 ≡ suc (length m))

    hit :
        j ≡ k
        → some x ≡ some e
        → Perm (e ∷ values (delete k m)) (x ∷ values m) × (length (delete k m) + 1 ≡ suc (length m))
    hit p q =
        let absent : get k m ≡ none = subst (λ i. get i m ≡ none) p h.0 in
        let same_entry : x ≡ e = cc in
        rw (delete_absent k m absent) (rw same_entry (Perm.refl (e ∷ values m)), omega arith)

    miss :
        Perm (e ∷ values (delete k m)) (values m) × (length (delete k m) + 1 ≡ length m)
        → Perm (e ∷ x ∷ values (delete k m)) (x ∷ values m)
          × (suc (length (delete k m)) + 1 ≡ suc (length m))
    miss ih = (Perm.trans (Perm.swap x e _) (Perm.cons x ih.0), omega (arith, ih.1))

-- Distinct ids.
abbrev pub Differ : List String → Type 0
Differ [] = Unit {0}
Differ (r ∷ rs) = All (λ s. s ≢ r) rs × Differ rs

pick-delete :
    (r : String) (m : List (String × QueueEntry)) (rs : List String)
    → All (λ s. s ≢ r) rs
    → pick (delete r m) rs ≡ pick m rs
unfolding pick
pick-delete r m [] h = refl
pick-delete r m (s ∷ rs) h = ground (arith, pick-delete r m rs h.1, get-delete r s m, h.0)

all_there-delete :
    (r : String) (m : List (String × QueueEntry)) (rs : List String)
    → All (λ s. s ≢ r) rs
    → all (λ s. is_there (get s m)) rs ≡ true
    → all (λ s. is_there (get s (delete r m))) rs ≡ true
all_there-delete r m [] h t = refl
all_there-delete r m (s ∷ rs) h t =
    ground (arith, all_there-delete r m rs h.1, get-delete r s m, h.0)

pick-perm :
    (rs : List String) (m : List (String × QueueEntry))
    → Keyed m
    → Differ rs
    → length rs ≡ length m
    → all (λ s. is_there (get s m)) rs ≡ true
    → Perm (pick m rs) (values m)
unfolding pick values
pick-perm [] [] h d l t = Perm.refl []
pick-perm [] (x ∷ m) h d l t = absurd (omega arith)
pick-perm (r ∷ rs) m h d l t = elim (Option-cases (get r m)) [
  | inl absent ↦ absurd (missing absent)
  | inr (e, there) ↦
      let out = delete_there r e m h there in
      let ih =
        pick-perm rs (delete r m) (Keyed-delete r m h) d.1 (omega (arith, out.1))
          (all_there-delete r m rs d.0 (ground arith)) in
      rw (there, pick) (Perm.trans (Perm.cons e (rw (← pick-delete r m rs d.0) ih)) out.0)
]
  where
    missing : get r m ≡ none → ⊥
    missing absent = ground arith

-- Where the ids of the request are distinct, a reorder that is accepted rearranges the pending
-- entries: it loses none, adds none and repeats none.
pub reorder_pending-perm :
    (rids : List String) (pending result : List QueueEntry)
    → Differ rids
    → reorder_pending rids pending ≡ ok result
    → Perm result pending
unfolding reorder_pending values
reorder_pending-perm rids pending result d h =
    let m = by_id pending [] in
    let l : length m ≡ length pending = ground arith in
    let n : length rids ≡ length pending = ground arith in
    let t : all (λ s. is_there (get s m)) rids ≡ true = ground arith in
    let p : pick m rids ≡ result = ground arith in
    rw (← p) (
      subst (Perm (pick m rids)) (values-by_id pending [] (omega (arith, l)))
        (pick-perm rids m (Keyed-by_id pending [] tt) d (omega (arith, l, n)) t))

-- The check counts the ids and does not compare them with one another: with two entries pending, a
-- request that names the first of them twice is accepted, and leaves it there twice and the second
-- not at all.
pub reorder_pending_twice :
    (a b : String) (x y : ℕ)
    → a ≢ b
    → reorder_pending
        (a ∷ a ∷ [])
        (record { run_id = some a; operation = x } ∷ record { run_id = some b; operation = y } ∷ [])
      ≡ ok (
          record { run_id = some a; operation = x }
          ∷ record { run_id = some a; operation = x }
          ∷ [])
unfolding reorder_pending by_id pick get put
reorder_pending_twice a b x y d = ground arith
