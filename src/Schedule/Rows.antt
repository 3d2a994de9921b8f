-- ===== src/Schedule/Rows.antt =====
-- The table of runs: ids, the count of a task's active runs, and what each write does to them.
use uma_agent.Base.{
  ℕ, ◌≤◌, String, ◌≡◌, ◌≢◌, refl, sym, subst, ◌∙◌, true, false, List, [], ◌∷◌, ◌++◌, Option, none,
  some, if◌then◌else◌, ok, >>=-eq-ok, eqs, any, find, select, length, length-select-append, All,
  All-append, arith, Bool-cases, inl, inr,
}
use uma_agent.Schedule.{ScheduledTaskRun, Db}
use uma_agent.Schedule.Repository.{
  or_missing, get_run, holds, NewRun, claim, create_run, RunPatch, apply_run_patch, write_run,
  update_run,
}

unfoldable pub active_count : String → List ScheduledTaskRun → ℕ
active_count t runs = length (select (holds t) runs)

abbrev pub DistinctIds : List ScheduledTaskRun → Type 0
DistinctIds [] = Unit {0}
DistinctIds (r ∷ rs) = All (λ x. x.id ≢ r.id) rs × DistinctIds rs

-- Run ids are distinct, and each task has at most one active run.
pub record IsExclusive (runs : List ScheduledTaskRun) : Type 0 where
  pub distinct : DistinctIds runs
  pub one : (t : String) → active_count t runs ≤ 1

pub count-none :
    (t : String) (runs : List ScheduledTaskRun)
    → any (holds t) runs ≡ false
    → active_count t runs ≡ 0
unfolding active_count
count-none t [] h = refl
count-none t (r ∷ rs) h = ground (arith, count-none t rs)

pub unused-All :
    (id : String) (runs : List ScheduledTaskRun)
    → any (λ r. eqs r.id id) runs ≡ false
    → All (λ r. id ≢ r.id) runs
unused-All id [] h = tt
unused-All id (r ∷ rs) h = (ground arith, unused-All id rs (ground arith))

pub DistinctIds-append :
    (runs : List ScheduledTaskRun) (r : ScheduledTaskRun)
    → DistinctIds runs
    → All (λ x. r.id ≢ x.id) runs
    → DistinctIds (runs ++ r ∷ [])
DistinctIds-append [] r d h = (tt, tt)
DistinctIds-append (x ∷ xs) r d h =
    (All-append _ xs (r ∷ []) d.0 (h.0, tt), DistinctIds-append xs r d.1 h.1)

pub create_run-ok :
    (id : String) (input : NewRun) (db : Db) (r : ScheduledTaskRun × Db)
    → create_run id input db ≡ ok r
    → (any (holds input.scheduled_task_id) db.runs ≡ false)
      × (any (λ x. eqs x.id id) db.runs ≡ false)
      × (r.0 ≡ claim id input)
      × (r.1 ≡ record db { runs = db.runs ++ claim id input ∷ [] })
unfolding create_run
create_run-ok id input db r h = (ground arith, ground arith, ground arith, ground arith)

pub claim-IsExclusive :
    (id : String) (input : NewRun) (runs : List ScheduledTaskRun)
    → any (holds input.scheduled_task_id) runs ≡ false
    → any (λ x. eqs x.id id) runs ≡ false
    → IsExclusive runs
    → IsExclusive (runs ++ claim id input ∷ [])
unfolding active_count
claim-IsExclusive id input runs free new v = record {
  distinct = DistinctIds-append runs (claim id input) v.distinct (unused-All id runs new);
  one = λ t. ground (
    arith,
    v.one t,
    count-none input.scheduled_task_id runs free,
    length-select-append (holds t) runs (claim id input ∷ []),
  );
}

-- Writing a run keeps the counts where it does not make an inactive row active.
pub write_run-count :
    (t : String) (new : ScheduledTaskRun) (runs : List ScheduledTaskRun)
    → All (λ r. r.id ≡ new.id → holds t new ≡ true → holds t r ≡ true) runs
    → active_count t (write_run new runs) ≤ active_count t runs
unfolding active_count
write_run-count t new [] h = omega arith
write_run-count t new (r ∷ rs) h = ground (arith, write_run-count t new rs h.1, h.0)

pub write_run-ids :
    (new : ScheduledTaskRun) (k : String) (runs : List ScheduledTaskRun)
    → All (λ x. x.id ≢ k) runs
    → All (λ x. x.id ≢ k) (write_run new runs)
write_run-ids new k [] h = tt
write_run-ids new k (r ∷ rs) h = (ground (arith, h.0), write_run-ids new k rs h.1)

pub write_run-distinct :
    (new : ScheduledTaskRun) (runs : List ScheduledTaskRun)
    → DistinctIds runs
    → DistinctIds (write_run new runs)
write_run-distinct new [] d = tt
write_run-distinct new (r ∷ rs) d = (kept, write_run-distinct new rs d.1)
  where
    kept : All (λ x. x.id ≢ (if eqs r.id new.id then new else r).id) (write_run new rs)
    kept = elim (Bool-cases (eqs r.id new.id)) [
      | inl hit ↦ rw hit (
          let e : r.id ≡ new.id = ground arith in
          subst (λ k. All (λ x. x.id ≢ k) (write_run new rs)) e (write_run-ids new r.id rs d.0))
      | inr miss ↦ rw miss (write_run-ids new r.id rs d.0)
    ]

-- With distinct ids the row that `get_run` finds is the only one with its id.
pub found_only :
    (id : String) (runs : List ScheduledTaskRun) (r : ScheduledTaskRun)
    (Q : ScheduledTaskRun → Type 0)
    → DistinctIds runs
    → find (λ x. eqs x.id id) runs ≡ some r
    → Q r
    → All (λ x. x.id ≡ id → Q x) runs
found_only id [] r Q d h q = tt
found_only id (x ∷ xs) r Q d h q = elim (Bool-cases (eqs x.id id)) [
  | inl hit ↦ let e : x ≡ r = ground arith in (λ _. rw e q, absent xs (ground arith) d.0)
  | inr miss ↦ (λ p. absurd (ground arith), found_only id xs r Q d.1 (ground arith) q)
]
  where
    absent :
        (ys : List ScheduledTaskRun)
        → x.id ≡ id
        → All (λ y. y.id ≢ x.id) ys
        → All (λ y. y.id ≡ id → Q y) ys
    absent [] e h = tt
    absent (y ∷ ys) e h = (λ p. absurd (h.0 (p ∙ sym e)), absent ys e h.1)

pub get_run-find :
    (id : String) (db : Db) (r : ScheduledTaskRun)
    → get_run id db ≡ ok r
    → (find (λ x. eqs x.id id) db.runs ≡ some r) × (r.id ≡ id)
unfolding get_run
get_run-find id db r h = (
  in_table (find (λ x. eqs x.id id) db.runs) h,
  its_id db.runs (in_table (find (λ x. eqs x.id id) db.runs) h),
)
  where
    in_table :
        (o : Option ScheduledTaskRun)
        → or_missing "Scheduled task run not found" o ≡ ok r
        → o ≡ some r
    in_table none p = cc
    in_table (some x) p = cc

    its_id : (xs : List ScheduledTaskRun) → find (λ x. eqs x.id id) xs ≡ some r → r.id ≡ id
    its_id [] p = cc
    its_id (x ∷ xs) p = ground (arith, its_id xs)

pub update_run-ok :
    (id : String) (p : RunPatch) (db : Db) (r : ScheduledTaskRun × Db)
    → update_run id p db ≡ ok r
    → (current : ScheduledTaskRun) × (get_run id db ≡ ok current)
      × (r.0 ≡ apply_run_patch p current)
      × (r.1 ≡ record db { runs = write_run (apply_run_patch p current) db.runs })
unfolding update_run
update_run-ok id p db r h =
    let (current, e, f) = >>=-eq-ok (get_run id db) _ h in
    (current, e, ground (arith, f), ground (arith, f))
