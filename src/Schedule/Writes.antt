-- ===== src/Schedule/Writes.antt =====
-- The other writes of packages/core/src/scheduler.ts to the table of runs: no task gets a second
-- active run by them.
use uma_agent.Base.{
  ℕ, String, ◌≡◌, ◌≢◌, refl, sym, subst, Bool, true, false, not, ◌||◌, List, [], ◌∷◌, Option, none,
  some, if◌then◌else◌, Result, ok, err, ◌>>=◌, >>=-eq-ok, eqs, find, select, or_else, is_some_b,
  All, arith, Bool-cases, inl, inr,
}
use uma_agent.Schedule.{RunStatus, TaskStatus, ScheduledTaskRun, BackgroundTask, Db, is_active}
use uma_agent.Schedule.Repository.{get_run, find_run_by_run_id, RunPatch, no_patch, update_run}
use uma_agent.Schedule.Service.{
  Scheduler, resumed, if_found, on_run_resumed, settled, or_kept, poll, settle, fail_run, is_open,
}
use uma_agent.Schedule.Rows.{DistinctIds, IsExclusive, get_run-find}
use uma_agent.Schedule.Active.{update_run-IsExclusive}

find_All :
    (P : ScheduledTaskRun → Bool) (Q : ScheduledTaskRun → Type 0) (xs : List ScheduledTaskRun)
    (r : ScheduledTaskRun)
    → All Q xs
    → find P xs ≡ some r
    → Q r
find_All P Q [] r a h = cc h
find_All P Q (x ∷ xs) r a h = elim (Bool-cases (P x)) [
  | inl hit ↦ subst Q (same_row (rw hit at h)) a.0
  | inr miss ↦ find_All P Q xs r a.1 (rw miss at h)
]
  where
    same_row : some x ≡ some r → x ≡ r
    same_row p = ground arith

-- With distinct ids a row that is found is the one that its id finds.
found_is_current :
    (P : ScheduledTaskRun → Bool) (xs : List ScheduledTaskRun) (r current : ScheduledTaskRun)
    → DistinctIds xs
    → find P xs ≡ some r
    → find (λ x. eqs x.id r.id) xs ≡ some current
    → current ≡ r
found_is_current P [] r current d h g = cc h
found_is_current P (x ∷ xs) r current d h g = elim (Bool-cases (P x)) [
  | inl hit ↦ let e : x ≡ r = same_row x r (rw hit at h) in first r e g
  | inr miss ↦
      let later : find P xs ≡ some r = rw miss at h in
      let apart : r.id ≢ x.id = find_All P (λ y. y.id ≢ x.id) xs r d.0 later in
      found_is_current P xs r current d.1 later (ground (arith, g, apart))
]
  where
    same_row : (x r : ScheduledTaskRun) → some x ≡ some r → x ≡ r
    same_row x r p = ground arith

    first :
        (r : ScheduledTaskRun)
        → x ≡ r
        → find (λ y. eqs y.id r.id) (x ∷ xs) ≡ some current
        → current ≡ r
    first r e g = ground arith

or_kept-IsExclusive :
    (id : String) (p : RunPatch) (db : Db)
    → ((current : ScheduledTaskRun)
        → get_run id db ≡ ok current
        → is_active (or_else p.status current.status) ≡ true
        → is_active current.status ≡ true)
    → IsExclusive db.runs
    → IsExclusive (or_kept db (update_run id p db)).runs
or_kept-IsExclusive id p db keeps v = by_result (update_run id p db) refl
  where
    by_result :
        (o : Result (ScheduledTaskRun × Db))
        → update_run id p db ≡ o
        → IsExclusive (or_kept db o).runs
    by_result (err m) e = v
    by_result (ok r) e = update_run-IsExclusive id p db r e keeps v

pub fail_run-IsExclusive :
    (run : ScheduledTaskRun) (now : ℕ) (message : String) (s : Scheduler)
    → IsExclusive s.db.runs
    → IsExclusive (fail_run run now message s).db.runs
unfolding fail_run
fail_run-IsExclusive run now message s v =
    or_kept-IsExclusive run.id
      (record no_patch {
        status = some RunStatus.failed;
        completed_at = some now;
        error = some (some message);
      })
      s.db (λ c g a. cc a) v

pub poll-IsExclusive :
    (run : ScheduledTaskRun) (b : BackgroundTask) (s : Scheduler)
    → IsExclusive s.db.runs
    → IsExclusive (poll run b s).db.runs
unfolding poll
poll-IsExclusive run b s v = noted b.run_id
  where
    either :
        (t : Bool) (d : Db)
        → IsExclusive d.runs
        → IsExclusive (if t then s else record s { db = d }).db.runs
    either true d w = v
    either false d w = w

    noted :
        (o : Option String)
        → (let after : Scheduler = elim o [
          | none ↦ s
          | some i ↦ if elim run.run_id [ none ↦ false | some j ↦ eqs i j ] then s else record s {
            db = or_kept s.db (update_run run.id (record no_patch { run_id = some i }) s.db);
          }
        ] in
            IsExclusive after.db.runs)
    noted none = v
    noted (some i) =
        let t : Bool = elim run.run_id [ none ↦ false | some j ↦ eqs i j ] in
        either t (or_kept s.db (update_run run.id (record no_patch { run_id = some i }) s.db))
          (or_kept-IsExclusive run.id (record no_patch { run_id = some i }) s.db (λ c g a. a) v)

-- Whether the end of the background task leaves its run waiting for a resume.
abbrev pub waits : BackgroundTask → Bool
waits b = elim b.status [ TaskStatus.interrupted ↦ is_some_b b.run_id | _ ↦ false ]

-- Whether the row of the run, where there is one, is active.
abbrev pub is_row_active : String → Db → Bool
is_row_active id db = elim (find (λ r. eqs r.id id) db.runs) [
  | none ↦ true
  | some r ↦ is_active r.status
]

settled-status :
    (now : ℕ) (resume : Option String) (b : BackgroundTask) (s : RunStatus)
    → is_active (or_else (settled now resume b).status s) ≡ true
    → waits b ≡ true
settled-status now resume b s h = ground (arith, h)

row_active :
    (id : String) (db : Db) (c : ScheduledTaskRun)
    → get_run id db ≡ ok c
    → is_row_active id db ≡ true
    → is_active c.status ≡ true
row_active id db c g a = let f = (get_run-find id db c g).0 in ground (arith, f, a)

-- The end of a run that is still active, or whose background task did not wait for a resume.
pub settle-IsExclusive :
    (run : ScheduledTaskRun) (now : ℕ) (resume : Option String) (b : BackgroundTask) (s : Scheduler)
    → (not (waits b) || is_row_active run.id s.db) ≡ true
    → IsExclusive s.db.runs
    → IsExclusive (settle run now resume b s).db.runs
unfolding settle
settle-IsExclusive run now resume b s t v = either (is_open b.status) (
    or_kept-IsExclusive run.id (settled now resume b) s.db
      (λ c g a.
        row_active run.id s.db c g
          (second (waits b) (is_row_active run.id s.db) (settled-status now resume b c.status a) t))
      v)
  where
    second : (x y : Bool) → x ≡ true → (not x || y) ≡ true → y ≡ true
    second x y p q = ground arith

    either :
        (t : Bool)
        → IsExclusive (or_kept s.db (update_run run.id (settled now resume b) s.db)).runs
        → IsExclusive
            (if t then s else record s {
              db = or_kept s.db (update_run run.id (settled now resume b) s.db);
              running = select (λ i. not (eqs i run.scheduled_task_id)) s.running;
            }).db.runs
    either true w = v
    either false w = w

-- A run that waits for its resume goes on.
pub on_run_resumed-IsExclusive :
    (run_id : String) (s s' : Scheduler)
    → on_run_resumed run_id s ≡ ok s'
    → IsExclusive s.db.runs
    → IsExclusive s'.db.runs
unfolding on_run_resumed find_run_by_run_id
on_run_resumed-IsExclusive run_id s s' h v =
    found (find_run_by_run_id run_id s.db) refl (unfold find_run_by_run_id in h)
  where
    patch : RunPatch
    patch = record no_patch {
      status = some RunStatus.running;
      resume = some none;
      error = some none;
    }

    has_run : ScheduledTaskRun → Bool
    has_run r = elim r.run_id [ none ↦ false | some i ↦ eqs i run_id ]

    kept : ok s ≡ ok s' → IsExclusive s'.db.runs
    kept p = let e : s ≡ s' = ground arith in subst (λ (x : Scheduler). IsExclusive x.db.runs) e v

    written :
        (r : ScheduledTaskRun)
        → is_active r.status ≡ true
        → find has_run s.db.runs ≡ some r
        → (update_run r.id patch s.db >>= λ u. ok (record s { db = u.1 })) ≡ ok s'
        → IsExclusive s'.db.runs
    written r a f p =
        let (u, e, q) = >>=-eq-ok (update_run r.id patch s.db) _ p in
        let same_runs : s'.db.runs ≡ u.1.runs = ground (arith, q) in
        subst IsExclusive (sym same_runs) (
          update_run-IsExclusive r.id patch s.db u e
            (λ c g _.
              subst (λ (x : ScheduledTaskRun). is_active x.status ≡ true)
                (sym (
                  found_is_current has_run s.db.runs r c v.distinct f
                    (get_run-find r.id s.db c g).0))
                a)
            v)

    by_status :
        (r : ScheduledTaskRun) (t : RunStatus)
        → r.status ≡ t
        → find has_run s.db.runs ≡ some r
        → resumed s r ≡ ok s'
        → IsExclusive s'.db.runs
    by_status r RunStatus.awaiting_resume e f p =
        written r (subst (λ t. is_active t ≡ true) (sym e) refl) f (rw e at p)
    by_status r RunStatus.claimed e f p = kept (rw e at p)
    by_status r RunStatus.running e f p = kept (rw e at p)
    by_status r RunStatus.completed e f p = kept (rw e at p)
    by_status r RunStatus.failed e f p = kept (rw e at p)
    by_status r RunStatus.cancelled e f p = kept (rw e at p)

    found :
        (o : Option ScheduledTaskRun)
        → find has_run s.db.runs ≡ o
        → if_found s o ≡ ok s'
        → IsExclusive s'.db.runs
    found none f p = kept p
    found (some r) f p = by_status r r.status refl f p
