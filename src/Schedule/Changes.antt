-- ===== src/Schedule/Changes.antt =====
-- What changes of scheduled tasks do to the table of runs: packages/core/src/scheduler.ts.
use uma_agent.Base.{
  ℕ, ◌≤◌, String, ◌≡◌, ◌≢◌, sym, subst, Bool, true, not, List, [], ◌∷◌, Option, none, some, ok,
  >>=-eq-ok, eqs, select, or_else, All, arith, Bool-cases, inl, inr,
}
use uma_agent.Schedule.{ScheduleDefinition, ScheduledTask, ScheduledTaskRun}
use uma_agent.Schedule.Repository.{get_task, create_task, TaskPatch, update_task, delete_task}
use uma_agent.Schedule.Service.{Scheduler, delete, create, update, check_next, next_run}
use uma_agent.Schedule.Rows.{active_count, DistinctIds, IsExclusive}
use uma_agent.Schedule.Active.{runs-update_task}

select-count :
    (keeps : ScheduledTaskRun → Bool) (t : String) (runs : List ScheduledTaskRun)
    → active_count t (select keeps runs) ≤ active_count t runs
unfolding active_count
select-count keeps t [] = omega arith
select-count keeps t (r ∷ rs) = ground (arith, select-count keeps t rs)

select-All :
    (keeps : ScheduledTaskRun → Bool) (Q : ScheduledTaskRun → Type 0) (runs : List ScheduledTaskRun)
    → All Q runs
    → All Q (select keeps runs)
select-All keeps Q [] a = tt
select-All keeps Q (r ∷ rs) a = elim (Bool-cases (keeps r)) [
  | inl k ↦ rw k (a.0, select-All keeps Q rs a.1)
  | inr n ↦ rw n (select-All keeps Q rs a.1)
]

select-distinct :
    (keeps : ScheduledTaskRun → Bool) (runs : List ScheduledTaskRun)
    → DistinctIds runs
    → DistinctIds (select keeps runs)
select-distinct keeps [] d = tt
select-distinct keeps (r ∷ rs) d = elim (Bool-cases (keeps r)) [
  | inl k ↦ rw k (select-All keeps (λ x. x.id ≢ r.id) rs d.0, select-distinct keeps rs d.1)
  | inr n ↦ rw n (select-distinct keeps rs d.1)
]

-- A task that is deleted takes its runs along.
pub delete-IsExclusive :
    (id : String) (s s' : Scheduler)
    → delete id s ≡ ok s'
    → IsExclusive s.db.runs
    → IsExclusive s'.db.runs
unfolding delete delete_task
delete-IsExclusive id s s' h v =
    let keeps = λ (r : ScheduledTaskRun). not (eqs r.scheduled_task_id id) in
    let same_runs : s'.db.runs ≡ select keeps s.db.runs = ground (arith, h) in
    subst IsExclusive (sym same_runs) (record {
      distinct = select-distinct keeps s.db.runs v.distinct;
      one = λ t. omega (arith, select-count keeps t s.db.runs, v.one t);
    })

-- The tasks are in a table of their own.
module _ (show_time : ℕ → String) (next_cron : String → String → ℕ → Option ℕ) where
  pub runs-create :
      (id : String) (now : ℕ) (owner_id : Option String) (name prompt : String)
      (schedule : ScheduleDefinition) (enabled : Option Bool) (s : Scheduler)
      (r : ScheduledTask × Scheduler)
      → create show_time next_cron id now owner_id name prompt schedule enabled s ≡ ok r
      → r.1.db.runs ≡ s.db.runs
  unfolding create create_task
  runs-create id now owner_id name prompt schedule enabled s r h =
      let (next, e, f) =
        >>=-eq-ok
          (check_next show_time next_cron (or_else enabled true)
            (next_run show_time next_cron schedule (or_else enabled true) now))
          _ h in
      ground (arith, f)

  pub runs-update :
      (id : String) (now : ℕ) (name prompt : Option String)
      (schedule_option : Option ScheduleDefinition) (enabled_option : Option Bool) (s : Scheduler)
      (r : ScheduledTask × Scheduler)
      → update show_time next_cron id now name prompt schedule_option enabled_option s ≡ ok r
      → r.1.db.runs ≡ s.db.runs
  unfolding update
  runs-update id now name prompt schedule_option enabled_option s r h =
      let (current, e1, h1) = >>=-eq-ok (get_task id s.db) _ h in
      let schedule = or_else schedule_option current.schedule in
      let enabled = or_else enabled_option current.enabled in
      let (next, e2, h2) =
        >>=-eq-ok
          (check_next show_time next_cron enabled
            (next_run show_time next_cron schedule enabled now))
          _ h1 in
      let p : TaskPatch = record {
        name = name;
        prompt = prompt;
        schedule = some schedule;
        enabled = some enabled;
        next_run_at = some next;
        last_run_at = none;
      } in
      let (u, e3, h3) = >>=-eq-ok (update_task id now p s.db) _ h2 in
      ground (arith, h3, runs-update_task id now p s.db u e3)
