-- ===== src/Schedule/Races.antt =====
-- Two places where the scheduler does not do what it means to.
use uma_agent.Base.{
  ℕ, String, ◌≡◌, refl, ap, ◌∙◌, true, false, List, [], ◌∷◌, Option, some, any, eqs, arith, ok, err,
  find, or_else,
}
use uma_agent.Schedule.{
  Trigger, RunStatus, TaskStatus, ScheduledTask, ScheduledTaskRun, BackgroundTask, Db,
}
use uma_agent.Schedule.Repository.{
  has_active_run, create_run, list_due, get_run, update_run, write_run, apply_run_patch, RunPatch,
}
use uma_agent.Schedule.Service.{
  Scheduler, Ids, occurrence_key, trigger_transaction, trigger, tick_all, tick, is_skipped,
  trigger_kind, settle, settled, or_kept,
}
use uma_agent.Schedule.Rows.{get_run-find}

abbrev pub used : String
used = "UNIQUE constraint failed: scheduled_task_runs.occurrence_key"

module _ (show_time : ℕ → String) (next_cron : String → String → ℕ → Option ℕ) where
  trigger-used :
      (ids : Ids) (task : ScheduledTask) (at : ℕ) (kind : Trigger) (now : ℕ) (s : Scheduler)
      → has_active_run task.id s.db ≡ false
      → any
          (λ r. eqs r.occurrence_key (occurrence_key show_time next_cron ids task at kind))
          s.db.runs
        ≡ true
      → trigger show_time next_cron ids task at kind now s ≡ err used
  unfolding trigger trigger_transaction create_run
  trigger-used ids task at kind now s free u = rw (free, u)

  -- If the first due task is not running and its occurrence at its next time is already in the
  -- table, a tick throws and has triggered nothing: neither that task, which stays first at the next
  -- tick, nor any of the tasks that are due after it.
  pub tick_stopped :
      (ids : ℕ → Ids) (now : ℕ) (t : ScheduledTask) (ts : List ScheduledTask) (s : Scheduler)
      → list_due now s.db ≡ t ∷ ts
      → is_skipped show_time next_cron t s ≡ false
      → (let at = or_else t.next_run_at now in
          any
            (λ r. eqs r.occurrence_key (
              occurrence_key show_time next_cron
                (ids 0)
                t
                at
                (trigger_kind show_time next_cron at now)))
            s.db.runs)
        ≡ true
      → tick show_time next_cron ids now s ≡ (s, some used)
  unfolding tick tick_all
  tick_stopped ids now t ts s due go u =
      let at = or_else t.next_run_at now in
      let free : has_active_run t.id s.db ≡ false = ground arith in
      let e = trigger-used (ids 0) t at (trigger_kind show_time next_cron at now) now s free u in
      rw due (rw go (rw e refl))

find-write_run :
    (id : String) (new : ScheduledTaskRun) (rs : List ScheduledTaskRun) (r : ScheduledTaskRun)
    → new.id ≡ id
    → find (λ x. eqs x.id id) rs ≡ some r
    → find (λ x. eqs x.id id) (write_run new rs) ≡ some new
find-write_run id new [] r e h = cc
find-write_run id new (x ∷ xs) r e h = ground (arith, find-write_run id new xs r e)

get_run-update_run :
    (id : String) (p : RunPatch) (db : Db) (r : ScheduledTaskRun)
    → get_run id db ≡ ok r
    → get_run id (or_kept db (update_run id p db)) ≡ ok (apply_run_patch p r)
unfolding update_run get_run
get_run-update_run id p db r h =
    let (found, its) = get_run-find id db r (unfold get_run in h) in
    let later = find-write_run id (apply_run_patch p r) db.runs r its found in
    rw found (rw later refl)

settle-db :
    (run : ScheduledTaskRun) (now : ℕ) (resume : Option String) (b : BackgroundTask) (s : Scheduler)
    → b.status ≡ TaskStatus.completed
    → (settle run now resume b s).db ≡ or_kept s.db (update_run run.id (settled now resume b) s.db)
unfolding settle
settle-db run now resume b s d = ground (arith, d)

-- A run that was cancelled, with its background task already completed: when the scheduler settles
-- it afterwards, the cancelled run becomes completed.
pub cancelled_then_completed :
    (run r : ScheduledTaskRun) (now : ℕ) (resume : Option String) (b : BackgroundTask)
    (s : Scheduler)
    → get_run run.id s.db ≡ ok r
    → r.status ≡ RunStatus.cancelled
    → b.status ≡ TaskStatus.completed
    → (r' : ScheduledTaskRun) × (get_run run.id (settle run now resume b s).db ≡ ok r')
      × (r'.status ≡ RunStatus.completed)
cancelled_then_completed run r now resume b s g c d = (
  apply_run_patch (settled now resume b) r,
  ap (get_run run.id) (settle-db run now resume b s d)
      ∙ get_run-update_run run.id (settled now resume b) s.db r g,
  ground (arith, d),
)
