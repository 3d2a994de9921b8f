-- ===== src/Schedule/Repository.antt =====
-- The queries of `ScheduledTaskRepository`. A random id is an argument, and so is the time.
use uma_agent.Base.{
  ℕ, String, Bool, true, false, not, ◌&&◌, List, [], ◌∷◌, ◌++◌, Option, none, some, map, leb,
  if◌then◌else◌, Result, ok, err, ◌>>=◌, eqs, any, find, select, sort_by, or_else, first_of_two,
  is_some_b,
}
use uma_agent.Schedule.{
  ScheduleDefinition, Trigger, RunStatus, TaskStatus, ScheduledTask, ScheduledTaskRun,
  BackgroundTask, Db, is_active,
}

abbrev pub or_missing {ℓ} : {A : Type ℓ} → String → Option A → Result A
or_missing m none = err m
or_missing m (some a) = ok a

unfoldable pub get_task : String → Db → Result ScheduledTask
get_task id db = or_missing "Scheduled task not found" (find (λ t. eqs t.id id) db.tasks)

unfoldable pub get_run : String → Db → Result ScheduledTaskRun
get_run id db = or_missing "Scheduled task run not found" (find (λ r. eqs r.id id) db.runs)

unfoldable pub find_run_by_run_id : String → Db → Option ScheduledTaskRun
find_run_by_run_id run_id db =
    find (λ r. elim r.run_id [ none ↦ false | some i ↦ eqs i run_id ]) db.runs

unfoldable pub owner : String → Db → Option String
owner id db = elim (find (λ t. eqs t.id id) db.tasks) [ none ↦ none | some t ↦ some t.owner_id ]

pub record NewTask : Type 0 where
  pub owner_id : Option String
  pub name : String
  pub prompt : String
  pub schedule : ScheduleDefinition
  pub enabled : Bool
  pub next_run_at : Option ℕ

unfoldable pub create_task : String → ℕ → NewTask → Db → ScheduledTask × Db
create_task id now input db =
    let task : ScheduledTask = record {
      id = id;
      owner_id = or_else input.owner_id "system";
      name = input.name;
      prompt = input.prompt;
      schedule = input.schedule;
      enabled = input.enabled;
      next_run_at = input.next_run_at;
      last_run_at = none;
      created_at = now;
      updated_at = now;
    } in
    (task, record db { tasks = db.tasks ++ task ∷ [] })

-- `enabled=1 AND next_run_at IS NOT NULL AND next_run_at<=now`.
abbrev pub is_due : ℕ → ScheduledTask → Bool
is_due now t = t.enabled && elim t.next_run_at [ none ↦ false | some n ↦ leb n now ]

abbrev pub due_time : ScheduledTask → ℕ
due_time t = or_else t.next_run_at 0

-- `ORDER BY next_run_at`.
unfoldable pub list_due : ℕ → Db → List ScheduledTask
list_due now db = sort_by due_time (select (is_due now) db.tasks)

-- A field that the patch leaves out stays; `some none` is an explicit null.
pub record TaskPatch : Type 0 where
  pub name : Option String
  pub prompt : Option String
  pub schedule : Option ScheduleDefinition
  pub enabled : Option Bool
  pub next_run_at : Option (Option ℕ)
  pub last_run_at : Option (Option ℕ)

abbrev pub apply_task_patch : ℕ → TaskPatch → ScheduledTask → ScheduledTask
apply_task_patch now p t = record t {
  name = or_else p.name t.name;
  prompt = or_else p.prompt t.prompt;
  schedule = or_else p.schedule t.schedule;
  enabled = or_else p.enabled t.enabled;
  next_run_at = or_else p.next_run_at t.next_run_at;
  last_run_at = or_else p.last_run_at t.last_run_at;
  updated_at = now;
}

-- `UPDATE ... WHERE id=?`.
abbrev pub write_task : ScheduledTask → List ScheduledTask → List ScheduledTask
write_task new = map (λ t. if eqs t.id new.id then new else t)

unfoldable pub update_task : String → ℕ → TaskPatch → Db → Result (ScheduledTask × Db)
unfolding get_task
update_task id now p db = get_task id db >>= λ current.
    let new = apply_task_patch now p current in
    ok (new, record db { tasks = write_task new db.tasks })

-- The rows of the task's runs go with it: `ON DELETE CASCADE`.
unfoldable pub delete_task : String → Db → Result Db
delete_task id db =
    if any (λ t. eqs t.id id) db.tasks
    then ok (record db {
      tasks = select (λ t. not (eqs t.id id)) db.tasks;
      runs = select (λ r. not (eqs r.scheduled_task_id id)) db.runs;
    })
    else err "Scheduled task not found"

abbrev pub holds : String → ScheduledTaskRun → Bool
holds task_id r = eqs r.scheduled_task_id task_id && is_active r.status

unfoldable pub has_active_run : String → Db → Bool
has_active_run task_id db = any (holds task_id) db.runs

pub record NewRun : Type 0 where
  pub scheduled_task_id : String
  pub scheduled_for : ℕ
  pub occurrence_key : String
  pub trigger : Trigger

abbrev pub claim : String → NewRun → ScheduledTaskRun
claim id input = record {
  id = id;
  scheduled_task_id = input.scheduled_task_id;
  occurrence_key = input.occurrence_key;
  trigger = input.trigger;
  background_task_id = none;
  run_id = none;
  status = RunStatus.claimed;
  resume = none;
  scheduled_for = input.scheduled_for;
  started_at = none;
  completed_at = none;
  error = none;
}

-- `id` is the primary key, and `occurrence_key` is UNIQUE.
unfoldable pub create_run : String → NewRun → Db → Result (ScheduledTaskRun × Db)
unfolding has_active_run
create_run id input db =
    if has_active_run input.scheduled_task_id db
    then err "Scheduled task already has an active run"
    else if any (λ r. eqs r.occurrence_key input.occurrence_key) db.runs
    then err "UNIQUE constraint failed: scheduled_task_runs.occurrence_key"
    else if any (λ r. eqs r.id id) db.runs
    then err "UNIQUE constraint failed: scheduled_task_runs.id"
    else ok (claim id input, record db { runs = db.runs ++ claim id input ∷ [] })

pub record RunPatch : Type 0 where
  pub background_task_id : Option String
  pub run_id : Option String
  pub status : Option RunStatus
  pub resume : Option (Option String)
  pub started_at : Option ℕ
  pub completed_at : Option ℕ
  pub error : Option (Option String)

abbrev pub no_patch : RunPatch
no_patch = record {
  background_task_id = none;
  run_id = none;
  status = none;
  resume = none;
  started_at = none;
  completed_at = none;
  error = none;
}

abbrev pub apply_run_patch : RunPatch → ScheduledTaskRun → ScheduledTaskRun
apply_run_patch p r = record r {
  background_task_id = first_of_two p.background_task_id r.background_task_id;
  run_id = first_of_two p.run_id r.run_id;
  status = or_else p.status r.status;
  resume = or_else p.resume r.resume;
  started_at = first_of_two p.started_at r.started_at;
  completed_at = first_of_two p.completed_at r.completed_at;
  error = or_else p.error r.error;
}

abbrev pub write_run : ScheduledTaskRun → List ScheduledTaskRun → List ScheduledTaskRun
write_run new = map (λ r. if eqs r.id new.id then new else r)

unfoldable pub update_run : String → RunPatch → Db → Result (ScheduledTaskRun × Db)
unfolding get_run
update_run id p db = get_run id db >>= λ current.
    let new = apply_run_patch p current in ok (new, record db { runs = write_run new db.runs })

abbrev pub is_lost : ScheduledTaskRun → Bool
is_lost r = elim r.status [ RunStatus.running ↦ not (is_some_b r.run_id) | _ ↦ false ]

-- The background task of a lost run.
abbrev pub is_lost_task : List ScheduledTaskRun → BackgroundTask → Bool
is_lost_task runs b = elim b.status [
  | TaskStatus.interrupted ↦
      not (is_some_b b.run_id)
      && any (λ r. is_lost r && elim r.background_task_id [ none ↦ false | some i ↦ eqs i b.id ])
          runs
  | _ ↦ false
]

abbrev pub recover_task : List ScheduledTaskRun → BackgroundTask → BackgroundTask
recover_task runs b =
    if is_lost_task runs b then record b { status = TaskStatus.pending; error = none } else b

-- The second and the third `UPDATE` of `recoverRuns`.
abbrev pub recover_run : ScheduledTaskRun → ScheduledTaskRun
recover_run r = elim r.status [
  | RunStatus.running ↦
      if is_some_b r.run_id
      then record r {
        status = RunStatus.awaiting_resume;
        error = some "Background run requires explicit resume";
      }
      else record r { status = RunStatus.claimed; error = none }
  | _ ↦ r
]

abbrev pub is_recovered : ScheduledTaskRun → Bool
is_recovered r = elim r.status [
  | RunStatus.claimed ↦ true
  | RunStatus.awaiting_resume ↦ true
  | _ ↦ false
]

unfoldable pub recover_runs : Db → List ScheduledTaskRun × Db
recover_runs db =
    let runs = map recover_run db.runs in
    (
      sort_by (λ r. r.scheduled_for) (select is_recovered runs),
      record db { runs = runs; background = map (recover_task db.runs) db.background },
    )

abbrev pub interrupt_task : BackgroundTask → BackgroundTask
interrupt_task b =
    let hit : BackgroundTask = record b {
      status = TaskStatus.interrupted;
      error = some "Server restarted during execution";
    } in
    elim b.status [ TaskStatus.pending ↦ hit | TaskStatus.running ↦ hit | _ ↦ b ]

unfoldable pub mark_active_background_tasks_interrupted : Db → Db
mark_active_background_tasks_interrupted db = record db {
  background = map interrupt_task db.background;
}
