-- ===== src/Schedule/Service.antt =====
-- `SchedulerService`: the state is the database and the set of the tasks that are running here. A
-- callback to `changed` has no effect on it. The executor's part that the scheduler relies on is
-- `prepareScheduledTask`, `getTask` and `cancelTask` of packages/core/src/runtime.ts, over the rows
-- of background_tasks.
use Prim.Native.String.{◌++◌ as text_append}
use uma_agent.Base.{
  ℕ, ◌+◌, String, Bool, true, false, not, ◌&&◌, ◌||◌, List, [], ◌∷◌, ◌++◌, Option, none, some, map,
  ltb, if◌then◌else◌, Result, ok, err, ◌>>=◌, eqs, any, find, select, or_else, is_some_b,
}
use uma_agent.Schedule.{
  ScheduleDefinition, once, Trigger, scheduled, catchup, manual, RunStatus, TaskStatus,
  ScheduledTask, ScheduledTaskRun, BackgroundTask, Db, is_active, is_blank, next_schedule_time,
}
use uma_agent.Schedule.Repository.{
  or_missing, get_task, get_run, find_run_by_run_id, owner, create_task, list_due, TaskPatch,
  update_task, delete_task, has_active_run, create_run, RunPatch, no_patch, update_run,
  recover_runs,
}

pub record Scheduler : Type 0 where
  pub db : Db
  pub running : List String

-- `getTask` of the executor.
unfoldable pub get_background : String → Db → Result BackgroundTask
get_background id db =
    or_missing "Background task not found" (find (λ b. eqs b.id id) db.background)

abbrev pub is_open : TaskStatus → Bool
is_open TaskStatus.pending = true
is_open TaskStatus.running = true
is_open _ = false

abbrev pub cancel_background : BackgroundTask → BackgroundTask
cancel_background b =
    if is_open b.status
    then record b { status = TaskStatus.cancelled; error = some "Cancelled by user" }
    else b

-- `cancelTask` of the executor, on the rows of background tasks: one that is missing throws, and only
-- one that is pending or running changes.
unfoldable pub cancel_task : String → Db → Result Db
unfolding get_background
cancel_task id db = get_background id db >>= λ task.
    if is_open task.status
    then ok (record db {
      background = map (λ b. if eqs b.id id then cancel_background b else b) db.background;
    })
    else ok db

abbrev pub owned : Option String → Result String
owned o = or_missing "Scheduled task owner is missing" o

-- `prepareScheduledTask` of the executor, the new task's id given.
unfoldable pub prepare_scheduled_task : String → String → String → Db → Result (BackgroundTask × Db)
prepare_scheduled_task id prompt schedule_id db =
    if is_blank prompt
    then err "Task prompt is required"
    else (owned (owner schedule_id db) >>= λ _.
        let task : BackgroundTask = record {
          id = id;
          run_id = none;
          status = TaskStatus.pending;
          error = none;
        } in
        ok (task, record db { background = db.background ++ task ∷ [] }))

-- The random ids that a trigger draws.
pub record Ids : Type 0 where
  pub run : String
  pub background : String
  pub uuid : String

module _ (show_time : ℕ → String) (next_cron : String → String → ℕ → Option ℕ) where
  abbrev pub occurrence_key : Ids → ScheduledTask → ℕ → Trigger → String
  occurrence_key ids task scheduled_for manual =
      text_append task.id (text_append ":manual:" ids.uuid)
  occurrence_key ids task scheduled_for _ =
      text_append task.id (text_append ":" (show_time scheduled_for))

  abbrev pub is_once : ScheduleDefinition → Bool
  is_once (once at) = true
  is_once _ = false

  -- The patch of the task after an occurrence that the clock triggered.
  abbrev pub advance : ScheduledTask → ℕ → ℕ → TaskPatch
  advance task scheduled_for now = record {
    name = none;
    prompt = none;
    schedule = none;
    enabled = some (not (is_once task.schedule));
    next_run_at =
        some
          (if is_once task.schedule then none else next_schedule_time next_cron task.schedule now);
    last_run_at = some (some scheduled_for);
  }

  abbrev pub advance_task : ScheduledTask → ℕ → Trigger → ℕ → Db → Result Db
  advance_task task scheduled_for manual now db = ok db
  advance_task task scheduled_for _ now db =
      update_task task.id now (advance task scheduled_for now) db >>= λ r. ok r.1

  abbrev pub link : BackgroundTask → ℕ → RunPatch
  link b now = record no_patch {
    background_task_id = some b.id;
    run_id = b.run_id;
    status = some RunStatus.running;
    started_at = some now;
    error = some none;
  }

  -- The transaction of `trigger`. One that throws is rolled back.
  unfoldable pub trigger_transaction :
      Ids → ScheduledTask → ℕ → Trigger → ℕ → Db → Result (ScheduledTaskRun × Db)
  trigger_transaction ids task scheduled_for trigger now db = do
    created ←
        create_run ids.run
          (record {
            scheduled_task_id = task.id;
            scheduled_for = scheduled_for;
            occurrence_key = occurrence_key ids task scheduled_for trigger;
            trigger = trigger;
          })
          db
    background ← prepare_scheduled_task ids.background task.prompt task.id created.1
    linked ← update_run created.0.id (link background.0 now) background.1
    advanced ← advance_task task scheduled_for trigger now linked.1
    ok (linked.0, advanced)

  -- The first, synchronous part of `launch`.
  abbrev pub launch : ScheduledTaskRun → Scheduler → Scheduler
  launch run s = record s { running = s.running ++ run.scheduled_task_id ∷ [] }

  unfoldable pub trigger :
      Ids → ScheduledTask → ℕ → Trigger → ℕ → Scheduler → Result (ScheduledTaskRun × Scheduler)
  trigger ids task scheduled_for kind now s =
      trigger_transaction ids task scheduled_for kind now s.db >>= λ r.
      ok (r.0, launch r.0 (record s { db = r.1 }))

  abbrev pub trigger_kind : ℕ → ℕ → Trigger
  trigger_kind scheduled_for now = if ltb (scheduled_for + 5000) now then catchup else scheduled

  abbrev pub is_running : String → Scheduler → Bool
  is_running id s = any (λ i. eqs i id) s.running

  abbrev pub is_skipped : ScheduledTask → Scheduler → Bool
  is_skipped task s = is_running task.id s || has_active_run task.id s.db

  abbrev pub tick_task : Ids → ScheduledTask → ℕ → Scheduler → Result Scheduler
  tick_task ids task now s =
      let at = or_else task.next_run_at now in
      trigger ids task at (trigger_kind at now) now s >>= λ r. ok r.1

  -- What a loop that may throw leaves: the state at its end or at the error, and the error.
  abbrev pub go_on :
      (Scheduler → Scheduler × Option String)
      → Scheduler
      → Result Scheduler
      → Scheduler × Option String
  go_on rest s (ok s') = rest s'
  go_on rest s (err m) = (s, some m)

  -- The loop of `tick`: a trigger that throws ends it.
  unfoldable pub tick_all :
      (ℕ → Ids) → ℕ → ℕ → List ScheduledTask → Scheduler → Scheduler × Option String
  tick_all ids n now [] s = (s, none)
  tick_all ids n now (t ∷ ts) s =
      let skip = tick_all ids n now ts s in
      if is_skipped t s
      then skip
      else go_on (tick_all ids (n + 1) now ts) s (tick_task (ids n) t now s)

  unfoldable pub tick : (ℕ → Ids) → ℕ → Scheduler → Scheduler × Option String
  tick ids now s = tick_all ids 0 now (list_due now s.db) s

  unfoldable pub run_now : Ids → String → ℕ → Scheduler → Result (ScheduledTaskRun × Scheduler)
  run_now ids id now s = get_task id s.db >>= λ task. trigger ids task now manual now s

  abbrev pub next_run : ScheduleDefinition → Bool → ℕ → Option ℕ
  next_run schedule enabled now =
      if enabled then next_schedule_time next_cron schedule now else none

  abbrev pub check_next : Bool → Option ℕ → Result (Option ℕ)
  check_next enabled next =
      if enabled && not (is_some_b next)
      then err "Schedule has no future execution time"
      else ok next

  -- `create`; an absent `enabled` is true.
  unfoldable pub create :
      String
      → ℕ
      → Option String
      → String
      → String
      → ScheduleDefinition
      → Option Bool
      → Scheduler
      → Result (ScheduledTask × Scheduler)
  create id now owner_id name prompt schedule enabled_option s =
      let enabled = or_else enabled_option true in
      check_next enabled (next_run schedule enabled now) >>= λ next.
      let r =
        create_task id now
          (record {
            owner_id = owner_id;
            name = name;
            prompt = prompt;
            schedule = schedule;
            enabled = enabled;
            next_run_at = next;
          })
          s.db in
      ok (r.0, record s { db = r.1 })

  -- `update`, with the time that every update sets anew.
  unfoldable pub update :
      String
      → ℕ
      → Option String
      → Option String
      → Option ScheduleDefinition
      → Option Bool
      → Scheduler
      → Result (ScheduledTask × Scheduler)
  update id now name prompt schedule_option enabled_option s = do
    current ← get_task id s.db
    let schedule = or_else schedule_option current.schedule
    let enabled = or_else enabled_option current.enabled
    next ← check_next enabled (next_run schedule enabled now)
    r ←
        update_task id now
          (record {
            name = name;
            prompt = prompt;
            schedule = some schedule;
            enabled = some enabled;
            next_run_at = some next;
            last_run_at = none;
          })
          s.db
    ok (r.0, record s { db = r.1 })

unfoldable pub delete : String → Scheduler → Result Scheduler
delete id s =
    if has_active_run id s.db
    then err "Cannot delete a scheduled task while it is running"
    else (delete_task id s.db >>= λ db. ok (record s { db = db }))

abbrev pub cancel_linked : Option String → Db → Result Db
cancel_linked none db = ok db
cancel_linked (some b) db = cancel_task b db

unfoldable pub cancel_run : String → ℕ → Scheduler → Result (ScheduledTaskRun × Scheduler)
cancel_run id now s = get_run id s.db >>= λ run.
    if not (is_active run.status)
    then ok (run, s)
    else (cancel_linked run.background_task_id s.db >>= λ db.
        update_run id
          (record no_patch {
            status = some RunStatus.cancelled;
            completed_at = some now;
            error = some (some "Cancelled by user");
            resume = some none;
          })
          db
        >>= λ r. ok (r.0, record s { db = r.1 }))

abbrev pub resumed : Scheduler → ScheduledTaskRun → Result Scheduler
resumed s run = elim run.status [
  | RunStatus.awaiting_resume ↦
      (update_run run.id
          (record no_patch {
            status = some RunStatus.running;
            resume = some none;
            error = some none;
          })
          s.db
        >>= λ r. ok (record s { db = r.1 }))
  | _ ↦ ok s
]

abbrev pub if_found : Scheduler → Option ScheduledTaskRun → Result Scheduler
if_found s none = ok s
if_found s (some run) = resumed s run

unfoldable pub on_run_resumed : String → Scheduler → Result Scheduler
on_run_resumed run_id s = if_found s (find_run_by_run_id run_id s.db)

abbrev pub outcome : TaskStatus → RunStatus
outcome TaskStatus.completed = RunStatus.completed
outcome TaskStatus.cancelled = RunStatus.cancelled
outcome _ = RunStatus.failed

-- The patch that ends `monitor`, once the background task is neither pending nor running.
abbrev pub settled : ℕ → Option String → BackgroundTask → RunPatch
settled now resume b =
    let over : RunPatch = record no_patch {
      run_id = b.run_id;
      status = some (outcome b.status);
      completed_at = some now;
      error = some b.error;
      resume = some none;
    } in
    let waits : RunPatch = record no_patch {
      run_id = b.run_id;
      status = some RunStatus.awaiting_resume;
      resume = some resume;
      error = some (some (or_else b.error "Background run requires explicit resume"));
    } in
    elim b.status [ TaskStatus.interrupted ↦ if is_some_b b.run_id then waits else over | _ ↦ over ]

abbrev pub or_kept : Db → Result (ScheduledTaskRun × Db) → Db
or_kept db (ok r) = r.1
or_kept db (err m) = db

-- One round of `monitor`: the run that the background task has got meanwhile is noted. A run that
-- is no longer in the table is let go.
unfoldable pub poll : ScheduledTaskRun → BackgroundTask → Scheduler → Scheduler
poll run b s = elim b.run_id [
  | none ↦ s
  | some i ↦ if elim run.run_id [ none ↦ false | some j ↦ eqs i j ] then s else record s {
    db = or_kept s.db (update_run run.id (record no_patch { run_id = some i }) s.db);
  }
]

-- The end of `monitor`, and of `launch`, for a run: `resume` is the descriptor of the interrupted
-- run.
unfoldable pub settle :
    ScheduledTaskRun → ℕ → Option String → BackgroundTask → Scheduler → Scheduler
settle run now resume b s = if is_open b.status then s else record s {
  db = or_kept s.db (update_run run.id (settled now resume b) s.db);
  running = select (λ i. not (eqs i run.scheduled_task_id)) s.running;
}

-- The `catch` of `execute`, and the end of `launch` behind it, for a run whose monitoring threw.
unfoldable pub fail_run : ScheduledTaskRun → ℕ → String → Scheduler → Scheduler
fail_run run now message s = record s {
  db = or_kept s.db (
      update_run run.id
        (record no_patch {
          status = some RunStatus.failed;
          completed_at = some now;
          error = some (some message);
        })
        s.db);
  running = select (λ i. not (eqs i run.scheduled_task_id)) s.running;
}

abbrev pub is_claimed : ScheduledTaskRun → Bool
is_claimed r = elim r.status [ RunStatus.claimed ↦ true | _ ↦ false ]

-- `start` of a new service, up to its timer and its first tick: the runs that are claimed are
-- launched.
unfoldable pub start : Db → Scheduler
start db =
    let r = recover_runs db in
    record { db = r.1; running = map (λ x. x.scheduled_task_id) (select is_claimed r.0) }
