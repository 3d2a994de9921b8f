-- ===== src/Schedule.antt =====
-- Scheduled tasks: the tables of packages/core/src/scheduled-task-repository.ts and the service of
-- packages/core/src/scheduler.ts. `Croner` is a parameter; times are milliseconds.
pub mod Repository
pub mod Service
pub mod Rows
pub mod Active
pub mod Calls
pub mod Writes
pub mod Changes
pub mod Due
pub mod Recovery
pub mod Races
pub mod Tests
use Prim.Native.Char.{code}
use Prim.Native.String.{[] as empty_text, ◌∷◌ as text_cons}
use uma_agent.Base.{ℕ, ◌+◌, String, Bool, true, false, ◌&&◌, List, Option, none, some, is_space}

pub data ScheduleDefinition : Type 0 where
  once : ℕ → ScheduleDefinition
  interval : ℕ → ScheduleDefinition
  cron : String → String → ScheduleDefinition

pub data Trigger : Type 0 where
  scheduled catchup manual : Trigger

pub data RunStatus : Type 0 where
  claimed running awaiting_resume completed failed cancelled : RunStatus

pub data TaskStatus : Type 0 where
  pending running completed failed cancelled interrupted : TaskStatus

-- A row of scheduled_tasks.
pub record ScheduledTask : Type 0 where
  pub id : String
  pub owner_id : String
  pub name : String
  pub prompt : String
  pub schedule : ScheduleDefinition
  pub enabled : Bool
  pub next_run_at : Option ℕ
  pub last_run_at : Option ℕ
  pub created_at : ℕ
  pub updated_at : ℕ

-- A row of scheduled_task_runs. A resume descriptor is kept as its JSON text.
pub record ScheduledTaskRun : Type 0 where
  pub id : String
  pub scheduled_task_id : String
  pub occurrence_key : String
  pub trigger : Trigger
  pub background_task_id : Option String
  pub run_id : Option String
  pub status : RunStatus
  pub resume : Option String
  pub scheduled_for : ℕ
  pub started_at : Option ℕ
  pub completed_at : Option ℕ
  pub error : Option String

-- What the scheduler reads and writes of a row of background_tasks.
pub record BackgroundTask : Type 0 where
  pub id : String
  pub run_id : Option String
  pub status : TaskStatus
  pub error : Option String

pub record Db : Type 0 where
  pub tasks : List ScheduledTask
  pub runs : List ScheduledTaskRun
  pub background : List BackgroundTask

-- `status IN ('claimed','running','awaiting_resume')`.
abbrev pub is_active : RunStatus → Bool
is_active claimed = true
is_active running = true
is_active awaiting_resume = true
is_active completed = false
is_active failed = false
is_active cancelled = false

-- `!text.trim()`.
pub is_blank : String → Bool
is_blank empty_text = true
is_blank (text_cons c s) = is_space (code c) && is_blank s

-- `nextScheduleTime`; `next_cron expression timezone after` is the next run of the expression.
unfoldable pub next_schedule_time :
    (String → String → ℕ → Option ℕ) → ScheduleDefinition → ℕ → Option ℕ
next_schedule_time next_cron (once at) after = some at
next_schedule_time next_cron (interval every) after = some (after + every)
next_schedule_time next_cron (cron expression timezone) after = next_cron expression timezone after
