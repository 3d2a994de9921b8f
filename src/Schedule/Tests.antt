-- ===== src/Schedule/Tests.antt =====
-- Runs of the scheduler at concrete inputs.
use uma_agent.Base.{ℕ, String, ◌≡◌, refl, true, List, [], ◌∷◌, Option, none, some, arith, same, ok}
use uma_agent.Schedule.{
  interval, scheduled, manual, RunStatus, TaskStatus, ScheduledTask, ScheduledTaskRun,
  BackgroundTask, Db, is_blank, next_schedule_time,
}
use uma_agent.Schedule.Repository.{
  get_run, get_task, create_run, update_run, update_task, has_active_run, owner, recover_runs,
  list_due,
}
use uma_agent.Schedule.Service.{
  Scheduler, Ids, trigger_transaction, prepare_scheduled_task, tick, tick_all, trigger, run_now,
  cancel_run, cancel_task, get_background, settle,
}
use uma_agent.Schedule.Rows.{IsExclusive, active_count}
use uma_agent.Schedule.Calls.{
  Call, ticks, cancels, runs_now, settles, resumes, restarts, perform, perform_all, all_in_time,
  perform_all-IsExclusive,
}
use uma_agent.Schedule.Recovery.{Pairs, recover_runs-Settled}

-- Every time is shown alike here, and no cron expression is used.
abbrev show_time : ℕ → String
show_time n = "t"

abbrev no_cron : String → String → ℕ → Option ℕ
no_cron e z n = none

abbrev hourly : ScheduledTask
hourly = record {
  id = "h";
  owner_id = "u";
  name = "n";
  prompt = "p";
  schedule = interval 100;
  enabled = true;
  next_run_at = some 50;
  last_run_at = none;
  created_at = 0;
  updated_at = 0;
}

abbrev ids : ℕ → Ids
ids n = record { run = "r"; background = "b"; uuid = "u" }

abbrev start : Scheduler
start = record { db = record { tasks = hourly ∷ []; runs = []; background = [] }; running = [] }

empty-IsExclusive : IsExclusive []
unfolding active_count
empty-IsExclusive = record { distinct = tt; one = λ t. omega arith }

abbrev past_run : RunStatus → ScheduledTaskRun
past_run status = record {
  id = "r";
  scheduled_task_id = "h";
  occurrence_key = "h:t";
  trigger = scheduled;
  background_task_id = some "b";
  run_id = none;
  status = status;
  resume = none;
  scheduled_for = 50;
  started_at = some 60;
  completed_at = none;
  error = none;
}

abbrev second_ids : Ids
second_ids = record { run = "q"; background = "c"; uuid = "v" }

-- The background task of the first run, interrupted with a run of the agent.
abbrev interrupted_task : BackgroundTask
interrupted_task = record {
  id = "b";
  run_id = some "a";
  status = TaskStatus.interrupted;
  error = none;
}

abbrev settled_in_time : List Call
settled_in_time =
    ticks ids 60
    ∷ settles (past_run RunStatus.running) 65 none interrupted_task
    ∷ resumes "a"
    ∷ cancels "r" 70
    ∷ runs_now second_ids "h" 80
    ∷ restarts
    ∷ []

in_time : all_in_time show_time no_cron settled_in_time start ≡ true
unfolding all_in_time perform tick tick_all list_due trigger trigger_transaction create_run
    has_active_run prepare_scheduled_task is_blank owner update_run get_run update_task get_task
    next_schedule_time same
in_time = refl

perform_all-IsExclusive_example :
    IsExclusive (perform_all show_time no_cron settled_in_time start).db.runs
perform_all-IsExclusive_example =
    perform_all-IsExclusive show_time no_cron settled_in_time start in_time empty-IsExclusive

-- A run that is settled after it was cancelled becomes active again, beside one that was started
-- meanwhile.
abbrev settled_late : List Call
settled_late =
    ticks ids 60
    ∷ cancels "r" 70
    ∷ runs_now second_ids "h" 80
    ∷ settles (past_run RunStatus.running) 90 none interrupted_task
    ∷ []

two_active : active_count "h" (perform_all show_time no_cron settled_late start).db.runs ≡ 2
unfolding active_count perform_all perform tick tick_all list_due run_now cancel_run cancel_task
    get_background settle trigger trigger_transaction create_run has_active_run
    prepare_scheduled_task is_blank owner update_run get_run update_task get_task next_schedule_time
    same
two_active = refl

abbrev triggered : ScheduledTaskRun × Db
triggered = (
  past_run RunStatus.running,
  record {
    tasks = record hourly { next_run_at = some 160; last_run_at = some 50; updated_at = 60 } ∷ [];
    runs = past_run RunStatus.running ∷ [];
    background = record { id = "b"; run_id = none; status = TaskStatus.pending; error = none } ∷ [];
  },
)

first_trigger :
    trigger_transaction show_time no_cron (ids 0) hourly 50 scheduled 60 start.db ≡ ok triggered
unfolding trigger_transaction create_run has_active_run prepare_scheduled_task is_blank owner
    update_run get_run update_task get_task next_schedule_time same
first_trigger = refl

abbrev now_run : ScheduledTaskRun
now_run = record (past_run RunStatus.running) {
  occurrence_key = "h:manual:u";
  trigger = manual;
  scheduled_for = 60;
}

abbrev running_now : Scheduler
running_now = record {
  db = record {
    tasks = hourly ∷ [];
    runs = now_run ∷ [];
    background = record { id = "b"; run_id = none; status = TaskStatus.pending; error = none } ∷ [];
  };
  running = "h" ∷ [];
}

recover_runs-Settled_example :
    Pairs triggered.1.runs (recover_runs triggered.1).1.runs
    × IsExclusive (recover_runs triggered.1).1.runs
recover_runs-Settled_example =
    recover_runs-Settled triggered.1
      (record { distinct = (tt, tt); one = λ t. unfold active_count in ground arith })

-- A task that ran at 50 and has been enabled again for the same time.
abbrev again : Scheduler
again = record {
  db = record { tasks = hourly ∷ []; runs = past_run RunStatus.completed ∷ []; background = [] };
  running = [];
}

abbrev cancelled_one : Scheduler
cancelled_one = record {
  db = record { tasks = hourly ∷ []; runs = past_run RunStatus.cancelled ∷ []; background = [] };
  running = "h" ∷ [];
}

abbrev done_task : BackgroundTask
done_task = record { id = "b"; run_id = none; status = TaskStatus.completed; error = none }
