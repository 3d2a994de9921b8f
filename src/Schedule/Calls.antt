-- ===== src/Schedule/Calls.antt =====
-- Any sequence of the steps of packages/core/src/scheduler.ts.
use uma_agent.Base.{
  ℕ, String, ◌≡◌, refl, sym, subst, Bool, true, not, ◌&&◌, ◌||◌, Option, List, [], ◌∷◌, Result, ok,
  err, arith,
}
use uma_agent.Schedule.{ScheduleDefinition, ScheduledTaskRun, BackgroundTask}
use uma_agent.Schedule.Repository.{mark_active_background_tasks_interrupted}
use uma_agent.Schedule.Service.{
  Scheduler, Ids, tick, run_now, cancel_run, on_run_resumed, create, update, delete, poll, settle,
  fail_run, start,
}
use uma_agent.Schedule.Rows.{IsExclusive}
use uma_agent.Schedule.Active.{tick-IsExclusive, run_now-IsExclusive, cancel_run-IsExclusive}
use uma_agent.Schedule.Changes.{delete-IsExclusive, runs-create, runs-update}
use uma_agent.Schedule.Writes.{
  waits, is_row_active, on_run_resumed-IsExclusive, poll-IsExclusive, settle-IsExclusive,
  fail_run-IsExclusive,
}
use uma_agent.Schedule.Recovery.{recover_runs-Settled}

-- The steps: the calls, the rounds of `monitor` and the ends of runs, and a restart of the server.
pub data Call : Type 0 where
  ticks : (ℕ → Ids) → ℕ → Call
  runs_now : Ids → String → ℕ → Call
  cancels : String → ℕ → Call
  resumes : String → Call
  creates : String → ℕ → Option String → String → String → ScheduleDefinition → Option Bool → Call
  updates :
      String → ℕ → Option String → Option String → Option ScheduleDefinition → Option Bool → Call
  deletes : String → Call
  polls : ScheduledTaskRun → BackgroundTask → Call
  settles : ScheduledTaskRun → ℕ → Option String → BackgroundTask → Call
  breaks : ScheduledTaskRun → ℕ → String → Call
  restarts : Call

-- A call that throws leaves the scheduler as it is, since its transaction is undone.
abbrev pub behind {ℓ} : {A : Type ℓ} → Scheduler → Result (A × Scheduler) → Scheduler
behind s (err message) = s
behind s (ok r) = r.1

abbrev pub unless_thrown : Scheduler → Result Scheduler → Scheduler
unless_thrown s (err message) = s
unless_thrown s (ok s') = s'

behind-IsExclusive {ℓ} :
    {A : Type ℓ} (s : Scheduler) (a : Result (A × Scheduler))
    → IsExclusive s.db.runs
    → ((r : A × Scheduler) → a ≡ ok r → IsExclusive r.1.db.runs)
    → IsExclusive (behind s a).db.runs
behind-IsExclusive s (err message) v h = v
behind-IsExclusive s (ok r) v h = h r refl

unless_thrown-IsExclusive :
    (s : Scheduler) (a : Result Scheduler)
    → IsExclusive s.db.runs
    → ((s' : Scheduler) → a ≡ ok s' → IsExclusive s'.db.runs)
    → IsExclusive (unless_thrown s a).db.runs
unless_thrown-IsExclusive s (err message) v h = v
unless_thrown-IsExclusive s (ok s') v h = h s' refl

module _ (show_time : ℕ → String) (next_cron : String → String → ℕ → Option ℕ) where
  unfoldable pub perform : Call → Scheduler → Scheduler
  unfolding tick run_now cancel_run on_run_resumed create update delete poll settle fail_run start
      mark_active_background_tasks_interrupted
  perform (ticks ids now) s = (tick show_time next_cron ids now s).0
  perform (runs_now ids id now) s = behind s (run_now show_time next_cron ids id now s)
  perform (cancels id now) s = behind s (cancel_run id now s)
  perform (resumes run_id) s = unless_thrown s (on_run_resumed run_id s)
  perform (creates id now owner_id name prompt schedule enabled) s =
      behind s (create show_time next_cron id now owner_id name prompt schedule enabled s)
  perform (updates id now name prompt schedule enabled) s =
      behind s (update show_time next_cron id now name prompt schedule enabled s)
  perform (deletes id) s = unless_thrown s (delete id s)
  perform (polls run b) s = poll run b s
  perform (settles run now resume b) s = settle run now resume b s
  perform (breaks run now message) s = fail_run run now message s
  perform restarts s = start (mark_active_background_tasks_interrupted s.db)

  unfoldable pub perform_all : List Call → Scheduler → Scheduler
  unfolding perform
  perform_all [] s = s
  perform_all (c ∷ rest) s = perform_all rest (perform c s)

  -- A run whose background task was interrupted with a run of the agent is settled while its row is
  -- active, or gone; every other step is in time.
  abbrev pub is_in_time : Call → Scheduler → Bool
  is_in_time (settles run now resume b) s = not (waits b) || is_row_active run.id s.db
  is_in_time c s = true

  unfoldable pub all_in_time : List Call → Scheduler → Bool
  unfolding perform
  all_in_time [] s = true
  all_in_time (c ∷ rest) s = let later = all_in_time rest (perform c s) in is_in_time c s && later

  perform-IsExclusive :
      (c : Call) (s : Scheduler)
      → is_in_time c s ≡ true
      → IsExclusive s.db.runs
      → IsExclusive (perform c s).db.runs
  unfolding perform start mark_active_background_tasks_interrupted
  perform-IsExclusive (ticks ids now) s t v = tick-IsExclusive show_time next_cron ids now s v
  perform-IsExclusive (runs_now ids id now) s t v =
      behind-IsExclusive s (run_now show_time next_cron ids id now s) v
        (λ r e. run_now-IsExclusive show_time next_cron ids id now s r e v)
  perform-IsExclusive (cancels id now) s t v =
      behind-IsExclusive s (cancel_run id now s) v (λ r e. cancel_run-IsExclusive id now s r e v)
  perform-IsExclusive (resumes run_id) s t v =
      unless_thrown-IsExclusive s (on_run_resumed run_id s) v
        (λ s' e. on_run_resumed-IsExclusive run_id s s' e v)
  perform-IsExclusive (creates id now owner_id name prompt schedule enabled) s t v =
      behind-IsExclusive s
        (create show_time next_cron id now owner_id name prompt schedule enabled s) v
        (λ r e.
          subst IsExclusive
            (sym
              (runs-create show_time next_cron id now owner_id name prompt schedule enabled s r e))
            v)
  perform-IsExclusive (updates id now name prompt schedule enabled) s t v =
      behind-IsExclusive s (update show_time next_cron id now name prompt schedule enabled s) v
        (λ r e.
          subst IsExclusive
            (sym (runs-update show_time next_cron id now name prompt schedule enabled s r e)) v)
  perform-IsExclusive (deletes id) s t v =
      unless_thrown-IsExclusive s (delete id s) v (λ s' e. delete-IsExclusive id s s' e v)
  perform-IsExclusive (polls run b) s t v = poll-IsExclusive run b s v
  perform-IsExclusive (settles run now resume b) s t v = settle-IsExclusive run now resume b s t v
  perform-IsExclusive (breaks run now message) s t v = fail_run-IsExclusive run now message s v
  perform-IsExclusive restarts s t v =
      (recover_runs-Settled (mark_active_background_tasks_interrupted s.db) v).1

  -- If the runs have distinct ids and no task has two that are active, the same holds after any
  -- sequence of ticks, runs at once, cancellations, resumes, changes of the tasks, rounds of the
  -- monitoring of runs and their ends in success or failure, and restarts, whatever throws in between
  -- and also where a throwing trigger cuts a tick short. This needs that a run whose background task
  -- was interrupted with a run of the agent is settled while it is still active in the table: one that
  -- was cancelled meanwhile would become active again.
  pub perform_all-IsExclusive :
      (list : List Call) (s : Scheduler)
      → all_in_time list s ≡ true
      → IsExclusive s.db.runs
      → IsExclusive (perform_all list s).db.runs
  unfolding perform_all all_in_time
  perform_all-IsExclusive [] s t v = v
  perform_all-IsExclusive (c ∷ rest) s t v =
      perform_all-IsExclusive rest (perform c s)
        (last (is_in_time c s) (all_in_time rest (perform c s)) t)
        (perform-IsExclusive c s (first (is_in_time c s) (all_in_time rest (perform c s)) t) v)
    where
      first : (x y : Bool) → (x && y) ≡ true → x ≡ true
      first x y p = ground arith

      last : (x y : Bool) → (x && y) ≡ true → y ≡ true
      last x y p = ground arith
