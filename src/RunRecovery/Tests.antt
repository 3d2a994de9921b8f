-- ===== src/RunRecovery/Tests.antt =====
-- The recovery of runs at fixed inputs.
use uma_agent.Base.{
  ◌≡◌, ◌≤◌, refl, String, true, false, none, some, List, [], ◌∷◌, any, eqs, select, sort_by, same,
  arith,
}
use uma_agent.RunRecovery.{
  ActionStatus, prepared, uncertain, running, rejected, acknowledged, RunAction, run_running,
  Tables, restart, mark_uncertain_actions, find_restart_recoverable_runs, is_selected,
  get_run_resume, latest_checkpoint, latest, transition_run_action, set_status,
}
use uma_agent.RunRecovery.Restart.{filter_redundant, restart_spares_effects}
use uma_agent.RunRecovery.Transitions.{
  Decision, changes, changes_bound, decide, decide_all, first_change,
}

abbrev action : String → String → ActionStatus → RunAction
action id tool_class status = record {
  id = id;
  run_id = "r";
  tool_call_id = id;
  tool_name = "t";
  tool_class = tool_class;
  idempotency_key = id;
  result = none;
  status = status;
  started_at = some 1;
  completed_at = none;
  error = none;
}

abbrev tables : String → Tables
tables tool_class = record {
  runs =
      record { id = "r"; session_id = "s"; status = run_running; error = none; created_at = 1 }
      ∷ [];
  actions = action "a" tool_class running ∷ [];
  checkpoints = record { id = "c"; run_id = "r"; checkpoint_no = 1; safe_to_resume = true } ∷ [];
  background = [];
  recoveries = [];
}

-- A run that was reading is resumed, one that was in a shell is not.
reading_resumed :
    any (λ r. eqs r.id "r") (find_restart_recoverable_runs (restart (tables "read"))) ≡ true
unfolding find_restart_recoverable_runs is_selected get_run_resume latest_checkpoint latest restart
    mark_uncertain_actions same
reading_resumed = refl

restart_spares_effects_example :
    any (λ r. eqs r.id "r") (find_restart_recoverable_runs (restart (tables "shell"))) ≡ false
unfolding same
restart_spares_effects_example = restart_spares_effects (tables "shell") "r" refl

filter_redundant_example :
    find_restart_recoverable_runs (restart (tables "read"))
    ≡ sort_by
        (λ r. r.created_at)
        (select (is_selected (restart (tables "read"))) (restart (tables "read")).runs)
filter_redundant_example = filter_redundant (restart (tables "read"))

-- The user rejects an action in one window and acknowledges it in another.
abbrev decisions : List Decision
decisions =
    record {
      expected = prepared ∷ uncertain ∷ [];
      patch = record { status = rejected; result = none; error = some (some "Rejected") };
      now = 2;
    }
    ∷ record {
      expected = uncertain ∷ [];
      patch = record { status = acknowledged; result = some 1; error = none };
      now = 3;
    }
    ∷ []

abbrev doubtful : Tables
doubtful = record (tables "shell") { actions = action "a" "shell" uncertain ∷ [] }

one_change : changes "a" decisions doubtful ≡ 1
unfolding changes decide transition_run_action set_status same
one_change = refl

changes_bound_example :
    (changes "a" decisions doubtful ≤ 1)
    × (decide_all "a" decisions doubtful ≡ first_change "a" decisions doubtful)
unfolding same
changes_bound_example =
    changes_bound (prepared ∷ uncertain ∷ []) "a" decisions doubtful
      ((λ s h. h), refl, ((λ s h. ground arith), refl, tt)) (omega arith)
