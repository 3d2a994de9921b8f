-- ===== src/RunRecovery.antt =====
-- The actions of runs and what a restart makes of them: packages/core/src/run-recovery.ts,
-- packages/core/src/runtime-recovery.ts and the operations on `run_actions` and `run_checkpoints` of
-- packages/core/src/database.ts. Inputs and results of actions are numbers; of the restart the runs
-- and actions are modelled. Rows of a table keep the order of its keys.
pub mod Attempts
pub mod Interrupts
pub mod Restart
pub mod Tests
pub mod Transitions
use uma_agent.Base.{
  ℕ, suc, ◌+◌, String, Bool, true, false, not, ◌&&◌, ◌||◌, ◌==◌, Option, none, some, List, [], ◌∷◌,
  ◌++◌, if◌then◌else◌, length, ltb, leb, select, any, map, find, sort_by, eqs, or_else, is_some_b,
  Result, ok, err,
}

pub data ActionStatus : Type 0 where
  prepared running completed failed uncertain acknowledged rejected : ActionStatus

pub data RunStatus : Type 0 where
  queued preflight awaiting_input awaiting_confirmation run_running verifying run_completed
        run_failed cancelled interrupted :
      RunStatus

pub record RunAction : Type 0 where
  pub id : String
  pub run_id : String
  pub tool_call_id : String
  pub tool_name : String
  pub tool_class : String
  pub idempotency_key : String
  pub result : Option ℕ
  pub status : ActionStatus
  pub started_at : Option ℕ
  pub completed_at : Option ℕ
  pub error : Option String

pub record Checkpoint : Type 0 where
  pub id : String
  pub run_id : String
  pub checkpoint_no : ℕ
  pub safe_to_resume : Bool

pub record RunRow : Type 0 where
  pub id : String
  pub session_id : String
  pub status : RunStatus
  pub error : Option String
  pub created_at : ℕ

-- The tables; `background` and `recoveries` are the runs of background tasks and of the audits of
-- recoveries.
pub record Tables : Type 0 where
  pub runs : List RunRow
  pub actions : List RunAction
  pub checkpoints : List Checkpoint
  pub background : List String
  pub recoveries : List String

abbrev pub same_status : ActionStatus → ActionStatus → Bool
same_status prepared prepared = true
same_status running running = true
same_status completed completed = true
same_status failed failed = true
same_status uncertain uncertain = true
same_status acknowledged acknowledged = true
same_status rejected rejected = true
same_status _ _ = false

-- `tool_class IN ('read','attachment_read')`
abbrev pub is_read : RunAction → Bool
is_read a = eqs a.tool_class "read" || eqs a.tool_class "attachment_read"

-- `status IN ('uncertain','prepared','running')`
abbrev pub is_open : ActionStatus → Bool
is_open prepared = true
is_open running = true
is_open uncertain = true
is_open _ = false

-- `status IN ('completed','failed','rejected','acknowledged')`
abbrev pub is_final : ActionStatus → Bool
is_final completed = true
is_final failed = true
is_final rejected = true
is_final acknowledged = true
is_final _ = false

unfoldable pub create_run_action :
    String → String → String → String → String → String → Tables → Result Tables
create_run_action id run_id tool_call_id tool_name tool_class idempotency_key t =
    if any (λ a. eqs a.id id || eqs a.idempotency_key idempotency_key) t.actions
    then err "UNIQUE constraint failed"
    else ok (record t {
      actions =
          t.actions
          ++ (record {
            id = id;
            run_id = run_id;
            tool_call_id = tool_call_id;
            tool_name = tool_name;
            tool_class = tool_class;
            idempotency_key = idempotency_key;
            result = none;
            status = prepared;
            started_at = none;
            completed_at = none;
            error = none;
          }
              ∷ []);
    })

unfoldable pub get_run_action : String → Tables → Option RunAction
get_run_action id t = find (λ a. eqs a.id id) t.actions

-- What the `UPDATE` of a transition sets.
abbrev pub started : ActionStatus → ℕ → Option ℕ → Option ℕ
started running now none = some now
started status now at = at

-- What a transition may set besides the status; a result or an error that is not there stays, and
-- an error may be set to `null`.
pub record ActionPatch : Type 0 where
  pub status : ActionStatus
  pub result : Option ℕ
  pub error : Option (Option String)

unfoldable pub set_status : ActionPatch → ℕ → RunAction → RunAction
set_status patch now a = record a {
  status = patch.status;
  result = if is_some_b patch.result then patch.result else a.result;
  error = or_else patch.error a.error;
  started_at = started patch.status now a.started_at;
  completed_at = if is_final patch.status then some now else a.completed_at;
}

abbrev pub moves : String → List ActionStatus → RunAction → Bool
moves id expected a = eqs a.id id && any (same_status a.status) expected

abbrev pub is_nothing {ℓ} : {A : Type ℓ} → List A → Bool
is_nothing [] = true
is_nothing (x ∷ xs) = false

-- `transitionRunAction`; the second part of the answer is `changed`.
unfoldable pub transition_run_action :
    String → List ActionStatus → ActionPatch → ℕ → Tables → Result (Tables × Bool)
unfolding set_status get_run_action
transition_run_action id expected patch now t =
    if is_nothing expected
    then err "Expected Action status is required"
    else if not (is_some_b (get_run_action id t))
    then err "Run action not found"
    else ok (
      record t {
        actions = map (λ a. if moves id expected a then set_status patch now a else a) t.actions;
      },
      any (moves id expected) t.actions,
    )

-- The two updates of `markUncertainActions`.
abbrev pub replay_read : RunAction → RunAction
replay_read a =
    if same_status a.status running && is_read a
    then record a {
      status = prepared;
      started_at = none;
      error = some "Safe read action will be replayed after restart";
    }
    else a

abbrev pub doubt : RunAction → RunAction
doubt a =
    if same_status a.status running
    then record a { status = uncertain; error = some "Server restarted before action completion" }
    else a

unfoldable pub mark_uncertain_actions : Tables → Tables
mark_uncertain_actions t = record t { actions = map doubt (map replay_read t.actions) }

abbrev pub restart_error : String
restart_error = "Server restarted during execution"

abbrev pub is_active : RunStatus → Bool
is_active preflight = true
is_active run_running = true
is_active verifying = true
is_active _ = false

abbrev pub interrupt : RunRow → RunRow
interrupt r =
    if is_active r.status then record r { status = interrupted; error = some restart_error } else r

-- The transaction of the constructor of the database.
unfoldable pub restart : Tables → Tables
unfolding mark_uncertain_actions
restart t = mark_uncertain_actions (record t { runs = map interrupt t.runs })

-- The checkpoint with the greatest number.
abbrev pub later_of : Checkpoint → Option Checkpoint → Option Checkpoint
later_of c none = some c
later_of c (some d) = if ltb d.checkpoint_no c.checkpoint_no then some c else some d

unfoldable pub latest : List Checkpoint → Option Checkpoint
latest [] = none
latest (c ∷ cs) = later_of c (latest cs)

unfoldable pub latest_checkpoint : String → Tables → Option Checkpoint
unfolding latest
latest_checkpoint run_id t = latest (select (λ c. eqs c.run_id run_id) t.checkpoints)

abbrev pub is_safe : Option Checkpoint → Bool
is_safe none = false
is_safe (some c) = c.safe_to_resume

abbrev pub is_pending : String → RunAction → Bool
is_pending run_id a = eqs a.run_id run_id && is_open a.status && not (is_read a)

pub data ResumeState : Type 0 where
  needs_confirmation available exhausted : ResumeState

abbrev pub is_interrupted : RunStatus → Bool
is_interrupted interrupted = true
is_interrupted _ = false

abbrev pub is_empty {ℓ} : {A : Type ℓ} → List A → Bool
is_empty [] = true
is_empty (x ∷ xs) = false

-- `getRunResume`, its state.
unfoldable pub get_run_resume : String → RunStatus → Tables → Option ResumeState
unfolding latest_checkpoint
get_run_resume run_id status t =
    if not (is_interrupted status)
    then none
    else if not (is_empty (select (is_pending run_id) t.actions))
    then some needs_confirmation
    else if is_safe (latest_checkpoint run_id t)
    then some available
    else some exhausted

abbrev pub is_available : Option ResumeState → Bool
is_available none = false
is_available (some needs_confirmation) = false
is_available (some available) = true
is_available (some exhausted) = false

abbrev pub has_error : String → Option String → Bool
has_error e none = false
has_error e (some f) = eqs f e

abbrev pub attempts : String → List String → ℕ
attempts id recoveries = length (select (λ r. eqs r id) recoveries)

-- The `WHERE` of the query.
unfoldable pub is_selected : Tables → RunRow → Bool
unfolding latest_checkpoint
is_selected t r =
    is_interrupted r.status
    && has_error restart_error r.error
    && is_safe (latest_checkpoint r.id t)
    && not (any (is_pending r.id) t.actions)
    && not (any (λ b. eqs b r.id) t.background)
    && ltb (attempts r.id t.recoveries) 2

unfoldable pub find_restart_recoverable_runs : Tables → List RunRow
unfolding is_selected get_run_resume
find_restart_recoverable_runs t =
    select (λ r. is_available (get_run_resume r.id r.status t))
      (sort_by (λ r. r.created_at) (select (is_selected t) t.runs))

-- `recoverRestartedRuns`, where `goes_on` tells for each run whether `shouldContinue` holds. What
-- `resume` does is any change of the tables but of the audits, or an error, which is only reported.
unfoldable pub recover_restarted_runs :
    (String → Tables → Tables) → List RunRow → List Bool → Tables → Tables
recover_restarted_runs resume [] goes_on t = t
recover_restarted_runs resume (r ∷ rs) [] t = t
recover_restarted_runs resume (r ∷ rs) (false ∷ goes_on) t = t
recover_restarted_runs resume (r ∷ rs) (true ∷ goes_on) t =
    recover_restarted_runs resume rs goes_on
      (record (resume r.id t) { recoveries = r.id ∷ t.recoveries })

-- `updateRunAction`; a part that is not given stays.
unfoldable pub update_run_action :
    String → Option ActionStatus → Option ℕ → Option (Option String) → ℕ → Tables → Result Tables
unfolding set_status get_run_action
update_run_action id status result error now t =
    if not (is_some_b (get_run_action id t))
    then err "Run action not found"
    else ok (record t {
      actions =
          map
            (λ a.
              if eqs a.id id
              then set_status
                  (record { status = or_else status a.status; result = result; error = error }) now
                  a
              else a)
            t.actions;
    })

-- The two updates of `interruptRunActions`; `replayed` is the text for an action that only reads.
abbrev pub interrupt_action : String → String → String → RunAction → RunAction
interrupt_action run_id replayed reason a =
    if eqs a.run_id run_id && same_status a.status running
    then if is_read a
      then record a { status = prepared; started_at = none; error = some replayed }
      else record a { status = uncertain; error = some reason }
    else a

unfoldable pub interrupt_run_actions : String → String → String → Tables → Tables
interrupt_run_actions run_id replayed reason t = record t {
  actions = map (interrupt_action run_id replayed reason) t.actions;
}

-- `r.status IN ('queued','preflight',…,'interrupted')`
abbrev pub is_unfinished : RunStatus → Bool
is_unfinished run_completed = false
is_unfinished run_failed = false
is_unfinished cancelled = false
is_unfinished _ = true

-- `hasPendingSideEffects`.
unfoldable pub has_pending_side_effects : String → Tables → Bool
has_pending_side_effects session_id t =
    any
      (λ r.
        eqs r.session_id session_id && is_unfinished r.status && any (is_pending r.id) t.actions)
      t.runs
