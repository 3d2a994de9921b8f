-- ===== src/RunRecovery/Interrupts.antt =====
-- What an interruption makes of the actions of a run: `interruptRunActions` of
-- packages/core/src/database.ts.
use uma_agent.Base.{
  ◌≡◌, refl, String, Bool, true, false, ◌&&◌, ◌||◌, List, [], ◌∷◌, any, map, none, some, eqs,
  if◌then◌else◌, arith,
}
use uma_agent.RunRecovery.{
  RunAction, Tables, prepared, uncertain, running, is_read, same_status, interrupt_action,
  interrupt_run_actions,
}

-- Whether the action is one of the run that is running.
abbrev pub runs_for : String → RunAction → Bool
runs_for run_id a = eqs a.run_id run_id && same_status a.status running

and_false : (b : Bool) → (b && false) ≡ false
and_false b = ground arith

interrupted_by :
    (run_id replayed reason : String) (a : RunAction) (t u : Bool)
    → runs_for run_id a ≡ t
    → runs_for run_id (
        if t
        then if u
          then record a { status = prepared; started_at = none; error = some replayed }
          else record a { status = uncertain; error = some reason }
        else a)
      ≡ false
interrupted_by run_id replayed reason a true true h = and_false (eqs a.run_id run_id)
interrupted_by run_id replayed reason a true false h = and_false (eqs a.run_id run_id)
interrupted_by run_id replayed reason a false u h = h

none_running :
    (run_id replayed reason : String) (actions : List RunAction)
    → any (runs_for run_id) (map (interrupt_action run_id replayed reason) actions) ≡ false
none_running run_id replayed reason [] = refl
none_running run_id replayed reason (a ∷ actions) =
    neither (runs_for run_id (interrupt_action run_id replayed reason a))
      (any (runs_for run_id) (map (interrupt_action run_id replayed reason) actions))
      (interrupted_by run_id replayed reason a (runs_for run_id a) (is_read a) refl)
      (none_running run_id replayed reason actions)
  where
    neither : (x y : Bool) → x ≡ false → y ≡ false → (x || y) ≡ false
    neither x y p q = ground arith

-- Behind an interruption no action of the run is running.
pub interrupt_stops :
    (run_id replayed reason : String) (t : Tables)
    → any (runs_for run_id) (interrupt_run_actions run_id replayed reason t).actions ≡ false
unfolding interrupt_run_actions
interrupt_stops run_id replayed reason t = none_running run_id replayed reason t.actions
