-- ===== src/Schedule/Recovery.antt =====
-- What a restart makes of the runs.
use uma_agent.Base.{
  ℕ, ◌≤◌, String, ◌≡◌, ◌≢◌, refl, sym, subst, List, [], ◌∷◌, none, some, map, All, arith,
}
use uma_agent.Schedule.{RunStatus, ScheduledTaskRun, Db}
use uma_agent.Schedule.Repository.{holds, recover_run, recover_runs}
use uma_agent.Schedule.Rows.{active_count, DistinctIds, IsExclusive}

-- No run is running; a claimed run that was running has no run of the agent, and one that waits for
-- its resume has one.
abbrev pub Settled : ScheduledTaskRun → ScheduledTaskRun → Type 0
Settled before r =
    (r.status ≢ RunStatus.running)
    × (before.status ≡ RunStatus.running → before.run_id ≡ none → r.status ≡ RunStatus.claimed)
    × ((i : String)
        → before.status ≡ RunStatus.running
        → before.run_id ≡ some i
        → r.status ≡ RunStatus.awaiting_resume)
    × (before.status ≢ RunStatus.running → r ≡ before)

recover_run-Settled : (r : ScheduledTaskRun) → Settled r (recover_run r)
recover_run-Settled r = (ground arith, ground arith, ground arith, ground arith)

-- Two tables side by side.
abbrev pub Pairs : List ScheduledTaskRun → List ScheduledTaskRun → Type 0
Pairs [] [] = Unit
Pairs (b ∷ bs) (r ∷ rs) = Settled b r × Pairs bs rs
Pairs _ _ = ⊥

recovered-Pairs : (rs : List ScheduledTaskRun) → Pairs rs (map recover_run rs)
recovered-Pairs [] = tt
recovered-Pairs (r ∷ rs) = (recover_run-Settled r, recovered-Pairs rs)

recover_run-holds : (t : String) (r : ScheduledTaskRun) → holds t (recover_run r) ≡ holds t r
recover_run-holds t r = ground arith

recover-count :
    (t : String) (rs : List ScheduledTaskRun)
    → active_count t (map recover_run rs) ≡ active_count t rs
unfolding active_count
recover-count t [] = refl
recover-count t (r ∷ rs) = ground (arith, recover-count t rs, recover_run-holds t r)

recover-ids :
    (k : String) (rs : List ScheduledTaskRun)
    → All (λ x. x.id ≢ k) rs
    → All (λ x. x.id ≢ k) (map recover_run rs)
recover-ids k [] h = tt
recover-ids k (r ∷ rs) h = (ground (arith, h.0), recover-ids k rs h.1)

recover-distinct : (rs : List ScheduledTaskRun) → DistinctIds rs → DistinctIds (map recover_run rs)
recover-distinct [] d = tt
recover-distinct (r ∷ rs) d = (kept, recover-distinct rs d.1)
  where
    same_id : (recover_run r).id ≡ r.id
    same_id = ground arith

    kept : All (λ x. x.id ≢ (recover_run r).id) (map recover_run rs)
    kept =
        subst (λ k. All (λ x. x.id ≢ k) (map recover_run rs)) (sym same_id)
          (recover-ids r.id rs d.0)

-- After a restart no run is left running: one without a run of the agent is claimed again, one with
-- it waits for its resume, every other run is as it was, and the table stays exclusive.
pub recover_runs-Settled :
    (db : Db)
    → IsExclusive db.runs
    → Pairs db.runs (recover_runs db).1.runs × IsExclusive (recover_runs db).1.runs
unfolding recover_runs
recover_runs-Settled db v = (
  recovered-Pairs db.runs,
  record {
    distinct = recover-distinct db.runs v.distinct;
    one = λ t. subst (λ (n : ℕ). n ≤ 1) (sym (recover-count t db.runs)) (v.one t);
  },
)
