-- ===== src/Schedule/Active.antt =====
-- No scheduled task has two active runs.
use uma_agent.Base.{
  ℕ, ◌+◌, String, ◌≡◌, refl, ap, sym, subst, ◌∙◌, true, false, not, List, [], ◌∷◌, ◌++◌, Option,
  none, some, Result, ok, err, ◌>>=◌, >>=-eq-ok, eqs, any, find, map, if◌then◌else◌, or_else, All,
  arith, Bool-cases, inl, inr,
}
use uma_agent.Schedule.{
  Trigger, scheduled, catchup, manual, RunStatus, TaskStatus, ScheduledTask, ScheduledTaskRun,
  BackgroundTask, Db, is_active, is_blank,
}
use uma_agent.Schedule.Repository.{
  or_missing, get_task, get_run, owner, update_task, holds, has_active_run, NewRun, claim,
  create_run, RunPatch, no_patch, apply_run_patch, write_run, update_run,
}
use uma_agent.Schedule.Service.{
  Scheduler, Ids, prepare_scheduled_task, owned, trigger_transaction, trigger, tick_task, tick_all,
  tick, run_now, advance_task, advance, link, is_skipped, go_on, trigger_kind, cancel_run,
  cancel_linked, cancel_task, cancel_background, get_background, is_open, occurrence_key,
}
use uma_agent.Schedule.Rows.{
  IsExclusive, create_run-ok, claim-IsExclusive, write_run-count, write_run-distinct, found_only,
  get_run-find, update_run-ok,
}

-- An update that does not make an inactive run active keeps the table exclusive.
pub update_run-IsExclusive :
    (id : String) (p : RunPatch) (db : Db) (r : ScheduledTaskRun × Db)
    → update_run id p db ≡ ok r
    → ((current : ScheduledTaskRun)
        → get_run id db ≡ ok current
        → is_active (or_else p.status current.status) ≡ true
        → is_active current.status ≡ true)
    → IsExclusive db.runs
    → IsExclusive r.1.runs
update_run-IsExclusive id p db r h keeps v =
    let (current, e, _, f) = update_run-ok id p db r h in
    let (g, k) = get_run-find id db current e in
    let new = apply_run_patch p current in
    rw f (record {
      distinct = write_run-distinct new db.runs v.distinct;
      one = λ t.
          let rows =
            found_only id db.runs current (λ x. holds t new ≡ true → holds t x ≡ true) v.distinct g
              (λ a. ground (arith, keeps current e, a)) in
          omega (
            arith,
            v.one t,
            write_run-count t new db.runs (
                subst (λ i. All (λ x. x.id ≡ i → holds t new ≡ true → holds t x ≡ true) db.runs)
                  (sym k) rows),
          );
    })

runs-prepare :
    (id prompt schedule_id : String) (db : Db) (r : BackgroundTask × Db)
    → prepare_scheduled_task id prompt schedule_id db ≡ ok r
    → r.1.runs ≡ db.runs
unfolding prepare_scheduled_task
runs-prepare id prompt schedule_id db r h = elim (Bool-cases (is_blank prompt)) [
  | inl blank ↦ absurd (refused (rw blank at h))
  | inr full ↦ made (owner schedule_id db) (rw full at h)
]
  where
    new : BackgroundTask
    new = record { id = id; run_id = none; status = TaskStatus.pending; error = none }

    refused : err "Task prompt is required" ≡ ok r → ⊥
    refused p = cc

    made :
        (o : Option String)
        → (owned o >>= λ _. ok (new, record db { background = db.background ++ new ∷ [] })) ≡ ok r
        → r.1.runs ≡ db.runs
    made none p = cc
    made (some w) p = ground arith

pub runs-update_task :
    (id : String) (now : ℕ) (p : uma_agent.Schedule.Repository.TaskPatch) (db : Db)
    (r : ScheduledTask × Db)
    → update_task id now p db ≡ ok r
    → r.1.runs ≡ db.runs
unfolding update_task
runs-update_task id now p db r h =
    let (current, e, f) = >>=-eq-ok (get_task id db) _ h in ground (arith, f)

module _ (show_time : ℕ → String) (next_cron : String → String → ℕ → Option ℕ) where
  runs-advance :
      (task : ScheduledTask) (at : ℕ) (kind : Trigger) (now : ℕ) (db db' : Db)
      → advance_task show_time next_cron task at kind now db ≡ ok db'
      → db'.runs ≡ db.runs
  runs-advance task at manual now db db' h = ground arith
  runs-advance task at _ now db db' h =
      let p = advance show_time next_cron task at now in
      let (r, e, f) = >>=-eq-ok (update_task task.id now p db) _ h in
      ground (arith, f, runs-update_task task.id now p db r e)

  find_claim :
      (id : String) (xs : List ScheduledTaskRun) (c r : ScheduledTaskRun)
      → any (λ x. eqs x.id id) xs ≡ false
      → find (λ x. eqs x.id id) (xs ++ c ∷ []) ≡ some r
      → r ≡ c
  find_claim id [] c r n h = ground arith
  find_claim id (x ∷ xs) c r n h = ground (arith, find_claim id xs c r)

  find_claimed :
      (id id' : String) (xs rows : List ScheduledTaskRun) (c r : ScheduledTaskRun)
      → any (λ x. eqs x.id id) xs ≡ false
      → rows ≡ xs ++ c ∷ []
      → id' ≡ id
      → find (λ x. eqs x.id id') rows ≡ some r
      → r ≡ c
  find_claimed id id' xs rows c r n e i f = find_claim id xs c r n (
      subst (λ k. find (λ x. eqs x.id k) (xs ++ c ∷ []) ≡ some r) i
        (subst (λ l. find (λ x. eqs x.id id') l ≡ some r) e f))

  pub trigger_transaction-IsExclusive :
      (ids : Ids) (task : ScheduledTask) (at : ℕ) (kind : Trigger) (now : ℕ) (db : Db)
      (r : ScheduledTaskRun × Db)
      → trigger_transaction show_time next_cron ids task at kind now db ≡ ok r
      → IsExclusive db.runs
      → IsExclusive r.1.runs
  unfolding trigger_transaction
  trigger_transaction-IsExclusive ids task at kind now db r h v =
      let input : NewRun = record {
        scheduled_task_id = task.id;
        scheduled_for = at;
        occurrence_key = occurrence_key show_time next_cron ids task at kind;
        trigger = kind;
      } in
      let (created, e1, h1) = >>=-eq-ok (create_run ids.run input db) _ h in
      let (background, e2, h2) =
        >>=-eq-ok (prepare_scheduled_task ids.background task.prompt task.id created.1) _ h1 in
      let p = link show_time next_cron background.0 now in
      let (linked, e3, h3) = >>=-eq-ok (update_run created.0.id p background.1) _ h2 in
      let (advanced, e4, h4) =
        >>=-eq-ok (advance_task show_time next_cron task at kind now linked.1) _ h3 in
      let (free, new, c0, c1) = create_run-ok ids.run input db created e1 in
      let claimed : background.1.runs ≡ db.runs ++ claim ids.run input ∷ [] =
        runs-prepare ids.background task.prompt task.id created.1 background e2
        ∙ ap (λ (d : Db). d.runs) c1 in
      let exclusive : IsExclusive background.1.runs =
        subst IsExclusive (sym claimed) (claim-IsExclusive ids.run input db.runs free new v) in
      let stays : (current : ScheduledTaskRun)
          → get_run created.0.id background.1 ≡ ok current
          → is_active RunStatus.running ≡ true
          → is_active current.status ≡ true =
        λ current g a.
          let found = (get_run-find created.0.id background.1 current g).0 in
          let same_id : created.0.id ≡ ids.run = ap (λ (x : ScheduledTaskRun). x.id) c0 in
          let c : current ≡ claim ids.run input =
            find_claimed ids.run created.0.id db.runs background.1.runs (claim ids.run input)
              current new claimed same_id found in
          subst (λ (x : ScheduledTaskRun). is_active x.status ≡ true) (sym c) refl in
      let after : IsExclusive linked.1.runs =
        update_run-IsExclusive created.0.id p background.1 linked e3 stays exclusive in
      let same_runs : r.1.runs ≡ linked.1.runs =
        ground (arith, h4, runs-advance task at kind now linked.1 advanced e4) in
      subst IsExclusive (sym same_runs) after

  trigger-IsExclusive :
      (ids : Ids) (task : ScheduledTask) (at : ℕ) (kind : Trigger) (now : ℕ) (s : Scheduler)
      (r : ScheduledTaskRun × Scheduler)
      → trigger show_time next_cron ids task at kind now s ≡ ok r
      → IsExclusive s.db.runs
      → IsExclusive r.1.db.runs
  unfolding trigger
  trigger-IsExclusive ids task at kind now s r h v =
      let (t, e, f) =
        >>=-eq-ok (trigger_transaction show_time next_cron ids task at kind now s.db) _ h in
      let same_runs : r.1.db.runs ≡ t.1.runs = ground (arith, f) in
      subst IsExclusive (sym same_runs)
        (trigger_transaction-IsExclusive ids task at kind now s.db t e v)

  -- If the runs have distinct ids and no task has two that are active, the same holds after a task is
  -- run at once.
  pub run_now-IsExclusive :
      (ids : Ids) (id : String) (now : ℕ) (s : Scheduler) (r : ScheduledTaskRun × Scheduler)
      → run_now show_time next_cron ids id now s ≡ ok r
      → IsExclusive s.db.runs
      → IsExclusive r.1.db.runs
  unfolding run_now
  run_now-IsExclusive ids id now s r h v =
      let (task, e, f) = >>=-eq-ok (get_task id s.db) _ h in
      trigger-IsExclusive ids task now manual now s r f v

  tick_all-IsExclusive :
      (ids : ℕ → Ids) (n now : ℕ) (ts : List ScheduledTask) (s : Scheduler)
      → IsExclusive s.db.runs
      → IsExclusive (tick_all show_time next_cron ids n now ts s).0.db.runs
  unfolding tick_all
  tick_all-IsExclusive ids n now [] s v = v
  tick_all-IsExclusive ids n now (t ∷ ts) s v =
      elim (Bool-cases (is_skipped show_time next_cron t s)) [
        | inl skip ↦ rw skip (tick_all-IsExclusive ids n now ts s v)
        | inr go ↦ rw go (
            one_more (tick_task show_time next_cron (ids n) t now s) refl
              (λ s' w. tick_all-IsExclusive ids (n + 1) now ts s' w))
      ]
    where
      at : ℕ
      at = or_else t.next_run_at now

      one_more :
          (a : Result Scheduler)
          → tick_task show_time next_cron (ids n) t now s ≡ a
          → ((s' : Scheduler)
              → IsExclusive s'.db.runs
              → IsExclusive (tick_all show_time next_cron ids (n + 1) now ts s').0.db.runs)
          → IsExclusive
              (go_on show_time next_cron
                (tick_all show_time next_cron ids (n + 1) now ts)
                s
                a).0.db.runs
      one_more (err m) e rest = v
      one_more (ok s') e rest =
          let kind = trigger_kind show_time next_cron at now in
          let (r, g, f) = >>=-eq-ok (trigger show_time next_cron (ids n) t at kind now s) _ e in
          let same_state : r.1 ≡ s' = ground (arith, f) in
          rest s' (
            subst (λ (x : Scheduler). IsExclusive x.db.runs) same_state
              (trigger-IsExclusive (ids n) t at kind now s r g v))

  -- If the runs have distinct ids and no task has two that are active, the same holds after a tick,
  -- also after one that a throwing trigger cuts short.
  pub tick-IsExclusive :
      (ids : ℕ → Ids) (now : ℕ) (s : Scheduler)
      → IsExclusive s.db.runs
      → IsExclusive (tick show_time next_cron ids now s).0.db.runs
  unfolding tick
  tick-IsExclusive ids now s v = tick_all-IsExclusive ids 0 now _ s v

cancel_linked-runs :
    (b : Option String) (db db' : Db) → cancel_linked b db ≡ ok db' → db'.runs ≡ db.runs
unfolding cancel_task
cancel_linked-runs none db db' h = ground arith
cancel_linked-runs (some b) db db' h =
    let (task, e, f) = >>=-eq-ok (get_background b db) _ h in
    elim (Bool-cases (is_open task.status)) [
      | inl open_task ↦ written (rw open_task at f)
      | inr over ↦ kept (rw over at f)
    ]
  where
    written :
        ok (record db {
          background = map (λ t. if eqs t.id b then cancel_background t else t) db.background;
        })
          ≡ ok db'
        → db'.runs ≡ db.runs
    written p = ground arith

    kept : ok db ≡ ok db' → db'.runs ≡ db.runs
    kept p = ground arith

-- If the runs have distinct ids and no task has two that are active, the same holds after a run is
-- cancelled.
pub cancel_run-IsExclusive :
    (id : String) (now : ℕ) (s : Scheduler) (r : ScheduledTaskRun × Scheduler)
    → cancel_run id now s ≡ ok r
    → IsExclusive s.db.runs
    → IsExclusive r.1.db.runs
unfolding cancel_run
cancel_run-IsExclusive id now s r h v =
    let (run, e, f) = >>=-eq-ok (get_run id s.db) _ h in
    elim (Bool-cases (not (is_active run.status))) [
      | inl over ↦ ended run (rw over at f)
      | inr active ↦ stopped run (rw active at f)
    ]
  where
    ended : (run : ScheduledTaskRun) → ok (run, s) ≡ ok r → IsExclusive r.1.db.runs
    ended run p =
        let e : r.1 ≡ s = ground arith in subst (λ (x : Scheduler). IsExclusive x.db.runs) (sym e) v

    patch : RunPatch
    patch = record no_patch {
      status = some RunStatus.cancelled;
      completed_at = some now;
      error = some (some "Cancelled by user");
      resume = some none;
    }

    stopped :
        (run : ScheduledTaskRun)
        → (cancel_linked run.background_task_id s.db >>= λ db.
            update_run id patch db >>= λ u. ok (u.0, record s { db = u.1 }))
          ≡ ok r
        → IsExclusive r.1.db.runs
    stopped run p =
        let (db, c, q) = >>=-eq-ok (cancel_linked run.background_task_id s.db) _ p in
        let (u, e, f) = >>=-eq-ok (update_run id patch db) _ q in
        let same_runs : r.1.db.runs ≡ u.1.runs = ground (arith, f) in
        subst IsExclusive (sym same_runs) (
          update_run-IsExclusive id patch db u e (λ c g a. cc a)
            (subst IsExclusive (sym (cancel_linked-runs run.background_task_id s.db db c)) v))
