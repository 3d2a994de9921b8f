-- ===== src/Schedule/Due.antt =====
-- A task that the clock triggered is not due again at once.
use uma_agent.Base.{
  ℕ, ◌<◌, String, ◌≡◌, ◌≢◌, refl, sym, subst, false, not, ◌&&◌, List, [], ◌∷◌, Option, none, some,
  eqs, All, arith, leb, Bool-cases, Option-cases, inl, inr, ok, >>=-eq-ok, find, if◌then◌else◌,
}
use uma_agent.Schedule.{
  ScheduleDefinition, once, interval, cron, Trigger, manual, ScheduledTask, ScheduledTaskRun, Db,
  next_schedule_time,
}
use uma_agent.Schedule.Repository.{
  get_task, apply_task_patch, write_task, update_task, is_due, or_missing, NewRun, create_run,
  update_run,
}
use uma_agent.Schedule.Service.{
  Ids, occurrence_key, advance, advance_task, trigger_transaction, prepare_scheduled_task, link,
  is_once,
}

-- What the scheduler relies on: an interval is positive, and the next run of a cron expression
-- comes after the given time.
abbrev pub Advances : (String → String → ℕ → Option ℕ) → ScheduleDefinition → Type 0
Advances next_cron (once at) = Unit {0}
Advances next_cron (interval every) = 0 < every
Advances next_cron (cron expression timezone) =
    (now n : ℕ) → next_cron expression timezone now ≡ some n → now < n

write_task-All :
    (new : ScheduledTask) (Q : ScheduledTask → Type 0) (ts : List ScheduledTask)
    → Q new
    → All (λ t. t.id ≡ new.id → Q t) (write_task new ts)
write_task-All new Q [] q = tt
write_task-All new Q (t ∷ ts) q = (written, write_task-All new Q ts q)
  where
    written :
        (if eqs t.id new.id then new else t).id ≡ new.id → Q (if eqs t.id new.id then new else t)
    written = elim (Bool-cases (eqs t.id new.id)) [
      | inl hit ↦ rw hit (λ _. q)
      | inr miss ↦ rw miss (λ p. absurd (ground arith))
    ]

get_task-id : (id : String) (db : Db) (t : ScheduledTask) → get_task id db ≡ ok t → t.id ≡ id
unfolding get_task
get_task-id id db t h = in_table (find (λ x. eqs x.id id) db.tasks) (its_id db.tasks) h
  where
    its_id :
        (xs : List ScheduledTask) (u : ScheduledTask)
        → find (λ x. eqs x.id id) xs ≡ some u
        → u.id ≡ id
    its_id [] u p = cc
    its_id (x ∷ xs) u p = ground (arith, its_id xs u)

    in_table :
        (o : Option ScheduledTask)
        → ((u : ScheduledTask) → o ≡ some u → u.id ≡ id)
        → or_missing "Scheduled task not found" o ≡ ok t
        → t.id ≡ id
    in_table none q p = cc
    in_table (some x) q p = ground (arith, q x refl)

module _ (show_time : ℕ → String) (next_cron : String → String → ℕ → Option ℕ) where
  not_due :
      (task current : ScheduledTask) (at now : ℕ)
      → Advances next_cron task.schedule
      → is_due now (apply_task_patch now (advance show_time next_cron task at now) current) ≡ false
  unfolding next_schedule_time
  not_due task current at now a = by_kind task.schedule a
    where
      next : ScheduleDefinition → Option ℕ
      next d = if is_once show_time next_cron d then none else next_schedule_time next_cron d now

      by_kind :
          (d : ScheduleDefinition)
          → Advances next_cron d
          → (not (is_once show_time next_cron d)
              && elim (next d) [ none ↦ false | some n ↦ leb n now ])
            ≡ false
      by_kind (once t) q = refl
      by_kind (interval every) q = ground arith
      by_kind (cron e z) q = elim (Option-cases (next_cron e z now)) [
        | inl p ↦ ground (arith, p)
        | inr (n, p) ↦ ground (arith, p, q now n p)
      ]

  advance_task-not_due :
      (task : ScheduledTask) (at : ℕ) (kind : Trigger) (now : ℕ) (db db' : Db)
      → kind ≢ manual
      → Advances next_cron task.schedule
      → advance_task show_time next_cron task at kind now db ≡ ok db'
      → All (λ t. t.id ≡ task.id → is_due now t ≡ false) db'.tasks
  unfolding update_task
  advance_task-not_due task at manual now db db' k a h = absurd (k refl)
  advance_task-not_due task at _ now db db' k a h =
      let p = advance show_time next_cron task at now in
      let (r, e, f) = >>=-eq-ok (update_task task.id now p db) _ h in
      let (current, g, w) = >>=-eq-ok (get_task task.id db) _ e in
      let new = apply_task_patch now p current in
      let its : new.id ≡ task.id = get_task-id task.id db current g in
      let written : db'.tasks ≡ write_task new db.tasks = ground (arith, f, w) in
      subst (λ i. All (λ t. t.id ≡ i → is_due now t ≡ false) db'.tasks) its
        (subst (λ ts. All (λ t. t.id ≡ new.id → is_due now t ≡ false) ts) (sym written)
          (write_task-All new (λ t. is_due now t ≡ false) db.tasks (not_due task current at now a)))

  -- After a trigger by the clock the task is not due at the same time: it is disabled, or its next
  -- time lies after now.
  pub trigger-not_due :
      (ids : Ids) (task : ScheduledTask) (at : ℕ) (kind : Trigger) (now : ℕ) (db : Db)
      (r : ScheduledTaskRun × Db)
      → kind ≢ manual
      → Advances next_cron task.schedule
      → trigger_transaction show_time next_cron ids task at kind now db ≡ ok r
      → All (λ t. t.id ≡ task.id → is_due now t ≡ false) r.1.tasks
  unfolding trigger_transaction
  trigger-not_due ids task at kind now db r k a h =
      let input : NewRun = record {
        scheduled_task_id = task.id;
        scheduled_for = at;
        occurrence_key = occurrence_key show_time next_cron ids task at kind;
        trigger = kind;
      } in
      let (created, e1, h1) = >>=-eq-ok (create_run ids.run input db) _ h in
      let (background, e2, h2) =
        >>=-eq-ok (prepare_scheduled_task ids.background task.prompt task.id created.1) _ h1 in
      let p = link show_time next_cron background.0 now in
      let (linked, e3, h3) = >>=-eq-ok (update_run created.0.id p background.1) _ h2 in
      let (advanced, e4, h4) =
        >>=-eq-ok (advance_task show_time next_cron task at kind now linked.1) _ h3 in
      let same_db : advanced ≡ r.1 = ground (arith, h4) in
      subst (λ (d : Db). All (λ t. t.id ≡ task.id → is_due now t ≡ false) d.tasks) same_db
        (advance_task-not_due task at kind now linked.1 advanced k a e4)
