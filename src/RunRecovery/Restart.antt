-- ===== src/RunRecovery/Restart.antt =====
-- Which runs a restart resumes by itself: packages/core/src/run-recovery.ts.
use uma_agent.Base.{
  ℕ, ◌≡◌, refl, sym, subst, ap, ◌∙◌, String, Bool, true, false, not, ◌&&◌, ◌||◌, List, [], ◌∷◌,
  select, any, map, all, sort_by, insert_by, eqs, arith,
}
use uma_agent.RunRecovery.{
  running, RunAction, RunRow, Tables, is_read, is_open, is_pending, replay_read, doubt,
  mark_uncertain_actions, restart, same_status, is_empty, get_run_resume, is_available, is_selected,
  find_restart_recoverable_runs,
}

empty-select :
    (p : RunAction → Bool) (actions : List RunAction)
    → any p actions ≡ false
    → is_empty (select p actions) ≡ true
empty-select p [] h = refl
empty-select p (a ∷ actions) h = ground (arith, empty-select p actions)

selected_available :
    (t : Tables) (r : RunRow)
    → is_selected t r ≡ true
    → is_available (get_run_resume r.id r.status t) ≡ true
unfolding is_selected get_run_resume
selected_available t r h = ground (arith, empty-select (is_pending r.id) t.actions)

all-insert_by :
    (p : RunRow → Bool) (key : RunRow → ℕ) (r : RunRow) (rs : List RunRow)
    → p r ≡ true
    → all p rs ≡ true
    → all p (insert_by key r rs) ≡ true
all-insert_by p key r [] h k = ground arith
all-insert_by p key r (s ∷ rs) h k = ground (arith, all-insert_by p key r rs h)

all-sort_by :
    (p : RunRow → Bool) (key : RunRow → ℕ) (rs : List RunRow)
    → all p rs ≡ true
    → all p (sort_by key rs) ≡ true
all-sort_by p key [] h = refl
all-sort_by p key (r ∷ rs) h =
    all-insert_by p key r (sort_by key rs) (ground arith) (all-sort_by p key rs (ground arith))

all-select :
    (t : Tables) (rs : List RunRow)
    → all (λ r. is_available (get_run_resume r.id r.status t)) (select (is_selected t) rs) ≡ true
all-select t [] = refl
all-select t (r ∷ rs) = ground (arith, selected_available t r, all-select t rs)

select-all : (p : RunRow → Bool) (rs : List RunRow) → all p rs ≡ true → select p rs ≡ rs
select-all p [] h = refl
select-all p (r ∷ rs) h = ground (arith, select-all p rs)

-- The query and the filter behind it agree: every run that the query selects is one that
-- `getRunResume` calls available, so the runs a restart resumes are those of the query in the order
-- of their creation, and the filter drops none.
pub filter_redundant :
    (t : Tables)
    → find_restart_recoverable_runs t ≡ sort_by (λ r. r.created_at) (select (is_selected t) t.runs)
unfolding find_restart_recoverable_runs
filter_redundant t =
    let selected = select (is_selected t) t.runs in
    select-all (λ r. is_available (get_run_resume r.id r.status t))
      (sort_by (λ r. r.created_at) selected)
      (all-sort_by (λ r. is_available (get_run_resume r.id r.status t)) (λ r. r.created_at) selected
        (all-select t t.runs))

-- A row of the run, whose tool has effects, that was running.
abbrev pub was_running : String → RunAction → Bool
was_running id a = eqs a.run_id id && same_status a.status running && not (is_read a)

or_step :
    (a b c d : Bool)
    → (a ≡ true → c ≡ true)
    → (b ≡ true → d ≡ true)
    → (a || b) ≡ true
    → (c || d) ≡ true
or_step a b c d f g h = ground arith

-- The updates of such a row, by the tests they make.
replayed : (a : RunAction) → is_read a ≡ false → replay_read a ≡ a
replayed a h = ground arith

doubted :
    (a : RunAction)
    → same_status a.status running ≡ true
    → ((doubt a).run_id ≡ a.run_id)
      × ((doubt a).tool_class ≡ a.tool_class)
      × (is_open (doubt a).status ≡ true)
doubted a h = ground arith

and_parts : (a b c : Bool) → (a && b && c) ≡ true → (a ≡ true) × (b ≡ true) × (c ≡ true)
and_parts a b c h = ground arith

and_three : (a b c : Bool) → a ≡ true → b ≡ true → c ≡ true → (a && b && c) ≡ true
and_three a b c h k l = ground arith

not-true : (b : Bool) → not b ≡ true → b ≡ false
not-true b h = ground arith

doubt_pending :
    (id : String) (a : RunAction)
    → was_running id a ≡ true
    → is_pending id (doubt (replay_read a)) ≡ true
doubt_pending id a h =
    let parts = and_parts (eqs a.run_id id) (same_status a.status running) (not (is_read a)) h in
    let d = doubted a parts.1 in
    subst (λ b. is_pending id (doubt b) ≡ true) (sym (replayed a (not-true (is_read a) parts.2)))
      (and_three (eqs (doubt a).run_id id) (is_open (doubt a).status) (not (is_read (doubt a)))
        (ap (λ r. eqs r id) d.0 ∙ parts.0) d.2
        (ap (λ c. not (eqs c "read" || eqs c "attachment_read")) d.1 ∙ parts.2))

any-doubt :
    (id : String) (actions : List RunAction)
    → any (was_running id) actions ≡ true
    → any (is_pending id) (map doubt (map replay_read actions)) ≡ true
any-doubt id [] h = ground arith
any-doubt id (a ∷ actions) h =
    or_step (was_running id a) (any (was_running id) actions)
      (is_pending id (doubt (replay_read a)))
      (any (is_pending id) (map doubt (map replay_read actions))) (doubt_pending id a)
      (any-doubt id actions) h

any-insert_by :
    (p : RunRow → Bool) (key : RunRow → ℕ) (r : RunRow) (rs : List RunRow)
    → p r ≡ false
    → any p rs ≡ false
    → any p (insert_by key r rs) ≡ false
any-insert_by p key r [] h k = ground arith
any-insert_by p key r (s ∷ rs) h k = ground (arith, any-insert_by p key r rs h)

any-sort_by :
    (p : RunRow → Bool) (key : RunRow → ℕ) (rs : List RunRow)
    → any p rs ≡ false
    → any p (sort_by key rs) ≡ false
any-sort_by p key [] h = refl
any-sort_by p key (r ∷ rs) h =
    any-insert_by p key r (sort_by key rs) (ground arith) (any-sort_by p key rs (ground arith))

unselected :
    (t : Tables) (id : String) (rs : List RunRow)
    → any (is_pending id) t.actions ≡ true
    → any (λ r. eqs r.id id) (select (is_selected t) rs) ≡ false
unfolding is_selected
unselected t id [] h = refl
unselected t id (r ∷ rs) h = ground (arith, unselected t id rs)

-- A restart never repeats a tool that has effects: a run one of whose actions was running when the
-- server stopped, unless the tool only reads, is not among the runs that are resumed without a
-- user's decision.
pub restart_spares_effects :
    (t : Tables) (id : String)
    → any (was_running id) t.actions ≡ true
    → any (λ r. eqs r.id id) (find_restart_recoverable_runs (restart t)) ≡ false
unfolding restart mark_uncertain_actions
restart_spares_effects t id h =
    subst (λ rs. any (λ r. eqs r.id id) rs ≡ false) (sym (filter_redundant (restart t)))
      (any-sort_by (λ r. eqs r.id id) (λ r. r.created_at)
        (select (is_selected (restart t)) (restart t).runs)
        (unselected (restart t) id (restart t).runs (any-doubt id t.actions h)))
