-- ===== src/RunRecovery/Transitions.antt =====
-- That one of several decisions on an action counts: `transitionRunAction` of
-- packages/core/src/database.ts.
use uma_agent.Base.{
  ℕ, suc, ◌≤◌, ◌≡◌, refl, sym, subst, ap, ap₂, ◌∙◌, String, Bool, true, false, ◌&&◌, ◌||◌, List, [],
  ◌∷◌, if◌then◌else◌, length, select, any, map, eqs, find, is_some_b, not, Result, ok, err, arith,
  Bool-cases, inl, inr,
}
use uma_agent.RunRecovery.{
  ActionStatus, ActionPatch, RunAction, Tables, same_status, moves, is_nothing, set_status,
  get_run_action, transition_run_action,
}

-- A decision on an action: the statuses it expects, and what it sets.
pub record Decision : Type 0 where
  pub expected : List ActionStatus
  pub patch : ActionPatch
  pub now : ℕ

-- A decision that throws changes nothing.
abbrev pub told : Tables → Result (Tables × Bool) → Tables × Bool
told t (err message) = (t, false)
told t (ok r) = r

unfoldable pub decide : String → Decision → Tables → Tables × Bool
unfolding transition_run_action
decide id d t = told t (transition_run_action id d.expected d.patch d.now t)

-- The tables behind the decisions, one after the other.
unfoldable pub decide_all : String → List Decision → Tables → Tables
unfolding decide
decide_all id [] t = t
decide_all id (d ∷ ds) t = decide_all id ds (decide id d t).0

-- The tables behind the first of the decisions that is told that it changed the action, on the tables
-- as they were.
unfoldable pub first_change : String → List Decision → Tables → Tables
unfolding decide
first_change id [] t = t
first_change id (d ∷ ds) t =
    let later = first_change id ds t in if (decide id d t).1 then (decide id d t).0 else later

-- How many of the decisions on the action are told that they changed it.
unfoldable pub changes : String → List Decision → Tables → ℕ
unfolding decide
changes id [] t = 0
changes id (d ∷ ds) t =
    let more = changes id ds (decide id d t).0 in if (decide id d t).1 then suc more else more

-- The decisions expect statuses of `open` only, and set none of them.
abbrev pub is_in : List ActionStatus → ActionStatus → Bool
is_in statuses s = any (same_status s) statuses

abbrev pub AreDecisions : List ActionStatus → List Decision → Type 0
AreDecisions before [] = Unit
AreDecisions before (d ∷ ds) =
    ((s : ActionStatus) → is_in d.expected s ≡ true → is_in before s ≡ true)
    × (is_in before d.patch.status ≡ false)
    × AreDecisions before ds

-- Whether a row of the action has one of the statuses.
abbrev pub is_undecided : List ActionStatus → String → RunAction → Bool
is_undecided before id a = eqs a.id id && is_in before a.status

moves_undecided :
    (before expected : List ActionStatus) (id : String) (actions : List RunAction)
    → ((s : ActionStatus) → is_in expected s ≡ true → is_in before s ≡ true)
    → any (is_undecided before id) actions ≡ false
    → any (moves id expected) actions ≡ false
moves_undecided before expected id [] h e = refl
moves_undecided before expected id (a ∷ actions) h e =
    ground (arith, h a.status, moves_undecided before expected id actions h)

-- What the update makes of a row.
abbrev updated : String → Decision → RunAction → RunAction
unfolding set_status
updated id d a = if moves id d.expected a then set_status d.patch d.now a else a

updated-id : (id : String) (d : Decision) (a : RunAction) → (updated id d a).id ≡ a.id
unfolding updated set_status
updated-id id d a = by_test (moves id d.expected a)
  where
    by_test : (t : Bool) → (if t then set_status d.patch d.now a else a).id ≡ a.id
    by_test true = refl
    by_test false = refl

updated_decided :
    (before : List ActionStatus) (id : String) (d : Decision) (a : RunAction)
    → is_in before d.patch.status ≡ false
    → moves id d.expected a ≡ true
    → is_undecided before id (updated id d a) ≡ false
unfolding updated set_status
updated_decided before id d a n m =
    subst (λ t. is_undecided before id (if t then set_status d.patch d.now a else a) ≡ false)
      (sym m) (no_right (eqs a.id id) (is_in before d.patch.status) n)
  where
    no_right : (x y : Bool) → y ≡ false → (x && y) ≡ false
    no_right x y e = ground arith

updated_other :
    (before : List ActionStatus) (id : String) (d : Decision) (a : RunAction)
    → eqs a.id id ≡ false
    → (is_undecided before id (updated id d a) ≡ false) × (moves id d.expected a ≡ false)
updated_other before id d a h = (
  ap (λ x. x && is_in before (updated id d a).status) (ap (λ i. eqs i id) (updated-id id d a) ∙ h),
  ap (λ x. x && any (same_status a.status) d.expected) h,
)

rows_of : String → List RunAction → ℕ
rows_of id actions = length (select (λ a. eqs a.id id) actions)

rows_of-updated :
    (id : String) (d : Decision) (actions : List RunAction)
    → rows_of id (map (updated id d) actions) ≡ rows_of id actions
unfolding rows_of
rows_of-updated id d [] = refl
rows_of-updated id d (a ∷ actions) =
    ground (arith, rows_of-updated id d actions, ap (λ i. eqs i id) (updated-id id d a))

absent :
    (before : List ActionStatus) (id : String) (d : Decision) (actions : List RunAction)
    → rows_of id actions ≡ 0
    → (any (is_undecided before id) (map (updated id d) actions) ≡ false)
      × (any (moves id d.expected) actions ≡ false)
unfolding rows_of
absent before id d [] h = (refl, refl)
absent before id d (a ∷ actions) h =
    ground (arith, absent before id d actions, updated_other before id d a)

-- A change by a decision leaves no undecided row, where the action has one row.
decided_all :
    (before : List ActionStatus) (id : String) (d : Decision) (actions : List RunAction)
    → is_in before d.patch.status ≡ false
    → rows_of id actions ≤ 1
    → any (moves id d.expected) actions ≡ true
    → any (is_undecided before id) (map (updated id d) actions) ≡ false
unfolding rows_of
decided_all before id d [] n one h = ground arith
decided_all before id d (a ∷ actions) n one h = elim (Bool-cases (eqs a.id id)) [
  | inl e ↦
      let gone = absent before id d actions (ground arith) in
      none_of (is_undecided before id (updated id d a))
        (any (is_undecided before id) (map (updated id d) actions))
        (updated_decided before id d a n
          (only (moves id d.expected a) (any (moves id d.expected) actions) h gone.1))
        gone.0
  | inr e ↦
      let other = updated_other before id d a e in
      none_of (is_undecided before id (updated id d a))
        (any (is_undecided before id) (map (updated id d) actions)) other.0
        (decided_all before id d actions n (ground arith)
          (last (moves id d.expected a) (any (moves id d.expected) actions) h other.1))
]
  where
    none_of : (x y : Bool) → x ≡ false → y ≡ false → (x || y) ≡ false
    none_of x y p q = ground arith

    only : (x y : Bool) → (x || y) ≡ true → y ≡ false → x ≡ true
    only x y p q = ground arith

    last : (x y : Bool) → (x || y) ≡ true → x ≡ false → y ≡ true
    last x y p q = ground arith

updated_same :
    (id : String) (d : Decision) (actions : List RunAction)
    → any (moves id d.expected) actions ≡ false
    → map (updated id d) actions ≡ actions
unfolding updated
updated_same id d [] h = refl
updated_same id d (a ∷ actions) h =
    ap₂ (◌∷◌)
      (ap (λ t. if t then set_status d.patch d.now a else a)
        (left (moves id d.expected a) (any (moves id d.expected) actions) h))
      (updated_same id d actions
        (right (moves id d.expected a) (any (moves id d.expected) actions) h))
  where
    left : (x y : Bool) → (x || y) ≡ false → x ≡ false
    left x y p = ground arith

    right : (x y : Bool) → (x || y) ≡ false → y ≡ false
    right x y p = ground arith

expects :
    (id : String) (expected : List ActionStatus) (actions : List RunAction)
    → any (moves id expected) actions ≡ true
    → is_nothing expected ≡ false
expects id [] [] h = cc h
expects id [] (a ∷ actions) h = expects id [] actions (ground (arith, h))
expects id (s ∷ expected) actions h = refl

is_there :
    (id : String) (expected : List ActionStatus) (actions : List RunAction)
    → any (moves id expected) actions ≡ true
    → is_some_b (find (λ a. eqs a.id id) actions) ≡ true
is_there id expected [] h = cc h
is_there id expected (a ∷ actions) h = ground (arith, is_there id expected actions, h)

-- What a decision does, by whether a row moves.
decide_without_move :
    (id : String) (d : Decision) (t : Tables)
    → any (moves id d.expected) t.actions ≡ false
    → decide id d t ≡ (t, false)
unfolding decide transition_run_action updated
decide_without_move id d t h = by_tests (is_nothing d.expected) (is_some_b (get_run_action id t))
  where
    same_tables : (record t { actions = map (updated id d) t.actions }) ≡ t
    same_tables = ap (λ actions. record t { actions = actions }) (updated_same id d t.actions h)

    by_tests :
        (x y : Bool)
        → told t (
            if x
            then err "Expected Action status is required"
            else if not y
            then err "Run action not found"
            else ok (
              record t { actions = map (updated id d) t.actions },
              any (moves id d.expected) t.actions,
            ))
          ≡ (t, false)
    by_tests true y = refl
    by_tests false false = refl
    by_tests false true = ap₂ (λ (u : Tables) (b : Bool). (u, b)) same_tables h

decide-moves :
    (id : String) (d : Decision) (t : Tables)
    → any (moves id d.expected) t.actions ≡ true
    → decide id d t ≡ (record t { actions = map (updated id d) t.actions }, true)
unfolding decide transition_run_action updated get_run_action
decide-moves id d t h = rw (expects id d.expected t.actions h) (
    rw (is_there id d.expected t.actions h)
      (ap (λ (b : Bool). (record t { actions = map (updated id d) t.actions }, b)) h))

-- Behind a state without an undecided row nothing changes any more.
no_changes :
    (before : List ActionStatus) (id : String) (ds : List Decision) (t : Tables)
    → AreDecisions before ds
    → any (is_undecided before id) t.actions ≡ false
    → (changes id ds t ≡ 0) × (decide_all id ds t ≡ t)
unfolding changes decide_all
no_changes before id [] t w h = (refl, refl)
no_changes before id (d ∷ ds) t w h =
    let ih = no_changes before id ds t w.2 h in
    let idle = decide_without_move id d t (moves_undecided before d.expected id t.actions w.0 h) in
    (rw idle ih.0, rw idle ih.1)

-- Of any decisions on an action, one after the other, at most one takes effect, where they expect
-- statuses of one set and none sets one of it, and where the action has one row: at most one is told
-- that it changed the action, and behind all of them the tables are what the first that is told so
-- makes of the tables as they were. The decisions before it and behind it change nothing, and those
-- that throw neither.
pub changes_bound :
    (before : List ActionStatus) (id : String) (ds : List Decision) (t : Tables)
    → AreDecisions before ds
    → length (select (λ a. eqs a.id id) t.actions) ≤ 1
    → (changes id ds t ≤ 1) × (decide_all id ds t ≡ first_change id ds t)
unfolding changes decide_all first_change rows_of
changes_bound before id [] t w one = (omega arith, refl)
changes_bound before id (d ∷ ds) t w one = elim (Bool-cases (any (moves id d.expected) t.actions)) [
  | inl e ↦
      let after : Tables = record t { actions = map (updated id d) t.actions } in
      let rest = no_changes before id ds after w.2 (decided_all before id d t.actions w.1 one e) in
      rw (decide-moves id d t e) (omega (arith, rest.0), rest.1)
  | inr e ↦ let ih = changes_bound before id ds t w.2 one in rw (decide_without_move id d t e) ih
]
