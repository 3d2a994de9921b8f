-- ===== src/RunApprovals/Shutdown.antt =====
-- That a shutdown answers everyone who waits for an approval:
-- packages/core/src/run-approvals.ts.
use uma_agent.Base.{
  ℕ, ◌≡◌, ◌∙◌, ap, refl, sym, subst, String, Bool, true, false, ◌&&◌, Option, none, some, List, [],
  ◌∷◌, if◌then◌else◌, is_some_b, map, any, All, All-map, Result, ok, err, eqs, arith, Option-cases,
  Bool-cases, inl, inr,
}
use uma_agent.JsMap.{get, get-delete}
use uma_agent.RunApprovals.{
  ApprovalStatus, denied, Approval, Ask, Approvals, is_pending, get_approval, close_row,
  resolve_approval, note, finish, finish_waiting, decide, resolve_by, resolve, reject_rest,
  reject_each, reject_all,
}
use uma_agent.RunApprovals.Once.{
  IsCoherent, agrees, answers_to, Closes, close-Closes, closed_by, resolve-IsCoherent,
}

-- What a rejection leaves of the waits and the answers, where the state is coherent.
pub record Rejects (id : String) (w v : Approvals) : Type 0 where
  pub row_kept : (j : String) → is_some_b (get j v.rows) ≡ is_some_b (get j w.rows)
  pub wait_ended : (j : String) → get j v.pending ≡ (if eqs id j then none else get j w.pending)
  pub told_no :
      (j : String)
      → answers_to j v.answers ≡ (
          if eqs id j && is_some_b (get id w.pending)
          then false ∷ answers_to j w.answers
          else answers_to j w.answers)

missing_alone :
    (p : Option Ask) (answers : List Bool) → agrees none (is_some_b p) answers ≡ true → p ≡ none
missing_alone none answers h = refl
missing_alone (some p) answers h = ground arith

decided_alone :
    (a : Approval) (p : Option Ask) (answers : List Bool)
    → agrees (some a) (is_some_b p) answers ≡ true
    → is_pending a.status ≡ false
    → p ≡ none
decided_alone a none answers h d = refl
decided_alone a (some p) answers h d = ground arith

closed_some :
    (status : ApprovalStatus) (now : ℕ) (o : Option Approval)
    → is_some_b (closed_by status now o) ≡ is_some_b o
closed_some status now none = refl
closed_some status now (some a) = ground arith

same-Rejects : (id : String) (w : Approvals) → get id w.pending ≡ none → Rejects id w w
same-Rejects id w h = record {
  row_kept = λ j. refl;
  wait_ended = λ j. ground arith;
  told_no = λ j. ground arith;
}

waiting-Rejects :
    (status : ApprovalStatus) (now : ℕ) (id : String) (w v : Approvals)
    → Closes status now id w v
    → Rejects id w (finish_waiting (is_some_b (get id v.pending)) id false v)
unfolding finish_waiting finish
waiting-Rejects status now id w v c = record {
  row_kept = λ j. ground (arith, c.rows_closed j, closed_some status now (get id w.rows));
  wait_ended = λ j. ground (arith, get-delete id j v.pending, c.pending_kept);
  told_no = λ j. ground (arith, c.pending_kept, c.answers_kept);
}

resolve_by-Rejects :
    (o : Option Approval) (now : ℕ) (id : String) (w : Approvals)
    → get id w.rows ≡ o
    → IsCoherent w
    → Rejects id w (resolve_by o now id false w)
unfolding resolve_by decide resolve_approval IsCoherent
resolve_by-Rejects none now id w e h = same-Rejects id w (
    missing_alone (get id w.pending) (answers_to id w.answers)
      (ap (λ o. agrees o (is_some_b (get id w.pending)) (answers_to id w.answers)) (sym e) ∙ h id))
resolve_by-Rejects (some a) now id w e h = elim (Bool-cases (is_pending a.status)) [
  | inl p ↦ subst (Rejects id w) (sym (ap (λ t. if t then decide now id false w else w) p)) (
      waiting-Rejects denied now id w (note (get id w1.rows) denied w1)
        (close-Closes (get id w1.rows) denied denied now id w))
  | inr d ↦ subst (Rejects id w) (sym (ap (λ t. if t then decide now id false w else w) d)) (
      same-Rejects id w (
        decided_alone a (get id w.pending) (answers_to id w.answers)
          (ap (λ o. agrees o (is_some_b (get id w.pending)) (answers_to id w.answers)) (sym e)
            ∙ h id)
          d))
]
  where
    w1 : Approvals
    w1 = close_row (get id w.rows) denied now id w

found_ok :
    (id : String) (w : Approvals)
    → is_some_b (get id w.rows) ≡ true
    → (a : Approval) × (get_approval id w ≡ ok a)
unfolding get_approval
found_ok id w h = elim (Option-cases (get id w.rows)) [
  | inl e ↦ ground arith
  | inr (a, e) ↦ (a, ap found e)
]
  where
    found : Option Approval → Result Approval
    found o = elim o [ none ↦ err "Approval not found" | some a ↦ ok a ]

HasRows : Approvals → List String → Type 0
HasRows w ids = All (λ id. is_some_b (get id w.rows) ≡ true) ids

-- What the rejection of the ids leaves at an id.
record Ends (ids : List String) (j : String) (w v : Approvals) : Type 0 where
  wait_gone : get j v.pending ≡ (if any (λ i. eqs i j) ids then none else get j w.pending)
  no_given : answers_to j v.answers ≡ (
      if any (λ i. eqs i j) ids && is_some_b (get j w.pending)
      then false ∷ answers_to j w.answers
      else answers_to j w.answers)

HasRows-kept :
    (id : String) (w v : Approvals) (ids : List String)
    → Rejects id w v
    → HasRows w ids
    → HasRows v ids
unfolding HasRows
HasRows-kept id w v ids k r =
    All-map (λ i. is_some_b (get i w.rows) ≡ true) (λ i. is_some_b (get i v.rows) ≡ true)
      (λ i h. k.row_kept i ∙ h) ids r

first-Ends :
    (id : String) (ids : List String) (j : String) (w v u : Approvals)
    → Rejects id w v
    → Ends ids j v u
    → Ends (id ∷ ids) j w u
first-Ends id ids j w v u k e = ground (arith, k.wait_ended j, k.told_no j, e.wait_gone, e.no_given)

reject_each-Ends :
    (now : ℕ) (ids : List String) (j : String) (w : Approvals)
    → IsCoherent w
    → HasRows w ids
    → Ends ids j w (reject_each now ids w)
unfolding reject_each HasRows resolve
reject_each-Ends now [] j w h r = record { wait_gone = refl; no_given = refl }
reject_each-Ends now (id ∷ ids) j w h r =
    let v = resolve_by (get id w.rows) now id false w in
    let k = resolve_by-Rejects (get id w.rows) now id w refl h in
    let found = found_ok id v (k.row_kept id ∙ r.0) in
    subst (λ o. Ends (id ∷ ids) j w (reject_rest o w (reject_each now ids v))) (sym found.1)
      (first-Ends id ids j w v (reject_each now ids v) k (
        reject_each-Ends now ids j v (resolve-IsCoherent now id false w h)
          (HasRows-kept id w v ids k r.1)))

keys_wait : (m : List (String × Ask)) → All (λ id. is_some_b (get id m) ≡ true) (map (λ p. p.0) m)
unfolding get
keys_wait [] = tt
keys_wait ((i, v) ∷ m) = (
  ground arith,
  All-map (λ id. is_some_b (get id m) ≡ true) (λ id. is_some_b (get id ((i, v) ∷ m)) ≡ true)
      (λ id h. ground arith) (map (λ p. p.0) m) (keys_wait m),
)

any-keys :
    (j : String) (m : List (String × Ask))
    → any (λ i. eqs i j) (map (λ p. p.0) m) ≡ is_some_b (get j m)
unfolding get
any-keys j [] = refl
any-keys j ((i, v) ∷ m) = ground (arith, any-keys j m)

row_there :
    (o : Option Approval) (answers : List Bool) → agrees o true answers ≡ true → is_some_b o ≡ true
row_there none answers h = ground arith
row_there (some a) answers h = refl

unanswered :
    (o : Option Approval) (answers : List Bool) → agrees o true answers ≡ true → answers ≡ []
unanswered none answers h = ground arith
unanswered (some a) [] h = refl
unanswered (some a) (x ∷ answers) h = ground arith

all_there : (w : Approvals) → IsCoherent w → HasRows w (map (λ p. p.0) w.pending)
unfolding IsCoherent HasRows
all_there w h =
    All-map (λ id. is_some_b (get id w.pending) ≡ true) (λ id. is_some_b (get id w.rows) ≡ true)
      (λ id p.
        row_there (get id w.rows) (answers_to id w.answers)
          (ap (λ t. agrees (get id w.rows) t (answers_to id w.answers)) (sym p) ∙ h id))
      (map (λ p. p.0) w.pending) (keys_wait w.pending)

-- A shutdown answers everyone: behind `rejectAll` nobody waits for any id, and who waited for one
-- has got the answer no, once.
pub reject_all_ends :
    (now : ℕ) (w : Approvals) (id : String)
    → IsCoherent w
    → (get id (reject_all now w).pending ≡ none)
      × (is_some_b (get id w.pending) ≡ true
          → answers_to id (reject_all now w).answers ≡ false ∷ [])
unfolding reject_all IsCoherent
reject_all_ends now w id h =
    let ends = reject_each-Ends now (map (λ p. p.0) w.pending) id w h (all_there w h) in
    ground (
      arith,
      ends.wait_gone,
      ends.no_given,
      any-keys id w.pending,
      h id,
      unanswered (get id w.rows) (answers_to id w.answers),
    )
