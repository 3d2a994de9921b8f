-- ===== src/RunApprovals/Once.antt =====
-- That each wait for an approval ends once, with the answer that the table records:
-- packages/core/src/run-approvals.ts.
use uma_agent.Base.{
  ℕ, ◌≡◌, ◌∙◌, ap, refl, sym, String, Bool, true, false, Option, none, some, List, [], ◌∷◌,
  if◌then◌else◌, is_some_b, map, Result, ok, err, eqs, arith,
}
use uma_agent.JsMap.{get, get-put, get-delete}
use uma_agent.RunApprovals.{
  ApprovalStatus, pending, approved, denied, expired, Approval, Ask, Approvals, Call, requests,
  resolves, aborts, rejects_all, is_pending, row_of, closed, close_row, resolve_approval,
  expire_approval, note, finish, finish_waiting, decide, resolve_by, resolve, abort, open_request,
  request, reject_rest, reject_each, reject_all, step, run,
}

-- The answers that were given for the id, latest first.
abbrev pub answers_to : String → List (String × Bool) → List Bool
answers_to id [] = []
answers_to id ((j, b) ∷ rest) = let more = answers_to id rest in if eqs j id then b ∷ more else more

abbrev pub status_agrees : ApprovalStatus → Bool → List Bool → Bool
status_agrees pending waits [] = true
status_agrees status false [] = true
status_agrees approved false (true ∷ []) = true
status_agrees denied false (false ∷ []) = true
status_agrees expired false (false ∷ []) = true
status_agrees status waits answers = false

-- A row that waits is pending and unanswered; an answer is the only one, and it is the decision of
-- the row; without a row there is neither.
abbrev pub agrees : Option Approval → Bool → List Bool → Bool
agrees none false [] = true
agrees none waits answers = false
agrees (some a) waits answers = status_agrees a.status waits answers

unfoldable pub IsCoherent : Approvals → Type 0
unfolding get
IsCoherent w =
    (id : String)
    → agrees (get id w.rows) (is_some_b (get id w.pending)) (answers_to id w.answers) ≡ true

request-IsCoherent :
    (now : ℕ) (id : String) (input : Ask) (aborted auto_approve : Bool) (w : Approvals)
    → IsCoherent w
    → IsCoherent (request now id input aborted auto_approve w).0
unfolding IsCoherent request open_request
request-IsCoherent now id input aborted auto_approve w h j =
    ground (arith, h j, get-put id j (row_of id input now) w.rows, get-put id j input w.pending)

abbrev pub closed_by : ApprovalStatus → ℕ → Option Approval → Option Approval
closed_by status now none = none
closed_by status now (some a) = if is_pending a.status then some (closed status now a) else some a

close_row-rows :
    (o : Option Approval) (status : ApprovalStatus) (now : ℕ) (id j : String) (w : Approvals)
    → get id w.rows ≡ o
    → get j (close_row o status now id w).rows
      ≡ (if eqs id j then closed_by status now o else get j w.rows)
unfolding close_row
close_row-rows none status now id j w e = ground arith
close_row-rows (some a) status now id j w e =
    ground (arith, get-put id j (closed status now a) w.rows)

close_row_rest :
    (o : Option Approval) (status : ApprovalStatus) (now : ℕ) (id : String) (w : Approvals)
    → ((close_row o status now id w).pending ≡ w.pending)
      × ((close_row o status now id w).answers ≡ w.answers)
unfolding close_row
close_row_rest none status now id w = (refl, refl)
close_row_rest (some a) status now id w = ground arith

note_rest :
    (o : Option Approval) (status : ApprovalStatus) (w : Approvals)
    → ((note o status w).rows ≡ w.rows)
      × ((note o status w).pending ≡ w.pending)
      × ((note o status w).answers ≡ w.answers)
note_rest none status w = (refl, refl, refl)
note_rest (some a) status w = (refl, refl, refl)

-- The end of a wait at an id, for what the table holds.
ended :
    (status : ApprovalStatus) (answer : Bool) (now : ℕ) (o : Option Approval) (answers : List Bool)
    → agrees o true answers ≡ true
    → status_agrees status false (answer ∷ []) ≡ true
    → agrees (closed_by status now o) false (answer ∷ answers) ≡ true
ended status answer now none answers h e = ground arith
ended status answer now (some a) [] h e = ground arith
ended status answer now (some a) (x ∷ answers) h e = ground arith

finish-IsCoherent :
    (status : ApprovalStatus) (answer : Bool) (now : ℕ) (id : String) (w v : Approvals)
    → IsCoherent w
    → is_some_b (get id w.pending) ≡ true
    → status_agrees status false (answer ∷ []) ≡ true
    → ((j : String)
        → get j v.rows ≡ (if eqs id j then closed_by status now (get id w.rows) else get j w.rows))
    → v.pending ≡ w.pending
    → v.answers ≡ w.answers
    → IsCoherent (finish id answer v)
unfolding IsCoherent finish
finish-IsCoherent status answer now id w v h p e rows pend ans j = ground (
  arith,
  h j,
  rows j,
  get-delete id j v.pending,
  ended status answer now (get id w.rows) (answers_to id w.answers),
)

either :
    (t : Bool) (x y : Approvals)
    → (t ≡ true → IsCoherent x)
    → (t ≡ false → IsCoherent y)
    → IsCoherent (if t then x else y)
either true x y h k = h refl
either false x y h k = k refl

-- What an update of the row and its audit leave.
pub record Closes (status : ApprovalStatus) (now : ℕ) (id : String) (w v : Approvals) : Type 0 where
  pub rows_closed :
      (j : String)
      → get j v.rows ≡ (if eqs id j then closed_by status now (get id w.rows) else get j w.rows)
  pub pending_kept : v.pending ≡ w.pending
  pub answers_kept : v.answers ≡ w.answers

pub close-Closes :
    (o : Option Approval) (status audited : ApprovalStatus) (now : ℕ) (id : String) (w : Approvals)
    → Closes status now id w (note o audited (close_row (get id w.rows) status now id w))
close-Closes o status audited now id w =
    let w1 = close_row (get id w.rows) status now id w in
    let noted = note_rest o audited w1 in
    let rest = close_row_rest (get id w.rows) status now id w in
    record {
      rows_closed = λ j. ap (get j) noted.0 ∙ close_row-rows (get id w.rows) status now id j w refl;
      pending_kept = noted.1 ∙ rest.0;
      answers_kept = noted.2 ∙ rest.1;
    }

pub abort-IsCoherent :
    (now : ℕ) (id : String) (w : Approvals) → IsCoherent w → IsCoherent (abort now id w)
unfolding abort expire_approval
abort-IsCoherent now id w h =
    let w1 = close_row (get id w.rows) expired now id w in
    let v = note (get id w1.rows) expired w1 in
    let c = close-Closes (get id w1.rows) expired expired now id w in
    either (is_some_b (get id w.pending)) (finish id false v) w
      (λ p.
        finish-IsCoherent expired false now id w v h p refl c.rows_closed c.pending_kept
          c.answers_kept)
      (λ p. h)

-- A row that nobody waits for is closed without an answer.
unwaited :
    (status : ApprovalStatus) (now : ℕ) (o : Option Approval) (answers : List Bool)
    → agrees o false answers ≡ true
    → agrees (closed_by status now o) false answers ≡ true
unwaited status now none answers h = h
unwaited status now (some a) [] h = ground arith
unwaited status now (some a) (x ∷ answers) h = ground arith

unwaited-IsCoherent :
    (status : ApprovalStatus) (now : ℕ) (id : String) (w v : Approvals)
    → IsCoherent w
    → is_some_b (get id w.pending) ≡ false
    → Closes status now id w v
    → IsCoherent v
unfolding IsCoherent
unwaited-IsCoherent status now id w v h p c j =
    ground
      (arith, h j, c.rows_closed j, unwaited status now (get id w.rows) (answers_to id w.answers))

waiting-IsCoherent :
    (t : Bool) (status : ApprovalStatus) (answer : Bool) (now : ℕ) (id : String) (w v : Approvals)
    → IsCoherent w
    → is_some_b (get id v.pending) ≡ t
    → status_agrees status false (answer ∷ []) ≡ true
    → Closes status now id w v
    → IsCoherent (finish_waiting t id answer v)
unfolding finish_waiting
waiting-IsCoherent true status answer now id w v h p e c =
    finish-IsCoherent status answer now id w v h
      (ap (λ m. is_some_b (get id m)) (sym c.pending_kept) ∙ p) e c.rows_closed c.pending_kept
      c.answers_kept
waiting-IsCoherent false status answer now id w v h p e c =
    unwaited-IsCoherent status now id w v h
      (ap (λ m. is_some_b (get id m)) (sym c.pending_kept) ∙ p) c

verdict :
    (approve : Bool)
    → status_agrees (if approve then approved else denied) false (approve ∷ []) ≡ true
verdict true = refl
verdict false = refl

decide-IsCoherent :
    (now : ℕ) (id : String) (approve : Bool) (w : Approvals)
    → IsCoherent w
    → IsCoherent (decide now id approve w)
unfolding decide resolve_approval
decide-IsCoherent now id approve w h =
    let status = if approve then approved else denied in
    let w1 = close_row (get id w.rows) status now id w in
    let v = note (get id w1.rows) status w1 in
    waiting-IsCoherent (is_some_b (get id v.pending)) status approve now id w v h refl
      (verdict approve) (close-Closes (get id w1.rows) status status now id w)

resolve_by-IsCoherent :
    (o : Option Approval) (now : ℕ) (id : String) (approve : Bool) (w : Approvals)
    → IsCoherent w
    → IsCoherent (resolve_by o now id approve w)
unfolding resolve_by
resolve_by-IsCoherent none now id approve w h = h
resolve_by-IsCoherent (some a) now id approve w h =
    either (is_pending a.status) (decide now id approve w) w
      (λ p. decide-IsCoherent now id approve w h) (λ p. h)

pub resolve-IsCoherent :
    (now : ℕ) (id : String) (approve : Bool) (w : Approvals)
    → IsCoherent w
    → IsCoherent (resolve now id approve w).0
unfolding resolve
resolve-IsCoherent now id approve w h = resolve_by-IsCoherent (get id w.rows) now id approve w h

go_on :
    (r : Result Approval) (w v : Approvals)
    → IsCoherent w
    → IsCoherent v
    → IsCoherent (reject_rest r w v)
go_on (err message) w v h k = h
go_on (ok a) w v h k = k

reject_each-IsCoherent :
    (now : ℕ) (ids : List String) (w : Approvals)
    → IsCoherent w
    → IsCoherent (reject_each now ids w)
unfolding reject_each
reject_each-IsCoherent now [] w h = h
reject_each-IsCoherent now (id ∷ ids) w h =
    let next = (resolve now id false w).0 in
    go_on (resolve now id false w).1 w (reject_each now ids next) h
      (reject_each-IsCoherent now ids next (resolve-IsCoherent now id false w h))

pub step-IsCoherent : (c : Call) (w : Approvals) → IsCoherent w → IsCoherent (step c w)
unfolding step reject_all
step-IsCoherent (requests now id input aborted auto_approve) w h =
    request-IsCoherent now id input aborted auto_approve w h
step-IsCoherent (resolves now id approve) w h = resolve-IsCoherent now id approve w h
step-IsCoherent (aborts now id) w h = abort-IsCoherent now id w h
step-IsCoherent (rejects_all now) w h = reject_each-IsCoherent now (map (λ p. p.0) w.pending) w h

-- Over any requests, decisions, timeouts, aborts and rejections, for every id: a wait belongs to a
-- pending row and has no answer yet; there is at most one answer, it is given to a row that is no
-- longer pending, and it is yes if and only if the row says approved. This holds behind any calls
-- that begin where it holds, such as in a process that has just started.
pub run-IsCoherent : (list : List Call) (w : Approvals) → IsCoherent w → IsCoherent (run list w)
unfolding run
run-IsCoherent [] w h = h
run-IsCoherent (c ∷ rest) w h = run-IsCoherent rest (step c w) (step-IsCoherent c w h)

unasked : (o : Option Approval) → agrees o false [] ≡ true
unasked none = refl
unasked (some a) = ground arith

-- A process that has just started waits for nothing, whatever the table holds.
pub started-IsCoherent : (w : Approvals) → w.pending ≡ [] → w.answers ≡ [] → IsCoherent w
unfolding IsCoherent get
started-IsCoherent w p e id = ground (arith, unasked (get id w.rows))
