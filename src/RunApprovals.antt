-- ===== src/RunApprovals.antt =====
-- The approvals that tool calls wait for: packages/core/src/run-approvals.ts, with the table
-- `approvals` of packages/core/src/database.ts. The time, the ids that are drawn, the account's
-- setting and whether the signal is aborted are arguments; a timeout and an abort may come at any
-- point. Transactions are taken to commit; the arguments of tools are left out.
pub mod Final
pub mod Once
pub mod Shutdown
pub mod Tests
use uma_agent.Base.{
  ℕ, String, Bool, true, false, Option, none, some, List, [], ◌∷◌, if◌then◌else◌, is_some_b, map,
  Result, ok, err,
}
use uma_agent.JsMap.{get, put, delete}

pub data ApprovalStatus : Type 0 where
  pending approved denied expired : ApprovalStatus

pub record Approval : Type 0 where
  pub id : String
  pub session_id : String
  pub run_id : String
  pub tool_call_id : String
  pub tool_name : String
  pub status : ApprovalStatus
  pub created_at : ℕ
  pub resolved_at : Option ℕ

pub record Audit : Type 0 where
  pub run_id : String
  pub name : String
  pub tool_call_id : String
  pub by_policy : Bool
  pub status : ApprovalStatus

pub data Event : Type 0 where
  approval_requested approval_resolved : Approval → Event

pub record Ask : Type 0 where
  pub session_id : String
  pub run_id : String
  pub tool_call_id : String
  pub tool_name : String

-- `pending` holds what waits, `answers` what the promises were resolved with, latest first.
pub record Approvals : Type 0 where
  pub rows : List (String × Approval)
  pub pending : List (String × Ask)
  pub answers : List (String × Bool)
  pub audits : List Audit
  pub events : List Event

abbrev pub is_pending : ApprovalStatus → Bool
is_pending pending = true
is_pending approved = false
is_pending denied = false
is_pending expired = false

unfoldable pub get_approval : String → Approvals → Result Approval
unfolding get
get_approval id w = elim (get id w.rows) [ none ↦ err "Approval not found" | some a ↦ ok a ]

abbrev pub row_of : String → Ask → ℕ → Approval
row_of id input now = record {
  id = id;
  session_id = input.session_id;
  run_id = input.run_id;
  tool_call_id = input.tool_call_id;
  tool_name = input.tool_name;
  status = pending;
  created_at = now;
  resolved_at = none;
}

abbrev pub closed : ApprovalStatus → ℕ → Approval → Approval
closed status now a = record a { status = status; resolved_at = some now }

-- The updates of `resolveApproval` and `expireApproval`, by the row with the id: only a pending one
-- changes.
unfoldable pub close_row : Option Approval → ApprovalStatus → ℕ → String → Approvals → Approvals
unfolding put
close_row none status now id w = w
close_row (some a) status now id w =
    if is_pending a.status then record w { rows = put id (closed status now a) w.rows } else w

unfoldable pub resolve_approval : ℕ → String → Bool → Approvals → Approvals
unfolding get close_row
resolve_approval now id ok_b w =
    close_row (get id w.rows) (if ok_b then approved else denied) now id w

unfoldable pub expire_approval : ℕ → String → Approvals → Approvals
unfolding get close_row
expire_approval now id w = close_row (get id w.rows) expired now id w

-- `addAudit` and `emit` on what the table holds after an update.
abbrev pub note : Option Approval → ApprovalStatus → Approvals → Approvals
note none status w = w
note (some a) status w = record w {
  audits =
      record {
        run_id = a.run_id;
        name = a.tool_name;
        tool_call_id = a.tool_call_id;
        by_policy = false;
        status = status;
      }
      ∷ w.audits;
  events = approval_resolved a ∷ w.events;
}

-- The end of a wait, with the answer of its promise.
unfoldable pub finish : String → Bool → Approvals → Approvals
unfolding delete
finish id answer w = record w { pending = delete id w.pending; answers = (id, answer) ∷ w.answers }

unfoldable pub finish_waiting : Bool → String → Bool → Approvals → Approvals
unfolding finish
finish_waiting false id answer w = w
finish_waiting true id answer w = finish id answer w

-- `resolve` of a row that is pending.
unfoldable pub decide : ℕ → String → Bool → Approvals → Approvals
unfolding resolve_approval finish_waiting get
decide now id approve w0 =
    let w1 = resolve_approval now id approve w0 in
    let w = note (get id w1.rows) (if approve then approved else denied) w1 in
    finish_waiting (is_some_b (get id w.pending)) id approve w

unfoldable pub resolve_by : Option Approval → ℕ → String → Bool → Approvals → Approvals
unfolding decide
resolve_by none now id approve w = w
resolve_by (some a) now id approve w = if is_pending a.status then decide now id approve w else w

-- `resolve`: the state behind it, and what it returns, the row behind it or the error.
unfoldable pub resolve : ℕ → String → Bool → Approvals → Approvals × Result Approval
unfolding resolve_by get get_approval
resolve now id approve w =
    let after = resolve_by (get id w.rows) now id approve w in (after, get_approval id after)

-- The listener of the abort, which is also what the timer calls.
unfoldable pub abort : ℕ → String → Approvals → Approvals
unfolding expire_approval finish get
abort now id w0 =
    let w1 = expire_approval now id w0 in
    if is_some_b (get id w0.pending) then finish id false (note (get id w1.rows) expired w1) else w0

-- What `request` returns: an answer at once, or the promise of the approval.
pub data Answer : Type 0 where
  at_once : Bool → Answer
  waits_for : String → Answer

abbrev pub audit_of : Ask → Bool → ApprovalStatus → Audit
audit_of input by_policy status = record {
  run_id = input.run_id;
  name = input.tool_name;
  tool_call_id = input.tool_call_id;
  by_policy = by_policy;
  status = status;
}

unfoldable pub open_request : ℕ → String → Ask → Approvals → Approvals
unfolding put
open_request now id input w = record w {
  rows = put id (row_of id input now) w.rows;
  pending = put id input w.pending;
  audits = audit_of input false pending ∷ w.audits;
  events = approval_requested (row_of id input now) ∷ w.events;
}

unfoldable pub request : ℕ → String → Ask → Bool → Bool → Approvals → Approvals × Result Answer
unfolding open_request get
request now id input aborted auto_approve w =
    if aborted
    then (w, ok (at_once false))
    else if auto_approve
    then (record w { audits = audit_of input true approved ∷ w.audits }, ok (at_once true))
    else if is_some_b (get id w.rows)
    then (w, err "UNIQUE constraint failed")
    else (open_request now id input w, ok (waits_for id))

abbrev pub reject_rest : Result Approval → Approvals → Approvals → Approvals
reject_rest (err message) w rest = w
reject_rest (ok a) w rest = rest

-- `rejectAll` on the keys there were; an error ends it.
unfoldable pub reject_each : ℕ → List String → Approvals → Approvals
unfolding resolve
reject_each now [] w = w
reject_each now (id ∷ ids) w =
    let rest = reject_each now ids (resolve now id false w).0 in
    reject_rest (resolve now id false w).1 w rest

unfoldable pub reject_all : ℕ → Approvals → Approvals
unfolding reject_each
reject_all now w = reject_each now (map (λ p. p.0) w.pending) w

pub data Call : Type 0 where
  requests : ℕ → String → Ask → Bool → Bool → Call
  resolves : ℕ → String → Bool → Call
  aborts : ℕ → String → Call
  rejects_all : ℕ → Call

unfoldable pub step : Call → Approvals → Approvals
unfolding request resolve abort reject_all
step (requests now id input aborted auto_approve) w =
    (request now id input aborted auto_approve w).0
step (resolves now id approve) w = (resolve now id approve w).0
step (aborts now id) w = abort now id w
step (rejects_all now) w = reject_all now w

unfoldable pub run : List Call → Approvals → Approvals
unfolding step
run [] w = w
run (c ∷ rest) w = run rest (step c w)
