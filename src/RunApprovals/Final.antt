-- ===== src/RunApprovals/Final.antt =====
-- That decisions on approvals are final:
-- packages/core/src/run-approvals.ts.
use uma_agent.Base.{
  ℕ, ◌≡◌, refl, String, Bool, false, Option, none, some, List, [], ◌∷◌, if◌then◌else◌, map, Result,
  ok, err, eqs, arith,
}
use uma_agent.JsMap.{get, get-put}
use uma_agent.RunApprovals.{
  ApprovalStatus, approved, denied, expired, Approval, Ask, Approvals, Call, requests, resolves,
  aborts, rejects_all, is_pending, row_of, close_row, resolve_approval, expire_approval, finish,
  finish_waiting, decide, resolve_by, resolve, abort, open_request, request, reject_rest,
  reject_each, reject_all, step, run,
}
use uma_agent.RunApprovals.Once.{Closes, close-Closes, closed_by}

-- A row that is decided is the same before and after.
abbrev Keeps : Approvals → Approvals → Type 0
unfolding get
Keeps w v =
    (id : String) (a : Approval)
    → get id w.rows ≡ some a
    → is_pending a.status ≡ false
    → get id v.rows ≡ some a

Closes-Keeps :
    (status : ApprovalStatus) (now : ℕ) (id : String) (w v : Approvals)
    → Closes status now id w v
    → Keeps w v
unfolding Keeps
Closes-Keeps status now id w v c j a e d = ground (arith, c.rows_closed j)

request-Keeps :
    (now : ℕ) (id : String) (input : Ask) (aborted auto_approve : Bool) (w : Approvals)
    → Keeps w (request now id input aborted auto_approve w).0
unfolding Keeps request open_request
request-Keeps now id input aborted auto_approve w j a e d =
    ground (arith, get-put id j (row_of id input now) w.rows)

abort-Keeps : (now : ℕ) (id : String) (w : Approvals) → Keeps w (abort now id w)
unfolding Keeps abort expire_approval finish
abort-Keeps now id w j a e d =
    let w1 = close_row (get id w.rows) expired now id w in
    let c = close-Closes (get id w1.rows) expired expired now id w in
    ground (arith, c.rows_closed j)

-- What `resolve` leaves of the rows.
resolve_by_rows :
    (o : Option Approval) (now : ℕ) (id : String) (approve : Bool) (j : String) (w : Approvals)
    → get id w.rows ≡ o
    → get j (resolve_by o now id approve w).rows ≡ (
        if eqs id j
        then closed_by (if approve then approved else denied) now (get id w.rows)
        else get j w.rows)
unfolding resolve_by decide resolve_approval finish_waiting finish
resolve_by_rows none now id approve j w e = ground arith
resolve_by_rows (some a) now id approve j w e =
    let status = if approve then approved else denied in
    let w1 = close_row (get id w.rows) status now id w in
    let c = close-Closes (get id w1.rows) status status now id w in ground (arith, c.rows_closed j)

resolve-Keeps :
    (now : ℕ) (id : String) (approve : Bool) (w : Approvals) → Keeps w (resolve now id approve w).0
unfolding Keeps resolve
resolve-Keeps now id approve w j a e d =
    ground (arith, resolve_by_rows (get id w.rows) now id approve j w refl)

reject_each-Keeps : (now : ℕ) (ids : List String) (w : Approvals) → Keeps w (reject_each now ids w)
unfolding reject_each Keeps
reject_each-Keeps now [] w j a e d = e
reject_each-Keeps now (id ∷ ids) w j a e d =
    by_result (resolve now id false w).1 w (reject_each now ids (resolve now id false w).0) j e (
      reject_each-Keeps now ids (resolve now id false w).0 j a
        (resolve-Keeps now id false w j a e d) d)
  where
    by_result :
        (r : Result Approval) (u v : Approvals) (j : String)
        → get j u.rows ≡ some a
        → get j v.rows ≡ some a
        → get j (reject_rest r u v).rows ≡ some a
    by_result (err message) u v j x y = x
    by_result (ok b) u v j x y = y

step-Keeps : (c : Call) (w : Approvals) → Keeps w (step c w)
unfolding step reject_all
step-Keeps (requests now id input aborted auto_approve) w =
    request-Keeps now id input aborted auto_approve w
step-Keeps (resolves now id approve) w = resolve-Keeps now id approve w
step-Keeps (aborts now id) w = abort-Keeps now id w
step-Keeps (rejects_all now) w = reject_each-Keeps now (map (λ p. p.0) w.pending) w

-- A decision is final: a row of the table that is not pending, because it was approved, denied or
-- expired, is the same after any calls.
pub decided_kept :
    (list : List Call) (w : Approvals) (id : String) (a : Approval)
    → get id w.rows ≡ some a
    → is_pending a.status ≡ false
    → get id (run list w).rows ≡ some a
unfolding run Keeps
decided_kept [] w id a e d = e
decided_kept (c ∷ rest) w id a e d = decided_kept rest (step c w) id a (step-Keeps c w id a e d) d
