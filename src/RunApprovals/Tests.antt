-- ===== src/RunApprovals/Tests.antt =====
-- Approvals at fixed inputs.
use uma_agent.Base.{◌≡◌, refl, true, false, none, List, [], ◌∷◌, is_some_b, same}
use uma_agent.JsMap.{get, put, delete}
use uma_agent.RunApprovals.{
  Approvals, Ask, Call, requests, resolves, aborts, approved, row_of, closed, run, step, request,
  resolve, abort, reject_all, resolve_by, decide, resolve_approval, expire_approval, close_row,
  finish, finish_waiting, open_request,
}
use uma_agent.RunApprovals.Once.{IsCoherent, answers_to, run-IsCoherent, started-IsCoherent}
use uma_agent.RunApprovals.Shutdown.{reject_all_ends}

abbrev started : Approvals
started = record { rows = []; pending = []; answers = []; audits = []; events = [] }

abbrev ask : Ask
ask = record { session_id = "s"; run_id = "r"; tool_call_id = "t"; tool_name = "shell" }

-- One approval is granted before its timeout, one is aborted before a late decision.
abbrev calls : List Call
calls =
    requests 1 "a" ask false false
    ∷ requests 2 "b" ask false false
    ∷ resolves 3 "a" true
    ∷ aborts 4 "a"
    ∷ aborts 5 "b"
    ∷ resolves 6 "b" true
    ∷ []

granted : answers_to "a" (run calls started).answers ≡ true ∷ []
unfolding run step request open_request resolve resolve_by decide resolve_approval close_row
    finish_waiting finish abort expire_approval get put delete same
granted = refl

refused : answers_to "b" (run calls started).answers ≡ false ∷ []
unfolding run step request open_request resolve resolve_by decide resolve_approval close_row
    finish_waiting finish abort expire_approval get put delete same
refused = refl

-- The account's setting answers at once.
at_once_yes : (request 1 "a" ask false true started).0.rows ≡ []
unfolding request
at_once_yes = refl

started_coherent : IsCoherent started
started_coherent = started-IsCoherent started refl refl

run-IsCoherent_example : IsCoherent (run calls started)
run-IsCoherent_example = run-IsCoherent calls started started_coherent

abbrev decided : Approvals
decided = record started { rows = ("a", closed approved 3 (row_of "a" ask 1)) ∷ [] }

abbrev two_requests : List Call
two_requests = requests 1 "a" ask false false ∷ requests 2 "b" ask false false ∷ []

reject_all_ends_example :
    (get "b" (reject_all 9 (run two_requests started)).pending ≡ none)
    × (is_some_b (get "b" (run two_requests started).pending) ≡ true
        → answers_to "b" (reject_all 9 (run two_requests started)).answers ≡ false ∷ [])
reject_all_ends_example =
    reject_all_ends 9 (run two_requests started) "b"
      (run-IsCoherent two_requests started started_coherent)
