-- ===== src/Context/Tests.antt =====
-- Conversations at concrete inputs.
use uma_agent.Base.{
  ℕ, ◌≤◌, ◌≢◌, String, ◌≡◌, refl, Bool, false, List, [], ◌∷◌, arith, same, texts_differ,
}
use uma_agent.Context.{
  Text, text, tool_call, other, ToolResult, AgentMessage, assistant, user, tool_result,
  StoredAgentMessage, preserve_orphans, safe_compaction_boundary, result_positions, extend,
  tool_call_ids, compaction_batches,
}
use uma_agent.JsMap.{get, put}
use uma_agent.Context.Orphans.{Answers, AllPreserved, no_bare_results}
use uma_agent.Context.Boundary.{IsClosed, first_result, boundary_keeps_exchanges}
use uma_agent.Context.Batches.{Splits, batches_split}

abbrev label : Text → Bool → Text
label name failed = 58 ∷ name

abbrev omitted : Text → Text
omitted name = 45 ∷ name

abbrev result_of : String → ToolResult
result_of id = record {
  tool_call_id = id;
  tool_name = 114 ∷ [];
  is_error = false;
  content = text (65 ∷ []) ∷ other 1 ∷ [];
  timestamp = 7;
}

abbrev stored : ℕ → AgentMessage → StoredAgentMessage
stored n m = record { sequence = n; message = m }

abbrev talk : List StoredAgentMessage
talk =
    stored 1 (user (text (72 ∷ []) ∷ []) 1)
    ∷ stored 2 (assistant (tool_call "a" ∷ tool_call "b" ∷ []))
    ∷ stored 3 (tool_result (result_of "a"))
    ∷ stored 4 (tool_result (result_of "b"))
    ∷ stored 5 (assistant (text (66 ∷ []) ∷ []))
    ∷ stored 6 (tool_result (result_of "c"))
    ∷ []

abbrev one_token : AgentMessage → ℕ
one_token m = 1

no_bare_results_example :
    AllPreserved label [] talk (preserve_orphans label [] talk)
    × Answers [] talk (preserve_orphans label [] talk)
no_bare_results_example = no_bare_results label talk

c_ne_a : ◌≢◌ {A = String} "c" "a"
unfolding same
c_ne_a = texts_differ "c" "a" refl

-- Between the results no cut is safe.
four-IsClosed : IsClosed (first_result 0 talk) 4 0 talk
unfolding first_result tool_call_ids same
four-IsClosed = (
  λ l. tt,
  (
    λ l. (λ p e b. ground (arith, e), (λ p e b. ground (arith, e), tt)),
    (λ l. tt, (λ l. tt, (λ l. tt, (λ l. tt, tt)))),
  ),
)

boundary_keeps_exchanges_example :
    (3 ≤ safe_compaction_boundary talk 3)
    × (safe_compaction_boundary talk 3 ≤ 6)
    × IsClosed (first_result 0 talk) (safe_compaction_boundary talk 3) 0 talk
    × (safe_compaction_boundary talk 3 ≤ 4)
boundary_keeps_exchanges_example =
    boundary_keeps_exchanges talk 3 4 (omega arith) (omega arith) four-IsClosed

-- A cut behind the first result moves behind the second.
cut_moves : safe_compaction_boundary talk 3 ≡ 4
unfolding safe_compaction_boundary result_positions same extend tool_call_ids get put
cut_moves = refl

batches_split_example : Splits talk (compaction_batches one_token talk 2)
batches_split_example = batches_split one_token 2 talk
