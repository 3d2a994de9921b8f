-- ===== src/ModelRetry/Tests.antt =====
-- Attempts at concrete inputs.
use uma_agent.Base.{ℕ, zero, suc, ◌≤◌, ◌≡◌, refl, Bool, true, false, [], ◌∷◌, Option, none, some}
use uma_agent.ModelRetry.{
  Text, AssistantMessage, stop, error, text, text_delta, done, failed, bare, refused, streams,
  Round, Ended, retry_stream,
}
use uma_agent.ModelRetry.Bounded.{retry_stream_ends}
use uma_agent.ModelRetry.NoReplay.{FromOne, no_replay}
use uma_agent.ModelRetry.Silent.{AttemptEnds}

abbrev never : Text → Bool
never t = false

abbrev always : AssistantMessage → Bool
always m = true

abbrev message_of : Text → Option AssistantMessage
message_of t = some (record { stop_reason = error; error_message = some t; content = [] })

abbrev answer : AssistantMessage
answer = record { stop_reason = stop; error_message = none; content = text (72 ∷ []) ∷ [] }

abbrev gateway : AssistantMessage
gateway = record { stop_reason = error; error_message = some (53 ∷ []); content = [] }

-- The start fails, then a stream ends in an error, then the answer comes.
abbrev rounds : ℕ → Round
rounds zero = record { attempt = refused (53 ∷ []); aborted = false; wait_aborted = false }
rounds (suc zero) = record {
  attempt = streams (bare (failed error gateway) ∷ []) none;
  aborted = false;
  wait_aborted = false;
}
rounds (suc (suc n)) = record {
  attempt = streams (bare (text_delta (72 ∷ [])) ∷ bare (done stop answer) ∷ []) none;
  aborted = false;
  wait_aborted = false;
}

rounds-AttemptEnds : (i : ℕ) → AttemptEnds (rounds i).attempt
rounds-AttemptEnds zero = tt
rounds-AttemptEnds (suc zero) = ((λ e. refl), tt)
rounds-AttemptEnds (suc (suc n)) = ((λ e. cc e), ((λ e. cc e), tt))

retry_stream_ends_example :
    (e : Ended never never always message_of) × (retry_stream never never always message_of rounds
      ≡ some e)
    × (e.retries ≤ 7)
retry_stream_ends_example = retry_stream_ends never never always message_of rounds

no_replay_example :
    (e : Ended never never always message_of) × (retry_stream never never always message_of rounds
      ≡ some e)
    × FromOne never never always message_of rounds e
no_replay_example = no_replay never never always message_of rounds rounds-AttemptEnds
