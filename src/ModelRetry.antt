-- ===== src/ModelRetry.antt =====
-- The stream of a model's answer with its retries: packages/core/src/model-retry.ts. The library's
-- own test for errors that are worth a retry and the regular expressions of this file are parameters,
-- and so is the callback that makes a message of an error. What the provider does in each attempt is
-- a list of rounds. The delays are left out.
pub mod Bounded
pub mod Silent
pub mod NoReplay
pub mod Tests
use uma_agent.Base.{
  same_text, trim, ℕ, zero, suc, ◌+◌, ◌==◌, Bool, true, false, not, ◌&&◌, ◌||◌, List, [], ◌∷◌, ◌++◌,
  Option, none, some, ltb, if◌then◌else◌, any, is_some_b, is_space, length,
}

abbrev pub Text : Type 0
Text = List ℕ

pub data StopReason : Type 0 where
  stop other_stop error aborted : StopReason

pub data Block : Type 0 where
  text : Text → Block
  tool_call : Text → Block

pub record AssistantMessage : Type 0 where
  pub stop_reason : StopReason
  pub error_message : Option Text
  pub content : List Block

-- The events of a stream by what the retries look at.
pub data Kind : Type 0 where
  text_delta thinking_delta toolcall_delta text_end thinking_end : Text → Kind
  toolcall_end : Kind
  done : StopReason → AssistantMessage → Kind
  failed : StopReason → AssistantMessage → Kind
  other_kind : Kind

pub record StreamEvent : Type 0 where
  pub kind : Kind
  pub partial : Option AssistantMessage

-- What the provider does in an attempt: no stream, with an error, or a stream that ends or breaks off
-- with an error; and whether the caller has aborted, when a failed start is looked at and in the wait
-- before the next attempt.
pub data Attempt : Type 0 where
  refused : Text → Attempt
  streams : List StreamEvent → Option Text → Attempt

pub record Round : Type 0 where
  pub attempt : Attempt
  pub aborted : Bool
  pub wait_aborted : Bool

-- "Stream ended without finish_reason"
abbrev pub missing_text : Text
missing_text =
    83 ∷ 116 ∷ 114 ∷ 101 ∷ 97 ∷ 109 ∷ 32 ∷ 101 ∷ 110 ∷ 100 ∷ 101 ∷ 100 ∷ 32 ∷ 119 ∷ 105 ∷ 116 ∷ 104
    ∷ 111 ∷ 117 ∷ 116 ∷ 32 ∷ 102 ∷ 105 ∷ 110 ∷ 105 ∷ 115 ∷ 104 ∷ 95 ∷ 114 ∷ 101 ∷ 97 ∷ 115 ∷ 111
    ∷ 110 ∷ []

unfoldable pub is_missing_finish_reason : Option Text → Bool
is_missing_finish_reason none = false
is_missing_finish_reason (some t) = same_text (trim t) missing_text

abbrev pub is_tool_call : Block → Bool
is_tool_call (text t) = false
is_tool_call (tool_call t) = true

abbrev pub is_nil {ℓ} : {A : Type ℓ} → List A → Bool
is_nil [] = true
is_nil (x ∷ xs) = false

-- `recoverMissingFinishReason`.
unfoldable pub recover : AssistantMessage → Option AssistantMessage
recover m =
    if not (is_missing_finish_reason m.error_message)
      || is_nil m.content
      || any is_tool_call m.content
    then none
    else some (record m { stop_reason = stop; error_message = none })

abbrev pub is_error : StopReason → Bool
is_error stop = false
is_error other_stop = false
is_error error = true
is_error aborted = false

abbrev pub failure_reason : StopReason → StopReason
failure_reason aborted = aborted
failure_reason stop = error
failure_reason other_stop = error
failure_reason error = error

-- `hasStreamOutput`.
unfoldable pub has_output : Kind → Bool
has_output (text_delta t) = not (is_nil (trim t))
has_output (thinking_delta t) = not (is_nil (trim t))
has_output (toolcall_delta t) = not (is_nil t)
has_output (text_end t) = not (is_nil (trim t))
has_output (thinking_end t) = not (is_nil (trim t))
has_output toolcall_end = true
has_output (done r m) = false
has_output (failed r m) = false
has_output other_kind = false

-- The variables of an attempt; `output` is what the attempt has pushed.
pub record Reading : Type 0 where
  pub pending : List StreamEvent
  pub output : List StreamEvent
  pub started : Bool
  pub should_retry : Bool
  pub has_terminal : Bool
  pub last_partial : Option AssistantMessage
  pub last_error : Option AssistantMessage

abbrev pub fresh : Option AssistantMessage → Reading
fresh last = record {
  pending = [];
  output = [];
  started = false;
  should_retry = false;
  has_terminal = false;
  last_partial = none;
  last_error = last;
}

abbrev pub noted : Option AssistantMessage → Option AssistantMessage → Option AssistantMessage
noted none last = last
noted (some m) last = some m

abbrev pub bare : Kind → StreamEvent
bare k = record { kind = k; partial = none }

-- An event is pushed once the attempt has started, and kept back before.
abbrev pub keep : StreamEvent → Reading → Reading
keep e r =
    if r.started
    then record r { output = r.output ++ e ∷ [] }
    else record r { pending = r.pending ++ e ∷ [] }

abbrev pub start_on : Kind → Reading → Reading
start_on k r =
    if not r.started && has_output k
    then record r { started = true; output = r.output ++ r.pending; pending = [] }
    else r

module _ (account_error upstream_error : Text → Bool) (library_retryable : AssistantMessage → Bool)
    (factory : Text → Option AssistantMessage) where
  abbrev pub retryable_text : Option Text → AssistantMessage → Bool
  retryable_text none m = false
  retryable_text (some t) m =
      not (is_nil t) && not (account_error t) && (library_retryable m || upstream_error t)

  -- `isRetryableModelError`.
  unfoldable pub is_retryable : AssistantMessage → Bool
  is_retryable m = is_error m.stop_reason && retryable_text m.error_message m

  -- The part of the loop on an error event.
  unfoldable pub judge : ℕ → Kind → Reading → Reading
  judge n (failed reason m) r = record r {
    last_error = some m;
    has_terminal = true;
    should_retry =
        if is_missing_finish_reason m.error_message
        then not r.started && ltb n 5
        else not r.started && is_error m.stop_reason && ltb n 7 && is_retryable m;
  }
  judge n (done reason m) r = record r { has_terminal = true }
  judge n _ r = r

  abbrev pub recovered : Kind → Option AssistantMessage
  recovered (failed reason m) = if is_missing_finish_reason m.error_message then recover m else none
  recovered _ = none

  -- One event; a complete answer that lacks only its last marker ends the stream.
  unfoldable pub read_event : ℕ → StreamEvent → Reading → Reading
  read_event n e r = keep e (
      start_on e.kind (judge n e.kind (record r { last_partial = noted e.partial r.last_partial })))

  -- A recovery pushes what is kept back and the end of the answer, and ends the stream.
  abbrev pub unless_recovered : Option AssistantMessage → Reading → Reading × Bool → Reading × Bool
  unless_recovered none r rest = rest
  unless_recovered (some m) r rest =
      (record r { output = r.output ++ r.pending ++ bare (done stop m) ∷ []; pending = [] }, true)

  -- The events of an attempt: the variables behind them, and whether the stream was ended.
  unfoldable pub read_events : ℕ → List StreamEvent → Reading → Reading × Bool
  unfolding read_event
  read_events n [] r = (r, false)
  read_events n (e ∷ es) r =
      unless_recovered (recovered e.kind) r (read_events n es (read_event n e r))

  -- An error that is no event of the stream.
  abbrev pub break_off : ℕ → StopReason → Option AssistantMessage → Reading → Reading
  break_off n reason none r = r
  break_off n reason (some m) r = keep (bare (failed reason m)) (record r {
    last_error = some m;
    has_terminal = true;
    should_retry = not r.started && ltb n 7 && is_retryable m;
  })

  abbrev pub reason_of : Option AssistantMessage → StopReason
  reason_of none = error
  reason_of (some m) = failure_reason m.stop_reason

  abbrev pub crash : ℕ → Option Text → Reading → Reading
  crash n none r = r
  crash n (some t) r = break_off n (reason_of (factory t)) (factory t) r

  -- "Provider stream terminated before a final response"
  abbrev pub terminated_text : Text
  terminated_text =
      80 ∷ 114 ∷ 111 ∷ 118 ∷ 105 ∷ 100 ∷ 101 ∷ 114 ∷ 32 ∷ 115 ∷ 116 ∷ 114 ∷ 101 ∷ 97 ∷ 109 ∷ 32
      ∷ 116 ∷ 101 ∷ 114 ∷ 109 ∷ 105 ∷ 110 ∷ 97 ∷ 116 ∷ 101 ∷ 100 ∷ 32 ∷ 98 ∷ 101 ∷ 102 ∷ 111 ∷ 114
      ∷ 101 ∷ 32 ∷ 97 ∷ 32 ∷ 102 ∷ 105 ∷ 110 ∷ 97 ∷ 108 ∷ 32 ∷ 114 ∷ 101 ∷ 115 ∷ 112 ∷ 111 ∷ 110
      ∷ 115 ∷ 101 ∷ []

  abbrev pub unfinished : Option AssistantMessage → Option AssistantMessage
  unfinished none = factory terminated_text
  unfinished (some p) =
      some (record p { stop_reason = error; error_message = some terminated_text })

  abbrev pub close_unfinished : ℕ → Reading → Reading
  close_unfinished n r =
      if r.has_terminal then r else break_off n error (unfinished r.last_partial) r

  -- An attempt that got a stream, and whether it was ended by a recovery.
  unfoldable pub read_stream :
      ℕ → List StreamEvent → Option Text → Option AssistantMessage → Reading × Bool
  unfolding read_events
  read_stream n es broken last =
      let r = read_events n es (fresh last) in
      if r.1 then r else (close_unfinished n (crash n broken r.0), false)

  -- The end of the whole: the events that were pushed, and how many retries were made.
  pub record Ended : Type 0 where
    pub events : List StreamEvent
    pub retries : ℕ

  abbrev pub failure : Option AssistantMessage → List StreamEvent
  failure none = []
  failure (some m) = bare (failed (failure_reason m.stop_reason) m) ∷ []

  -- "Request was aborted"
  abbrev pub aborted_text : Text
  aborted_text =
      82 ∷ 101 ∷ 113 ∷ 117 ∷ 101 ∷ 115 ∷ 116 ∷ 32 ∷ 119 ∷ 97 ∷ 115 ∷ 32 ∷ 97 ∷ 98 ∷ 111 ∷ 114 ∷ 116
      ∷ 101 ∷ 100 ∷ []

  -- The handler around the loop, where the wait was aborted.
  abbrev pub give_up : List StreamEvent → ℕ → Option AssistantMessage → Ended
  give_up out n last = record {
    events = out ++ failure (noted (factory aborted_text) last);
    retries = n;
  }

  -- What an attempt pushes, whether another is made, and the last error.
  pub record Outcome : Type 0 where
    pub pushed : List StreamEvent
    pub again : Bool
    pub last : Option AssistantMessage

  abbrev pub after_stream : Reading × Bool → Outcome
  after_stream (r, true) = record { pushed = r.output; again = false; last = r.last_error }
  after_stream (r, false) =
      if r.should_retry
      then record { pushed = r.output; again = true; last = r.last_error }
      else record { pushed = r.output ++ r.pending; again = false; last = r.last_error }

  abbrev pub after_refusal : ℕ → Bool → Option AssistantMessage → Option AssistantMessage → Outcome
  after_refusal n abort last none = record { pushed = []; again = false; last = last }
  after_refusal n abort last (some m) =
      if not abort && ltb n 7 && is_retryable m
      then record { pushed = []; again = true; last = last }
      else record { pushed = failure (some m); again = false; last = some m }

  unfoldable pub try_once : ℕ → Round → Option AssistantMessage → Outcome
  unfolding read_stream
  try_once n round last = elim round.attempt [
    | refused e ↦ after_refusal n round.aborted last (factory e)
    | streams es broken ↦ after_stream (read_stream n es broken last)
  ]

  -- The loop, on fuel: the round of each attempt, the retries so far, the last error and what was
  -- pushed.
  unfoldable pub retry_loop :
      ℕ → (ℕ → Round) → ℕ → Option AssistantMessage → List StreamEvent → Option Ended
  unfolding try_once
  retry_loop zero rounds n last out = none
  retry_loop (suc fuel) rounds n last out =
      let o = try_once n (rounds n) last in
      let next = retry_loop fuel rounds (n + 1) o.last (out ++ o.pushed) in
      if o.again
      then (if (rounds n).wait_aborted
          then some (give_up (out ++ o.pushed) (n + 1) o.last)
          else next)
      else some (record { events = out ++ o.pushed; retries = n })

  -- `retryMissingFinishReasonStream`.
  unfoldable pub retry_stream : (ℕ → Round) → Option Ended
  unfolding retry_loop
  retry_stream rounds = retry_loop 8 rounds 0 none []
