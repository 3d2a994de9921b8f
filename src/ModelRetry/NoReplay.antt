-- ===== src/ModelRetry/NoReplay.antt =====
-- What a caller sees of attempts that are made again.
use uma_agent.Base.{
  ℕ, zero, suc, ◌+◌, ◌≡◌, refl, subst, ap, ◌∙◌, Bool, true, false, List, [], ◌++◌, Option, none,
  some, if◌then◌else◌, Bool-cases, inl, inr, ◌⊎◌,
}
use uma_agent.ModelRetry.{
  Text, AssistantMessage, StreamEvent, Round, noted, Ended, Outcome, give_up, failure, try_once,
  retry_loop, retry_stream, aborted_text,
}
use uma_agent.ModelRetry.Bounded.{retry_stream_ends}
use uma_agent.ModelRetry.Silent.{AttemptEnds, attempt-silent}

module _ (account_error upstream_error : Text → Bool) (library_retryable : AssistantMessage → Bool)
    (factory : Text → Option AssistantMessage) where
  -- The outcome of the attempt behind `n` retries, where `last` is the error so far.
  abbrev pub tried :
      (ℕ → Round)
      → ℕ
      → Option AssistantMessage
      → Outcome account_error upstream_error library_retryable factory
  tried rounds n last =
      try_once account_error upstream_error library_retryable factory n (rounds n) last

  -- The events are those of the last attempt, which is not made again; or the wait behind the last
  -- attempt was aborted, and the only event is the error of the aborted request, or else the last
  -- error.
  abbrev pub FromOne :
      (ℕ → Round) → Ended account_error upstream_error library_retryable factory → Type 0
  FromOne rounds e =
      ((n : ℕ) × (last : Option AssistantMessage) × ((tried rounds n last).again ≡ false)
        × (e.retries ≡ n)
        × (e.events ≡ (tried rounds n last).pushed))
      ⊎ ((n : ℕ) × (last : Option AssistantMessage) × ((tried rounds n last).again ≡ true)
          × ((rounds n).wait_aborted ≡ true)
          × (e.retries ≡ n + 1)
          × (e.events
              ≡ failure account_error upstream_error library_retryable factory (
                  noted
                    (factory (aborted_text account_error upstream_error library_retryable factory))
                    (tried rounds n last).last)))

  abbrev IfEnded :
      (ℕ → Round) → Option (Ended account_error upstream_error library_retryable factory) → Type 0
  IfEnded rounds none = Unit {0}
  IfEnded rounds (some e) = FromOne rounds e

  -- The two branches behind an attempt that is to be made again.
  wait-IfEnded :
      (rounds : ℕ → Round) (t : Bool)
      (a b : Option (Ended account_error upstream_error library_retryable factory))
      → (t ≡ true → IfEnded rounds a)
      → IfEnded rounds b
      → IfEnded rounds (if t then a else b)
  wait-IfEnded rounds true a b h k = h refl
  wait-IfEnded rounds false a b h k = k

  retry_loop-IfEnded :
      (fuel : ℕ) (rounds : ℕ → Round) (n : ℕ) (last : Option AssistantMessage)
      (out : List StreamEvent)
      → ((i : ℕ) → AttemptEnds (rounds i).attempt)
      → out ≡ []
      → IfEnded rounds
          (retry_loop account_error upstream_error library_retryable factory fuel rounds n last out)
  unfolding retry_loop
  retry_loop-IfEnded zero rounds n last out l q = tt
  retry_loop-IfEnded (suc fuel) rounds n last out l q =
      let o = tried rounds n last in
      elim (Bool-cases o.again) [
        | inr over ↦ rw over (inl (n, last, over, refl, ap (λ x. x ++ o.pushed) q))
        | inl again ↦
            let silent : out ++ o.pushed ≡ [] =
              ap (λ x. x ++ o.pushed) q
              ∙ attempt-silent account_error upstream_error library_retryable factory n
                  (rounds n).attempt (rounds n).aborted (rounds n).wait_aborted last (l n) again in
            let aborted =
              noted (factory (aborted_text account_error upstream_error library_retryable factory))
                o.last in
            rw again (
              wait-IfEnded rounds (rounds n).wait_aborted
                (some (
                  give_up account_error upstream_error library_retryable factory (out ++ o.pushed)
                    (n + 1) o.last))
                (retry_loop account_error upstream_error library_retryable factory fuel rounds
                  (n + 1) o.last (out ++ o.pushed))
                (λ w. inr (
                  n,
                  last,
                  again,
                  w,
                  refl,
                  ap
                      (λ x.
                        x ++ failure account_error upstream_error library_retryable factory aborted)
                      silent,
                ))
                (retry_loop-IfEnded fuel rounds (n + 1) o.last (out ++ o.pushed) l silent))
      ]

  retry_stream-IfEnded :
      (rounds : ℕ → Round)
      → ((i : ℕ) → AttemptEnds (rounds i).attempt)
      → IfEnded rounds (retry_stream account_error upstream_error library_retryable factory rounds)
  unfolding retry_stream
  retry_stream-IfEnded rounds l = retry_loop-IfEnded 8 rounds 0 none [] l refl

  -- If an error event is the last of its stream, then the stream of the answer ends, and what the
  -- caller is given is either what the last attempt pushes, which is not made again; or, where the
  -- last attempt was to be made again and the wait behind it was aborted, the error of the aborted
  -- request alone, or else the last error. The number of retries is that of the last attempt, and one
  -- more where the wait was aborted.
  pub no_replay :
      (rounds : ℕ → Round)
      → ((i : ℕ) → AttemptEnds (rounds i).attempt)
      → (e : Ended account_error upstream_error library_retryable factory) × (retry_stream
            account_error upstream_error library_retryable factory rounds
          ≡ some e)
        × FromOne rounds e
  no_replay rounds l =
      let (e, q, few) =
        retry_stream_ends account_error upstream_error library_retryable factory rounds in
      (e, q, subst (IfEnded rounds) q (retry_stream-IfEnded rounds l))
