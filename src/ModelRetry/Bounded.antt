-- ===== src/ModelRetry/Bounded.antt =====
-- How often an answer is asked for.
use uma_agent.Base.{
  ℕ, zero, suc, ◌+◌, ◌≤◌, ◌<◌, ◌≡◌, refl, Bool, true, false, not, ◌&&◌, List, [], ◌∷◌, ◌++◌, Option,
  none, some, ltb, arith, Bool-cases, inl, inr,
}
use uma_agent.ModelRetry.{
  Text, AssistantMessage, StopReason, Kind, text_delta, thinking_delta, toolcall_delta, text_end,
  thinking_end, toolcall_end, done, failed, other_kind, error, has_output, StreamEvent, Attempt,
  refused, streams, Round, Reading, fresh, noted, bare, keep, start_on, is_retryable, judge,
  recovered, unless_recovered, read_event, read_events, break_off, reason_of, crash, unfinished,
  close_unfinished, read_stream, Ended, give_up, after_stream, after_refusal, try_once, retry_loop,
  retry_stream,
}

-- A retry is asked for only before the seventh.
abbrev pub IsBounded : ℕ → Reading → Type 0
IsBounded n r = r.should_retry ≡ true → n < 7

keep-IsBounded : (n : ℕ) (e : StreamEvent) (r : Reading) → IsBounded n r → IsBounded n (keep e r)
keep-IsBounded n e r h = elim (Bool-cases r.started) [
  | inl begun ↦ ground (arith, h)
  | inr waits ↦ ground (arith, h)
]

start_on-IsBounded : (n : ℕ) (k : Kind) (r : Reading) → IsBounded n r → IsBounded n (start_on k r)
start_on-IsBounded n k r h = elim (Bool-cases (not r.started && has_output k)) [
  | inl begun ↦ ground (arith, h)
  | inr waits ↦ ground (arith, h)
]

module _ (account_error upstream_error : Text → Bool) (library_retryable : AssistantMessage → Bool)
    (factory : Text → Option AssistantMessage) where
  judge-IsBounded :
      (n : ℕ) (k : Kind) (r : Reading)
      → IsBounded n r
      → IsBounded n (judge account_error upstream_error library_retryable factory n k r)
  unfolding judge
  judge-IsBounded n (failed reason m) r h = λ e. ground (arith, e)
  judge-IsBounded n (done reason m) r h = h
  judge-IsBounded n (text_delta t) r h = h
  judge-IsBounded n (thinking_delta t) r h = h
  judge-IsBounded n (toolcall_delta t) r h = h
  judge-IsBounded n (text_end t) r h = h
  judge-IsBounded n (thinking_end t) r h = h
  judge-IsBounded n toolcall_end r h = h
  judge-IsBounded n other_kind r h = h

  read_event-IsBounded :
      (n : ℕ) (e : StreamEvent) (r : Reading)
      → IsBounded n r
      → IsBounded n (read_event account_error upstream_error library_retryable factory n e r)
  unfolding read_event
  read_event-IsBounded n e r h =
      let seen : Reading = record r { last_partial = noted e.partial r.last_partial } in
      let judged = judge account_error upstream_error library_retryable factory n e.kind seen in
      keep-IsBounded n e (start_on e.kind judged)
        (start_on-IsBounded n e.kind judged (judge-IsBounded n e.kind seen h))

  unless_recovered-IsBounded :
      (n : ℕ) (o : Option AssistantMessage) (r : Reading) (rest : Reading × Bool)
      → IsBounded n r
      → IsBounded n rest.0
      → IsBounded n
          (unless_recovered account_error upstream_error library_retryable factory o r rest).0
  unless_recovered-IsBounded n none r rest h k = k
  unless_recovered-IsBounded n (some m) r rest h k = h

  read_events-IsBounded :
      (n : ℕ) (es : List StreamEvent) (r : Reading)
      → IsBounded n r
      → IsBounded n (read_events account_error upstream_error library_retryable factory n es r).0
  unfolding read_events
  read_events-IsBounded n [] r h = h
  read_events-IsBounded n (e ∷ es) r h =
      let next = read_event account_error upstream_error library_retryable factory n e r in
      unless_recovered-IsBounded n
        (recovered account_error upstream_error library_retryable factory e.kind) r
        (read_events account_error upstream_error library_retryable factory n es next) h
        (read_events-IsBounded n es next (read_event-IsBounded n e r h))

  break_off-IsBounded :
      (n : ℕ) (reason : StopReason) (o : Option AssistantMessage) (r : Reading)
      → IsBounded n r
      → IsBounded n (break_off account_error upstream_error library_retryable factory n reason o r)
  break_off-IsBounded n reason none r h = h
  break_off-IsBounded n reason (some m) r h =
      keep-IsBounded n (bare (failed reason m))
        (record r {
          last_error = some m;
          has_terminal = true;
          should_retry =
              not r.started
              && ltb n 7
              && is_retryable account_error upstream_error library_retryable factory m;
        })
        (λ e. ground (arith, e))

  crash-IsBounded :
      (n : ℕ) (broken : Option Text) (r : Reading)
      → IsBounded n r
      → IsBounded n (crash account_error upstream_error library_retryable factory n broken r)
  crash-IsBounded n none r h = h
  crash-IsBounded n (some t) r h =
      break_off-IsBounded n
        (reason_of account_error upstream_error library_retryable factory (factory t)) (factory t) r
        h

  close-IsBounded :
      (n : ℕ) (r : Reading)
      → IsBounded n r
      → IsBounded n (close_unfinished account_error upstream_error library_retryable factory n r)
  close-IsBounded n r h = elim (Bool-cases r.has_terminal) [
    | inl over ↦ ground (arith, h, over)
    | inr unended ↦
        let b =
          break_off-IsBounded n error
            (unfinished account_error upstream_error library_retryable factory r.last_partial) r
            h in
        ground (arith, b, unended)
  ]

  read_stream-IsBounded :
      (n : ℕ) (es : List StreamEvent) (broken : Option Text) (last : Option AssistantMessage)
      → IsBounded n
          (read_stream account_error upstream_error library_retryable factory n es broken last).0
  unfolding read_stream
  read_stream-IsBounded n es broken last =
      let r =
        read_events account_error upstream_error library_retryable factory n es (fresh last) in
      let h : IsBounded n r.0 = read_events-IsBounded n es (fresh last) (λ e. cc e) in
      elim (Bool-cases r.1) [
        | inl over ↦ rw over h
        | inr unended ↦ rw unended (
            close-IsBounded n
              (crash account_error upstream_error library_retryable factory n broken r.0)
              (crash-IsBounded n broken r.0 h))
      ]

  after_stream-bound :
      (n : ℕ) (p : Reading × Bool)
      → IsBounded n p.0
      → (after_stream account_error upstream_error library_retryable factory p).again ≡ true
      → n < 7
  after_stream-bound n (r, true) h e = cc e
  after_stream-bound n (r, false) h e = ground (arith, h, e)

  after_refusal-bound :
      (n : ℕ) (abort : Bool) (last o : Option AssistantMessage)
      → (after_refusal account_error upstream_error library_retryable factory n abort last o).again
        ≡ true
      → n < 7
  after_refusal-bound n abort last none e = cc e
  after_refusal-bound n abort last (some m) e = ground (arith, e)

  attempt-bound :
      (n : ℕ) (a : Attempt) (abort wait : Bool) (last : Option AssistantMessage)
      → (try_once account_error upstream_error library_retryable factory n
          (record { attempt = a; aborted = abort; wait_aborted = wait })
          last).again
        ≡ true
      → n < 7
  unfolding try_once
  attempt-bound n (refused t) abort wait last e = after_refusal-bound n abort last (factory t) e
  attempt-bound n (streams es broken) abort wait last e =
      after_stream-bound n
        (read_stream account_error upstream_error library_retryable factory n es broken last)
        (read_stream-IsBounded n es broken last) e

  retry_loop-ends :
      (fuel : ℕ) (rounds : ℕ → Round) (n : ℕ) (last : Option AssistantMessage)
      (out : List StreamEvent)
      → 8 ≤ fuel + n
      → n ≤ 7
      → (e : Ended account_error upstream_error library_retryable factory) × (retry_loop
            account_error upstream_error library_retryable factory fuel rounds n last out
          ≡ some e)
        × (e.retries ≤ 7)
  unfolding retry_loop
  retry_loop-ends zero rounds n last out h k = absurd (omega arith)
  retry_loop-ends (suc fuel) rounds n last out h k =
      let o = try_once account_error upstream_error library_retryable factory n (rounds n) last in
      elim (Bool-cases o.again) [
        | inr over ↦ rw over (record { events = out ++ o.pushed; retries = n }, refl, k)
        | inl again ↦
            let few =
              attempt-bound n (rounds n).attempt (rounds n).aborted (rounds n).wait_aborted last
                again in
            elim (Bool-cases (rounds n).wait_aborted) [
              | inl abort ↦ rw again (
                  rw abort (
                    give_up account_error upstream_error library_retryable factory (out ++ o.pushed)
                        (n + 1) o.last,
                    refl,
                    omega arith,
                  ))
              | inr wait ↦ rw again (
                  rw wait (
                    retry_loop-ends fuel rounds (n + 1) o.last (out ++ o.pushed) (omega arith)
                      (omega arith)))
            ]
      ]

  -- Whatever the provider does in its attempts, the stream of the answer ends, after seven retries at
  -- most.
  pub retry_stream_ends :
      (rounds : ℕ → Round)
      → (e : Ended account_error upstream_error library_retryable factory) × (retry_stream
            account_error upstream_error library_retryable factory rounds
          ≡ some e)
        × (e.retries ≤ 7)
  unfolding retry_stream
  retry_stream_ends rounds = retry_loop-ends 8 rounds 0 none [] (omega arith) (omega arith)
