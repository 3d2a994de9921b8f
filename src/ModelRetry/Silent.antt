-- ===== src/ModelRetry/Silent.antt =====
-- An attempt pushes nothing before it is certain not to be made again.
use uma_agent.Base.{
  ℕ, ◌≡◌, refl, sym, subst, ◌∙◌, Bool, true, false, not, ◌&&◌, List, [], ◌∷◌, Option, none, some,
  ltb, if◌then◌else◌, arith, Bool-cases, inl, inr,
}
use uma_agent.ModelRetry.{
  Text, AssistantMessage, StopReason, Kind, text_delta, thinking_delta, toolcall_delta, text_end,
  thinking_end, toolcall_end, done, failed, other_kind, error, has_output, StreamEvent, Attempt,
  refused, streams, Reading, fresh, noted, bare, keep, start_on, is_retryable, judge, recovered,
  unless_recovered, read_event, read_events, break_off, reason_of, crash, unfinished,
  close_unfinished, read_stream, after_stream, after_refusal, try_once,
}

abbrev pub is_failure : Kind → Bool
is_failure (failed reason m) = true
is_failure _ = false

-- An error event is the last of its stream, as the library of the streams has it.
abbrev pub ErrorsLast : List StreamEvent → Type 0
ErrorsLast [] = Unit {0}
ErrorsLast (e ∷ es) = (is_failure e.kind ≡ true → es ≡ []) × ErrorsLast es

abbrev pub AttemptEnds : Attempt → Type 0
AttemptEnds (refused t) = Unit {0}
AttemptEnds (streams es broken) = ErrorsLast es

-- Nothing is pushed before the attempt has started, and one that has is not made again.
record IsSafe (r : Reading) : Type 0 where
  quiet : r.started ≡ false → r.output ≡ []
  final : r.should_retry ≡ true → r.started ≡ false

keep-IsSafe : (e : StreamEvent) (r : Reading) → IsSafe r → IsSafe (keep e r)
keep-IsSafe e r h = record {
  quiet = λ s. ground (arith, h.quiet, s);
  final = λ s. ground (arith, h.final, s);
}

start_on-quiet :
    (k : Kind) (r : Reading)
    → IsSafe r
    → (start_on k r).started ≡ false
    → (start_on k r).output ≡ []
start_on-quiet k r h s = ground (arith, h.quiet, s)

start_on-calm :
    (k : Kind) (r : Reading) → r.should_retry ≡ false → (start_on k r).should_retry ≡ false
start_on-calm k r c = ground (arith, c)

start_on-silent : (k : Kind) (r : Reading) → has_output k ≡ false → start_on k r ≡ r
start_on-silent k r s = ground (arith, s)

failure-silent : (k : Kind) → is_failure k ≡ true → has_output k ≡ false
unfolding has_output
failure-silent (failed reason m) h = refl
failure-silent (done reason m) h = refl
failure-silent (text_delta t) h = cc h
failure-silent (thinking_delta t) h = cc h
failure-silent (toolcall_delta t) h = cc h
failure-silent (text_end t) h = cc h
failure-silent (thinking_end t) h = cc h
failure-silent toolcall_end h = cc h
failure-silent other_kind h = refl

start_on-IsSafe :
    (k : Kind) (r : Reading) → IsSafe r → r.should_retry ≡ false → IsSafe (start_on k r)
start_on-IsSafe k r h c = record {
  quiet = start_on-quiet k r h;
  final = λ s. cc (s, start_on-calm k r c);
}

keep-calm :
    (e : StreamEvent) (r : Reading) → r.should_retry ≡ false → (keep e r).should_retry ≡ false
keep-calm e r c = ground (arith, c)

module _ (account_error upstream_error : Text → Bool) (library_retryable : AssistantMessage → Bool)
    (factory : Text → Option AssistantMessage) where
  judge-IsSafe :
      (n : ℕ) (k : Kind) (r : Reading)
      → IsSafe r
      → IsSafe (judge account_error upstream_error library_retryable factory n k r)
  unfolding judge
  judge-IsSafe n (failed reason m) r h = record { quiet = h.quiet; final = λ s. ground (arith, s) }
  judge-IsSafe n (done reason m) r h = record { quiet = h.quiet; final = h.final }
  judge-IsSafe n (text_delta t) r h = h
  judge-IsSafe n (thinking_delta t) r h = h
  judge-IsSafe n (toolcall_delta t) r h = h
  judge-IsSafe n (text_end t) r h = h
  judge-IsSafe n (thinking_end t) r h = h
  judge-IsSafe n toolcall_end r h = h
  judge-IsSafe n other_kind r h = h

  judge-calm :
      (n : ℕ) (k : Kind) (r : Reading)
      → is_failure k ≡ false
      → (judge account_error upstream_error library_retryable factory n k r).should_retry
        ≡ r.should_retry
  unfolding judge
  judge-calm n (failed reason m) r h = cc h
  judge-calm n (done reason m) r h = refl
  judge-calm n (text_delta t) r h = refl
  judge-calm n (thinking_delta t) r h = refl
  judge-calm n (toolcall_delta t) r h = refl
  judge-calm n (text_end t) r h = refl
  judge-calm n (thinking_end t) r h = refl
  judge-calm n toolcall_end r h = refl
  judge-calm n other_kind r h = refl

  seen-IsSafe :
      (e : StreamEvent) (r : Reading)
      → IsSafe r
      → IsSafe (record r { last_partial = noted e.partial r.last_partial })
  seen-IsSafe e r h = record { quiet = h.quiet; final = h.final }

  read_other :
      (n : ℕ) (e : StreamEvent) (r : Reading)
      → is_failure e.kind ≡ false
      → IsSafe r
      → r.should_retry ≡ false
      → IsSafe (read_event account_error upstream_error library_retryable factory n e r)
        × ((read_event account_error upstream_error library_retryable factory n e r).should_retry
            ≡ false)
  unfolding read_event
  read_other n e r k h c =
      let seen : Reading = record r { last_partial = noted e.partial r.last_partial } in
      let judged = judge account_error upstream_error library_retryable factory n e.kind seen in
      let calm : judged.should_retry ≡ false = judge-calm n e.kind seen k ∙ c in
      (
        keep-IsSafe e (start_on e.kind judged)
            (start_on-IsSafe e.kind judged (judge-IsSafe n e.kind seen (seen-IsSafe e r h)) calm),
        keep-calm e (start_on e.kind judged) (start_on-calm e.kind judged calm),
      )

  read_failure :
      (n : ℕ) (e : StreamEvent) (r : Reading)
      → is_failure e.kind ≡ true
      → IsSafe r
      → IsSafe (read_event account_error upstream_error library_retryable factory n e r)
  unfolding read_event
  read_failure n e r k h =
      let seen : Reading = record r { last_partial = noted e.partial r.last_partial } in
      let judged = judge account_error upstream_error library_retryable factory n e.kind seen in
      keep-IsSafe e (start_on e.kind judged) (
        subst IsSafe (sym (start_on-silent e.kind judged (failure-silent e.kind k)))
          (judge-IsSafe n e.kind seen (seen-IsSafe e r h)))

  -- A stream that was not ended by a recovery is safe.
  abbrev Kept : Reading × Bool → Type 0
  Kept p = p.1 ≡ false → IsSafe p.0

  unless_recovered-Kept :
      (o : Option AssistantMessage) (r : Reading) (rest : Reading × Bool)
      → Kept rest
      → Kept (unless_recovered account_error upstream_error library_retryable factory o r rest)
  unless_recovered-Kept none r rest k = k
  unless_recovered-Kept (some m) r rest k = λ e. cc e

  read_events-Kept :
      (n : ℕ) (es : List StreamEvent) (r : Reading)
      → ErrorsLast es
      → IsSafe r
      → r.should_retry ≡ false
      → Kept (read_events account_error upstream_error library_retryable factory n es r)
  unfolding read_events
  read_events-Kept n [] r l h c = λ _. h
  read_events-Kept n (e ∷ es) r l h c =
      let next = read_event account_error upstream_error library_retryable factory n e r in
      let o = recovered account_error upstream_error library_retryable factory e.kind in
      elim (Bool-cases (is_failure e.kind)) [
        | inr goes_on ↦
            let after = read_other n e r goes_on h c in
            unless_recovered-Kept o r
              (read_events account_error upstream_error library_retryable factory n es next)
              (read_events-Kept n es next l.1 after.0 after.1)
        | inl ends ↦
            unless_recovered-Kept o r
              (read_events account_error upstream_error library_retryable factory n es next)
              (subst
                (λ rest.
                  Kept (
                    read_events account_error upstream_error library_retryable factory n rest next))
                (sym (l.0 ends)) (λ _. read_failure n e r ends h))
      ]

  break_off-IsSafe :
      (n : ℕ) (reason : StopReason) (o : Option AssistantMessage) (r : Reading)
      → IsSafe r
      → IsSafe (break_off account_error upstream_error library_retryable factory n reason o r)
  break_off-IsSafe n reason none r h = h
  break_off-IsSafe n reason (some m) r h =
      keep-IsSafe (bare (failed reason m))
        (record r {
          last_error = some m;
          has_terminal = true;
          should_retry =
              not r.started
              && ltb n 7
              && is_retryable account_error upstream_error library_retryable factory m;
        })
        (record { quiet = h.quiet; final = λ s. ground (arith, s) })

  crash-IsSafe :
      (n : ℕ) (broken : Option Text) (r : Reading)
      → IsSafe r
      → IsSafe (crash account_error upstream_error library_retryable factory n broken r)
  crash-IsSafe n none r h = h
  crash-IsSafe n (some t) r h =
      break_off-IsSafe n
        (reason_of account_error upstream_error library_retryable factory (factory t)) (factory t) r
        h

  close-IsSafe :
      (n : ℕ) (r : Reading)
      → IsSafe r
      → IsSafe (close_unfinished account_error upstream_error library_retryable factory n r)
  close-IsSafe n r h = choose r.has_terminal
    where
      choose :
          (t : Bool)
          → IsSafe (
              if t
              then r
              else break_off account_error upstream_error library_retryable factory n error
                  (unfinished account_error upstream_error library_retryable factory r.last_partial)
                  r)
      choose true = h
      choose false =
          break_off-IsSafe n error
            (unfinished account_error upstream_error library_retryable factory r.last_partial) r h

  read_stream-Kept :
      (n : ℕ) (es : List StreamEvent) (broken : Option Text) (last : Option AssistantMessage)
      → ErrorsLast es
      → Kept (read_stream account_error upstream_error library_retryable factory n es broken last)
  unfolding read_stream
  read_stream-Kept n es broken last l =
      let r =
        read_events account_error upstream_error library_retryable factory n es (fresh last) in
      let first : IsSafe (fresh last) = record { quiet = λ _. refl; final = λ e. cc e } in
      let h = read_events-Kept n es (fresh last) l first refl in
      elim (Bool-cases r.1) [
        | inl over ↦ rw over (λ e. cc e)
        | inr unended ↦ rw unended (λ _.
            close-IsSafe n
              (crash account_error upstream_error library_retryable factory n broken r.0)
              (crash-IsSafe n broken r.0 (h unended)))
      ]

  after_stream-silent :
      (p : Reading × Bool)
      → Kept p
      → (after_stream account_error upstream_error library_retryable factory p).again ≡ true
      → (after_stream account_error upstream_error library_retryable factory p).pushed ≡ []
  after_stream-silent (r, true) k e = cc e
  after_stream-silent (r, false) k e = again_silent r (k refl) e
    where
      again_silent :
          (r : Reading)
          → IsSafe r
          → (after_stream account_error upstream_error library_retryable factory (r, false)).again
            ≡ true
          → (after_stream account_error upstream_error library_retryable factory (r, false)).pushed
            ≡ []
      again_silent r h e = elim (Bool-cases r.should_retry) [
        | inl again ↦ let silent = h.quiet (h.final again) in ground (arith, again, silent)
        | inr over ↦ ground (arith, over, e)
      ]

  after_refusal-silent :
      (n : ℕ) (abort : Bool) (last o : Option AssistantMessage)
      → (after_refusal account_error upstream_error library_retryable factory n abort last o).again
        ≡ true
      → (after_refusal account_error upstream_error library_retryable factory n abort last o).pushed
        ≡ []
  after_refusal-silent n abort last none e = refl
  after_refusal-silent n abort last (some m) e = ground (arith, e)

  pub attempt-silent :
      (n : ℕ) (a : Attempt) (abort wait : Bool) (last : Option AssistantMessage)
      → AttemptEnds a
      → (try_once account_error upstream_error library_retryable factory n
          (record { attempt = a; aborted = abort; wait_aborted = wait })
          last).again
        ≡ true
      → (try_once account_error upstream_error library_retryable factory n
          (record { attempt = a; aborted = abort; wait_aborted = wait })
          last).pushed
        ≡ []
  unfolding try_once
  attempt-silent n (refused t) abort wait last l e = after_refusal-silent n abort last (factory t) e
  attempt-silent n (streams es broken) abort wait last l e =
      after_stream-silent
        (read_stream account_error upstream_error library_retryable factory n es broken last)
        (read_stream-Kept n es broken last l) e
