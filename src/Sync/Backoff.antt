-- ===== src/Sync/Backoff.antt =====
-- The schedule of polls that sync/polling.py gives, over sequences of polls.
use native.Mathlib.Nat.{pow-le-pow_right}
use cherry_pulse_kr.Prelude.{
  ℕ, ◌+◌, ◌-◌, ◌*◌, ◌^◌, ◌≤◌, min, ◌≡◌, refl, true, false, inl, inr, none, some, List, [], ◌∷◌,
  arith, leb, nat_eq, Result, ok, err, Bool-cases, all, length, ◌∙◌, ap, ◌++◌,
}
use cherry_pulse_kr.Execution.Models.{Datetime, Timestamp}
use cherry_pulse_kr.Sync.Polling.{
  PollStatus, PollOutcome, PollError, PollingState, retry_delay_seconds, record_poll_outcome,
  is_review, is_retryable, is_success, seconds, retry, classify, in_range, under_review, reason_for,
}

-- The poll that an engine has made, and when.
pub record Poll : Type 0 where
  pub outcome : PollOutcome
  pub at : Timestamp

-- The states of an engine that records its polls one after the other; no review is resolved.
unfoldable pub record_all : PollingState → List Poll → Result PollError PollingState
unfolding record_poll_outcome
record_all state [] = ok state
record_all state (p ∷ ps) = elim (record_poll_outcome state p.outcome (Datetime.aware p.at) false) [
  | ok next ↦ record_all next ps
  | err e ↦ err e
]

power_at_least : (m n : ℕ) → m ≤ n → 2 ^ m ≤ 2 ^ n
power_at_least m n h = pow-le-pow_right (omega arith) h

-- For any positive number of failures the delay is five seconds doubled for every failure after
-- the first, capped at five minutes, so the early exit at seven failures agrees with the
-- formula.
pub retry_delay_capped : (n : ℕ) → 1 ≤ n → retry_delay_seconds n ≡ ok (min 300 (5 * 2 ^ (n - 1)))
unfolding retry_delay_seconds
retry_delay_capped n h = elim (Bool-cases (leb 7 n)) [
  | inl many ↦
      let big : 2 ^ 6 ≤ 2 ^ (n - 1) = power_at_least 6 (n - 1) (ground (arith, many)) in
      ground (arith, many, big)
  | inr few ↦
      let small : 2 ^ (n - 1) ≤ 2 ^ 5 = power_at_least (n - 1) 5 (ground (arith, few)) in
      ground (arith, few, small)
]

-- the state after `n` failures in all, the last of them at a time
abbrev pub backing_off : PollingState → ℕ → Timestamp → PollingState
backing_off state n at = record {
  status = PollStatus.retry_wait;
  consecutive_failures = n;
  next_attempt_at = some (at + seconds (min 300 (5 * 2 ^ (n - 1))));
  last_success_at = state.last_success_at;
  operator_reason = none;
}

retry-backing_off :
    (state : PollingState) (at : Timestamp)
    → retry state at ≡ ok (backing_off state (state.consecutive_failures + 1) at)
unfolding retry
retry-backing_off state at =
    rw (retry_delay_capped (state.consecutive_failures + 1) (omega arith), retry) refl

-- One failure that is tried again, with no review open.
record-retryable :
    (state : PollingState) (p : Poll)
    → is_review state.status ≡ false
    → is_retryable p.outcome ≡ true
    → record_poll_outcome state p.outcome (Datetime.aware p.at) false
      ≡ ok (backing_off state (state.consecutive_failures + 1) p.at)
unfolding record_poll_outcome classify
record-retryable state p calm again = go p.outcome again
  where
    go :
        (o : PollOutcome)
        → is_retryable o ≡ true
        → record_poll_outcome state o (Datetime.aware p.at) false
          ≡ ok (backing_off state (state.consecutive_failures + 1) p.at)
    go PollOutcome.success h = cc
    go PollOutcome.network_error h = rw calm (retry-backing_off state p.at)
    go PollOutcome.timeout h = rw calm (retry-backing_off state p.at)
    go (PollOutcome.response n) h =
        let good : is_success (PollOutcome.response n) ≡ false = ground (arith, h) in
        let refused : in_range 400 500 (PollOutcome.response n) ≡ false = ground (arith, h) in
        rw (calm, classify, good, refused, h) (retry-backing_off state p.at)

-- From a state without an open review, polls that all end in a retryable failure leave the
-- engine waiting, with one failure counted for each of them and the next attempt after the last
-- one by five seconds doubled for every earlier failure, five minutes at most; the time of the
-- last success is kept.
pub failures_back_off :
    (state : PollingState) (ps : List Poll) (p : Poll)
    → is_review state.status ≡ false
    → all (λ q. is_retryable q.outcome) (ps ++ p ∷ []) ≡ true
    → record_all state (ps ++ p ∷ [])
      ≡ ok (backing_off state (state.consecutive_failures + length ps + 1) p.at)
unfolding record_all
failures_back_off state [] p calm again =
    rw (record-retryable state p calm (ground (arith, again)), record_all)
      (ap (λ n. ok (backing_off state n p.at)) (omega arith))
failures_back_off state (q ∷ ps) p calm again =
    rw (record-retryable state q calm (ground (arith, again)), record_all)
      (failures_back_off (backing_off state (state.consecutive_failures + 1) q.at) ps p refl
          (ground (arith, again))
        ∙ ap (λ n. ok (backing_off state n p.at)) (omega arith))

review_stays :
    (state : PollingState) (ps : List Poll)
    → is_review state.status ≡ true
    → record_all state ps ≡ ok state
unfolding record_all record_poll_outcome
review_stays state [] h = refl
review_stays state (p ∷ ps) h = rw (record_all, record_poll_outcome, h) (review_stays state ps h)

record-refused :
    (state : PollingState) (p : Poll)
    → is_review state.status ≡ false
    → in_range 400 500 p.outcome ≡ true
    → record_poll_outcome state p.outcome (Datetime.aware p.at) false
      ≡ ok (under_review state (reason_for p.outcome))
unfolding record_poll_outcome classify
record-refused state p calm refused = go p.outcome refused
  where
    go :
        (o : PollOutcome)
        → in_range 400 500 o ≡ true
        → record_poll_outcome state o (Datetime.aware p.at) false
          ≡ ok (under_review state (reason_for o))
    go (PollOutcome.response n) h =
        let good : is_success (PollOutcome.response n) ≡ false = ground (arith, h) in
        rw (calm, classify, good, h) refl
    go PollOutcome.success h = cc
    go PollOutcome.network_error h = cc
    go PollOutcome.timeout h = cc

-- A response from 400 to 499 opens a review, and while nobody resolves it no later poll, a
-- successful one included, changes the state.
pub review_sticks :
    (state : PollingState) (p : Poll) (ps : List Poll)
    → is_review state.status ≡ false
    → in_range 400 500 p.outcome ≡ true
    → record_all state (p ∷ ps) ≡ ok (under_review state (reason_for p.outcome))
unfolding record_all
review_sticks state p ps calm refused =
    rw (record_all, record-refused state p calm refused)
      (review_stays (under_review state (reason_for p.outcome)) ps refl)
