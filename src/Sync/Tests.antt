-- ===== src/Sync/Tests.antt =====
-- Tests and examples for the `sync` package.
use cherry_pulse_kr.Prelude.{ℕ, ◌≡◌, refl, none, some, [], ◌∷◌, arith, ok, min, ◌*◌, ◌^◌}
use cherry_pulse_kr.Sync.Polling.{
  PollStatus, PollOutcome, PollingState, retry_delay_seconds, under_review, reason_for,
}
use cherry_pulse_kr.Sync.Backoff.{
  Poll, record_all, backing_off, retry_delay_capped, failures_back_off, review_sticks,
}

abbrev begun : PollingState
begun = record {
  status = PollStatus.normal;
  consecutive_failures = 0;
  next_attempt_at = none;
  last_success_at = some 5;
  operator_reason = none;
}

abbrev poll : PollOutcome → ℕ → Poll
poll outcome at = record { outcome = outcome; at = at }

retry_delay_capped_example : retry_delay_seconds 9 ≡ ok (min 300 (5 * 2 ^ 8))
retry_delay_capped_example = retry_delay_capped 9 (omega arith)

failures_back_off_example :
    record_all begun (
      poll PollOutcome.timeout 10
      ∷ poll (PollOutcome.response 503) 20
      ∷ poll PollOutcome.network_error 30
      ∷ [])
    ≡ ok (backing_off begun 3 30)
failures_back_off_example =
    failures_back_off begun (poll PollOutcome.timeout 10 ∷ poll (PollOutcome.response 503) 20 ∷ [])
      (poll PollOutcome.network_error 30) refl refl

review_sticks_example :
    record_all begun (poll (PollOutcome.response 404) 10 ∷ poll PollOutcome.success 20 ∷ [])
    ≡ ok (under_review begun (reason_for (PollOutcome.response 404)))
review_sticks_example =
    review_sticks begun (poll (PollOutcome.response 404) 10) (poll PollOutcome.success 20 ∷ []) refl
      refl
