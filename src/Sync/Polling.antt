-- ===== src/Sync/Polling.antt =====
-- sync/polling.py: the timing of polls and the classification of responses. A datetime is a
-- number of microseconds, and the code of a response is not negative.
use cherry_pulse_kr.Prelude.{
  ℕ, ◌+◌, ◌-◌, ◌*◌, ◌^◌, Bool, true, false, not, ◌&&◌, Option, none, some, ltb, leb, if◌then◌else◌,
  nat_eq, Result, ok, err,
}
use cherry_pulse_kr.Execution.Models.{Datetime, Timestamp}

abbrev pub poll_interval_seconds : ℕ
poll_interval_seconds = 5

abbrev pub initial_backoff_seconds : ℕ
initial_backoff_seconds = 5

abbrev pub max_backoff_seconds : ℕ
max_backoff_seconds = 5 * 60

pub data PollStatus : Type 0 where
  normal retry_wait operator_review : PollStatus

-- an answer, or the code of a response
pub data PollOutcome : Type 0 where
  success network_error timeout : PollOutcome
  response : ℕ → PollOutcome

-- the texts of `operator_reason`
pub data OperatorReason : Type 0 where
  http : ℕ → OperatorReason
  unexpected_response : OperatorReason

pub data PollError : Type 0 where
  poll_clock_timezone_required poll_failure_count_must_be_positive : PollError

pub record PollingState : Type 0 where
  pub status : PollStatus
  pub consecutive_failures : ℕ
  pub next_attempt_at : Option Timestamp
  pub last_success_at : Option Timestamp
  pub operator_reason : Option OperatorReason

-- `timedelta(seconds=n)`
abbrev pub seconds : ℕ → Timestamp
seconds n = n * 1000000

unfoldable pub retry_delay_seconds : ℕ → Result PollError ℕ
retry_delay_seconds n =
    if ltb n 1
    then err PollError.poll_failure_count_must_be_positive
    else if leb 7 n
    then ok max_backoff_seconds
    else ok (initial_backoff_seconds * 2 ^ (n - 1))

abbrev pub in_range : ℕ → ℕ → PollOutcome → Bool
in_range low high (PollOutcome.response n) = leb low n && ltb n high
in_range low high _ = false

abbrev pub is_success : PollOutcome → Bool
is_success PollOutcome.success = true
is_success o = in_range 200 300 o

abbrev pub is_retryable : PollOutcome → Bool
is_retryable PollOutcome.network_error = true
is_retryable PollOutcome.timeout = true
is_retryable o = in_range 500 600 o

abbrev pub is_review : PollStatus → Bool
is_review PollStatus.operator_review = true
is_review _ = false

abbrev pub reason_for : PollOutcome → OperatorReason
reason_for (PollOutcome.response n) = OperatorReason.http n
reason_for _ = OperatorReason.unexpected_response

abbrev pub under_review : PollingState → OperatorReason → PollingState
under_review state reason = record {
  status = PollStatus.operator_review;
  consecutive_failures = state.consecutive_failures;
  next_attempt_at = none;
  last_success_at = state.last_success_at;
  operator_reason = some reason;
}

abbrev pub waiting : PollingState → Timestamp → ℕ → PollingState
waiting state at delay = record {
  status = PollStatus.retry_wait;
  consecutive_failures = state.consecutive_failures + 1;
  next_attempt_at = some (at + seconds delay);
  last_success_at = state.last_success_at;
  operator_reason = none;
}

abbrev pub succeeded : Timestamp → PollingState
succeeded at = record {
  status = PollStatus.normal;
  consecutive_failures = 0;
  next_attempt_at = some (at + seconds poll_interval_seconds);
  last_success_at = some at;
  operator_reason = none;
}

-- the state after a failure that is tried again
unfoldable pub retry : PollingState → Timestamp → Result PollError PollingState
unfolding retry_delay_seconds
retry state at = elim (retry_delay_seconds (state.consecutive_failures + 1)) [
  | ok delay ↦ ok (waiting state at delay)
  | err e ↦ err e
]

-- what follows the test for an open review
unfoldable pub classify : PollingState → PollOutcome → Timestamp → Result PollError PollingState
unfolding retry
classify state outcome at =
    if is_success outcome
    then ok (succeeded at)
    else if in_range 400 500 outcome
    then ok (under_review state (reason_for outcome))
    else if is_retryable outcome
    then retry state at
    else ok (under_review state OperatorReason.unexpected_response)

unfoldable pub record_poll_outcome :
    PollingState → PollOutcome → Datetime → Bool → Result PollError PollingState
unfolding classify
record_poll_outcome state outcome (Datetime.naive t) resolved =
    err PollError.poll_clock_timezone_required
record_poll_outcome state outcome (Datetime.aware at) resolved =
    if is_review state.status && not resolved then ok state else classify state outcome at
