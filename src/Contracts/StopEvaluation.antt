-- ===== src/Contracts/StopEvaluation.antt =====
-- contracts/stop_evaluation.py: whether a quote triggers a stop, and what may be sold for it. A price
-- of a quote or a fill is written without exponent; a cost is a result of the `decimal` module.
use cherry_pulse_kr.Prelude.{
  ℕ, ◌-◌, ◌*◌, Bool, true, false, not, ◌||◌, Option, none, some, List, [], ◌∷◌, ltb, if◌then◌else◌,
  ◌==◌, nat_eq, string_eq, sum_of, Result, ok, err,
}
use cherry_pulse_kr.Execution.Price.{Price}
use cherry_pulse_kr.Execution.Models.{Key, Timestamp, RuleKind}
use cherry_pulse_kr.Contracts.Settings.{StopRule}
use cherry_pulse_kr.Contracts.Decimal.{
  Decimal, decimal_of, whole_decimal, times, plus, minus, divided, leb_decimal,
}

pub record ManagedPosition : Type 0 where
  pub symbol : Key
  pub confirmed_qty : ℕ
  pub average_cost : Option Decimal

pub record Quote : Type 0 where
  pub symbol : Key
  pub price : Price
  pub received_at : Timestamp

pub record ConfirmedBuyFill : Type 0 where
  pub qty : ℕ
  pub price : Price

-- `sum(fill.price * fill.qty for fill in fills)`
abbrev pub total_cost : Decimal → List ConfirmedBuyFill → Decimal
total_cost total [] = total
total_cost total (f ∷ fs) =
    total_cost (plus total (times (decimal_of f.price) (whole_decimal f.qty))) fs

pub data CostError : Type 0 where
  confirmed_buy_fills_required : CostError

unfoldable pub average_buy_cost : List ConfirmedBuyFill → Result CostError Decimal
average_buy_cost [] = err CostError.confirmed_buy_fills_required
average_buy_cost (f ∷ fs) =
    ok (divided (total_cost (whole_decimal 0) (f ∷ fs)) (sum_of (λ g. g.qty) (f ∷ fs)))

pub data StopStatus : Type 0 where
  triggered not_triggered unavailable : StopStatus

-- The texts of `reason`, of an observation and of a decision on protection.
pub data StopReason : Type 0 where
  no_managed_position quote_missing_or_wrong_symbol quote_not_fresh average_cost_missing :
      StopReason
  price_at_or_below_threshold above_threshold : StopReason
  position_evidence_mismatch sell_evidence_unresolved sell_reservation_exceeds_holding : StopReason
  shares_already_reserved_or_sold triggered_unreserved_shares : StopReason
  evaluation_time_reversed quote_duplicate quote_out_of_order stop_already_latched : StopReason
  no_unreserved_managed_position stop_rule_evidence_incomplete : StopReason
  cost_evidence_incomplete cost_rule_not_assigned rule_evidence_incomplete : StopReason
  price_rule_not_assigned session_reconciliation_required stop_not_latched : StopReason
  latched_unreserved_shares : StopReason

pub record StopObservation : Type 0 where
  pub status : StopStatus
  pub reason : StopReason
  pub threshold_price : Option Decimal

pub record ProtectionExposure : Type 0 where
  pub managed_qty : ℕ
  pub reserved_sell_qty : ℕ
  pub reconciliation_required : Bool
  pub sell_uncertain : Bool

pub data ProtectionStatus : Type 0 where
  candidate blocked none_left : ProtectionStatus

pub record ProtectionDecision : Type 0 where
  pub status : ProtectionStatus
  pub reason : StopReason
  pub unreserved_qty : ℕ

abbrev pub decided_without : ProtectionStatus → StopReason → ProtectionDecision
decided_without s r = record { status = s; reason = r; unreserved_qty = 0 }

abbrev pub is_triggered : StopStatus → Bool
is_triggered StopStatus.triggered = true
is_triggered _ = false

unfoldable pub protection_candidate :
    StopObservation → ManagedPosition → ProtectionExposure → ProtectionDecision
protection_candidate o p e =
    if not (is_triggered o.status)
    then decided_without ProtectionStatus.none_left o.reason
    else if not (e.managed_qty == p.confirmed_qty)
    then decided_without ProtectionStatus.blocked StopReason.position_evidence_mismatch
    else if e.reconciliation_required || e.sell_uncertain
    then decided_without ProtectionStatus.blocked StopReason.sell_evidence_unresolved
    else if ltb e.managed_qty e.reserved_sell_qty
    then decided_without ProtectionStatus.blocked StopReason.sell_reservation_exceeds_holding
    else if e.managed_qty - e.reserved_sell_qty == 0
    then decided_without ProtectionStatus.none_left StopReason.shares_already_reserved_or_sold
    else record {
      status = ProtectionStatus.candidate;
      reason = StopReason.triggered_unreserved_shares;
      unreserved_qty = e.managed_qty - e.reserved_sell_qty;
    }

-- The clock's reading has a time zone, and the age is one or two seconds.
pub record ObserveAt : Type 0 where
  pub now : Timestamp
  pub max_quote_age_seconds : ℕ

-- `age < 0 or age > max_quote_age_seconds`
abbrev pub is_stale : ObserveAt → Timestamp → Bool
is_stale t received_at =
    ltb t.now received_at || ltb (t.max_quote_age_seconds * 1000000) (t.now - received_at)

abbrev pub unavailable_for : StopReason → StopObservation
unavailable_for r = record { status = StopStatus.unavailable; reason = r; threshold_price = none }

-- the comparison with a threshold
abbrev pub compared : Price → Decimal → StopObservation
compared price threshold =
    if leb_decimal (decimal_of price) threshold
    then record {
      status = StopStatus.triggered;
      reason = StopReason.price_at_or_below_threshold;
      threshold_price = some threshold;
    }
    else record {
      status = StopStatus.not_triggered;
      reason = StopReason.above_threshold;
      threshold_price = some threshold;
    }

-- the threshold of a rule, where it has one
abbrev pub threshold_of : ManagedPosition → StopRule → Option Decimal
threshold_of p r = elim r.kind [
  | RuleKind.price_at_or_below ↦ some (decimal_of r.threshold)
  | RuleKind.average_cost_drop ↦ elim p.average_cost [
    | none ↦ none
    | some cost ↦ some (times cost (minus (whole_decimal 1) (decimal_of r.threshold)))
  ]
]

-- the part of `evaluate_stop` for a quote
abbrev pub evaluate_quote : ManagedPosition → Quote → StopRule → ObserveAt → StopObservation
evaluate_quote p q r t =
    if not (q.symbol == p.symbol)
    then unavailable_for StopReason.quote_missing_or_wrong_symbol
    else if is_stale t q.received_at
    then unavailable_for StopReason.quote_not_fresh
    else elim (threshold_of p r) [
      | none ↦ unavailable_for StopReason.average_cost_missing
      | some threshold ↦ compared q.price threshold
    ]

unfoldable pub evaluate_stop :
    ManagedPosition → Option Quote → StopRule → ObserveAt → StopObservation
unfolding decimal_of leb_decimal times minus
evaluate_stop p quote r t =
    if p.confirmed_qty == 0 then unavailable_for StopReason.no_managed_position else elim quote [
      | none ↦ unavailable_for StopReason.quote_missing_or_wrong_symbol
      | some q ↦ evaluate_quote p q r t
    ]
