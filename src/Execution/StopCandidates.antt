-- ===== src/Execution/StopCandidates.antt =====
-- execution/ledger.py: candidates for a protecting sale.
use cherry_pulse_kr.Prelude.{
  ℕ, Bool, true, false, ◌&&◌, ◌||◌, Option, none, some, if◌then◌else◌, ◌==◌, nat_eq, string_eq,
  find?, ok, err,
}
use cherry_pulse_kr.Prelude.Int.{pos, leb_ℤ}
use cherry_pulse_kr.Execution.Models.{
  Key, RuleKind, Raises, side_eq, environment_eq, VirtualStopBinding, StopLatch,
}
use cherry_pulse_kr.Execution.Journal.{Journal}
use cherry_pulse_kr.Execution.Projection.{at_least_zero}
use cherry_pulse_kr.Execution.Portfolio.{Portfolio, portfolio, available}
use cherry_pulse_kr.Execution.InboxConfig.{binds_version}
use cherry_pulse_kr.Execution.StopHoldings.{
  StopCostBasis, StopHoldings, confirmed_stop_holdings, confirmed_stop_cost_basis,
}
use cherry_pulse_kr.Execution.StopQuotes.{latch_for, rule_of, basis_position, holdings_position}
use cherry_pulse_kr.Contracts.StopEvaluation.{
  Quote, StopReason, StopObservation, ProtectionExposure, ProtectionStatus, ProtectionDecision,
  ObserveAt, unavailable_for, decided_without, protection_candidate, evaluate_stop,
}

abbrev pub is_drop : RuleKind → Bool
is_drop RuleKind.average_cost_drop = true
is_drop RuleKind.price_at_or_below = false

-- the binding of a version, where it has the kind that is asked for
abbrev pub binding_at : Bool → Journal → Key → ℕ → Option VirtualStopBinding
binding_at drop j symbol version = elim (find? (binds_version symbol version) j.stop_bindings) [
  | none ↦ none
  | some b ↦
      if is_drop b.rule_kind
      then (if drop then some b else none)
      else (if drop then none else some b)
]

abbrev pub is_unresolved : Portfolio → Bool
is_unresolved p = p.reconciliation_required || p.sell_uncertain

abbrev pub protection_exposure : Portfolio → ProtectionExposure
protection_exposure p = record {
  managed_qty = at_least_zero p.managed;
  reserved_sell_qty = p.reserved;
  reconciliation_required = p.reconciliation_required;
  sell_uncertain = p.sell_uncertain;
}

abbrev pub blocked_by : StopReason → ProtectionDecision
blocked_by r = decided_without ProtectionStatus.blocked r

abbrev pub observe_basis :
    Journal → Key → Option Quote → ObserveAt → Option StopCostBasis → StopObservation
observe_basis j symbol q t none = unavailable_for StopReason.cost_evidence_incomplete
observe_basis j symbol q t (some b) = elim (binding_at true j symbol b.rule_version) [
  | none ↦ unavailable_for StopReason.cost_rule_not_assigned
  | some r ↦ evaluate_stop (basis_position symbol b) q (rule_of r) t
]

-- `_observe_virtual_cost_stop`
unfoldable pub observe_virtual_cost_stop :
    Journal → Key → Option Quote → ObserveAt → Raises StopObservation
unfolding confirmed_stop_cost_basis evaluate_stop
observe_virtual_cost_stop j symbol q t = elim (confirmed_stop_cost_basis j symbol) [
  | err e ↦ err e
  | ok basis ↦ ok (observe_basis j symbol q t basis)
]

abbrev pub cost_decision :
    Journal → Key → Option Quote → ObserveAt → Portfolio → Option StopCostBasis → ProtectionDecision
cost_decision j symbol q t p none = blocked_by StopReason.cost_evidence_incomplete
cost_decision j symbol q t p (some b) =
    protection_candidate (observe_basis j symbol q t (some b)) (basis_position symbol b)
      (protection_exposure p)

abbrev pub cost_candidate :
    Journal → Key → Option Quote → ObserveAt → Portfolio → Raises ProtectionDecision
cost_candidate j symbol q t p =
    if is_unresolved p
    then ok (blocked_by StopReason.sell_evidence_unresolved)
    else elim (confirmed_stop_cost_basis j symbol) [
      | err e ↦ err e
      | ok basis ↦ ok (cost_decision j symbol q t p basis)
    ]

-- what a reading method does with the portfolio of an approved session
abbrev pub with_session :
    Journal → Key → Bool → (Portfolio → Raises ProtectionDecision) → Raises ProtectionDecision
with_session j symbol ready f =
    if ready
    then elim (portfolio j symbol) [ err e ↦ err e | ok p ↦ f p ]
    else ok (blocked_by StopReason.session_reconciliation_required)

-- `ready` is that of the lease
unfoldable pub virtual_cost_stop_candidate :
    Journal → Bool → Key → Option Quote → ObserveAt → Raises ProtectionDecision
unfolding confirmed_stop_cost_basis evaluate_stop protection_candidate portfolio
virtual_cost_stop_candidate j ready symbol q t =
    with_session j symbol ready (cost_candidate j symbol q t)

abbrev pub price_decision :
    Journal → Key → Option Quote → ObserveAt → Portfolio → Option StopHoldings → ProtectionDecision
price_decision j symbol q t p none = blocked_by StopReason.rule_evidence_incomplete
price_decision j symbol q t p (some h) = elim (binding_at false j symbol h.rule_version) [
  | none ↦ blocked_by StopReason.price_rule_not_assigned
  | some r ↦
      protection_candidate (evaluate_stop (holdings_position symbol h) q (rule_of r) t)
        (holdings_position symbol h) (protection_exposure p)
]

abbrev pub price_candidate :
    Journal → Key → Option Quote → ObserveAt → Portfolio → Raises ProtectionDecision
price_candidate j symbol q t p =
    if is_unresolved p
    then ok (blocked_by StopReason.sell_evidence_unresolved)
    else elim (confirmed_stop_holdings j symbol) [
      | err e ↦ err e
      | ok holdings ↦ ok (price_decision j symbol q t p holdings)
    ]

unfoldable pub virtual_price_stop_candidate :
    Journal → Bool → Key → Option Quote → ObserveAt → Raises ProtectionDecision
unfolding confirmed_stop_holdings evaluate_stop protection_candidate portfolio
virtual_price_stop_candidate j ready symbol q t =
    with_session j symbol ready (price_candidate j symbol q t)

-- the test of the holdings against the latch
abbrev pub latched_decision : Portfolio → StopLatch → Option StopHoldings → ProtectionDecision
latched_decision p l none = blocked_by StopReason.rule_evidence_incomplete
latched_decision p l (some h) =
    if h.rule_version == l.rule_version
    then record {
      status = ProtectionStatus.candidate;
      reason = StopReason.latched_unreserved_shares;
      unreserved_qty = available p;
    }
    else blocked_by StopReason.rule_evidence_incomplete

abbrev pub latched_candidate : Journal → Key → StopLatch → Portfolio → Raises ProtectionDecision
latched_candidate j symbol l p =
    if is_unresolved p
    then ok (blocked_by StopReason.sell_evidence_unresolved)
    else if available p == 0
    then ok (
        decided_without ProtectionStatus.none_left (
          if leb_ℤ p.managed (pos 0) && leb_ℤ (pos 0) p.managed
          then StopReason.no_managed_position
          else StopReason.shares_already_reserved_or_sold))
    else elim (confirmed_stop_holdings j symbol) [
      | err e ↦ err e
      | ok holdings ↦ ok (latched_decision p l holdings)
    ]

unfoldable pub virtual_latched_stop_candidate : Journal → Bool → Key → Raises ProtectionDecision
unfolding confirmed_stop_holdings portfolio available
virtual_latched_stop_candidate j ready symbol = elim (latch_for symbol j) [
  | none ↦ ok (decided_without ProtectionStatus.none_left StopReason.stop_not_latched)
  | some l ↦ with_session j symbol ready (latched_candidate j symbol l)
]
