-- ===== src/Execution/StopLatches.antt =====
-- execution/ledger.py: latches that are set without a checkpoint.
use cherry_pulse_kr.Prelude.{
  Bool, true, false, ◌||◌, Option, none, some, if◌then◌else◌, ◌==◌, nat_eq, string_eq,
}
use cherry_pulse_kr.Execution.Models.{Key, side_eq, environment_eq, VirtualStopBinding, StopLatch}
use cherry_pulse_kr.Execution.Journal.{Journal}
use cherry_pulse_kr.Execution.Portfolio.{Portfolio, portfolio, available}
use cherry_pulse_kr.Execution.Transaction.{
  Method, pure, lift, transaction, read_journal, ensure_ready, ◌>>=◌, ◌>>◌,
}
use cherry_pulse_kr.Execution.StopHoldings.{
  StopCostBasis, StopHoldings, confirmed_stop_holdings, confirmed_stop_cost_basis,
}
use cherry_pulse_kr.Execution.StopQuotes.{
  latch_for, rule_of, basis_position, holdings_position, quote_text, latch_of, append_latch,
}
use cherry_pulse_kr.Contracts.StopEvaluation.{
  ManagedPosition, Quote, StopObservation, ObserveAt, is_triggered, evaluate_stop,
}
use cherry_pulse_kr.Execution.StopCandidates.{is_drop, binding_at, is_unresolved}

-- a latch that is there, if it has the kind that is asked for
abbrev pub latch_of_kind : Bool → StopLatch → Option StopLatch
latch_of_kind drop l =
    if is_drop l.rule_kind then (if drop then some l else none) else (if drop then none else some l)

-- a triggered observation is latched
abbrev pub latch_triggered :
    Key → Quote → VirtualStopBinding → StopObservation → Method (Option StopLatch)
latch_triggered symbol q b o =
    if is_triggered o.status
    then (do
      text ← lift (quote_text q.price)
      append_latch (latch_of symbol text q b)
      pure (some (latch_of symbol text q b)))
    else pure none

abbrev pub latch_bound :
    Key
    → Quote
    → ObserveAt
    → ManagedPosition
    → Option VirtualStopBinding
    → Method (Option StopLatch)
latch_bound symbol q t managed none = pure none
latch_bound symbol q t managed (some b) =
    latch_triggered symbol q b (evaluate_stop managed (some q) (rule_of b) t)

-- whether nothing can be sold now
abbrev pub is_idle : Portfolio → Bool
is_idle p = is_unresolved p || available p == 0

abbrev pub latch_price :
    Journal
    → Key
    → ObserveAt
    → Portfolio
    → Option Quote
    → Option StopHoldings
    → Method (Option StopLatch)
latch_price j symbol t p (some q) (some h) =
    if is_idle p
    then pure none
    else latch_bound symbol q t (holdings_position symbol h)
        (binding_at false j symbol h.rule_version)
latch_price j symbol t p _ _ = pure none

abbrev pub latch_cost :
    Journal
    → Key
    → ObserveAt
    → Portfolio
    → Option Quote
    → Option StopCostBasis
    → Method (Option StopLatch)
latch_cost j symbol t p (some q) (some b) =
    if is_idle p
    then pure none
    else latch_bound symbol q t (basis_position symbol b) (binding_at true j symbol b.rule_version)
latch_cost j symbol t p _ _ = pure none

abbrev pub price_latch :
    Journal → Key → Option Quote → ObserveAt → Option StopLatch → Method (Option StopLatch)
price_latch j symbol q t (some l) = pure (latch_of_kind false l)
price_latch j symbol q t none = do
  p ← lift (portfolio j symbol)
  holdings ← lift (confirmed_stop_holdings j symbol)
  latch_price j symbol t p q holdings

abbrev pub cost_latch :
    Journal → Key → Option Quote → ObserveAt → Option StopLatch → Method (Option StopLatch)
cost_latch j symbol q t (some l) = pure (latch_of_kind true l)
cost_latch j symbol q t none = do
  p ← lift (portfolio j symbol)
  basis ← lift (confirmed_stop_cost_basis j symbol)
  latch_cost j symbol t p q basis

unfoldable pub latch_virtual_price_stop : Key → Option Quote → ObserveAt → Method (Option StopLatch)
unfolding confirmed_stop_holdings evaluate_stop portfolio available quote_text
latch_virtual_price_stop symbol q t =
    transaction (do ensure_ready; j ← read_journal; price_latch j symbol q t (latch_for symbol j))

unfoldable pub latch_virtual_cost_stop : Key → Option Quote → ObserveAt → Method (Option StopLatch)
unfolding confirmed_stop_cost_basis evaluate_stop portfolio available quote_text
latch_virtual_cost_stop symbol q t =
    transaction (do ensure_ready; j ← read_journal; cost_latch j symbol q t (latch_for symbol j))
