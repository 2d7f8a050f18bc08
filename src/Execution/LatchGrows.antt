-- ===== src/Execution/LatchGrows.antt =====
-- What the latching methods of the ledger (execution/ledger.py) do to the store.
use cherry_pulse_kr.Prelude.{Option, none, some, nat_eq, string_eq}
use cherry_pulse_kr.Execution.Models.{Key, side_eq, environment_eq, VirtualStopBinding, StopLatch}
use cherry_pulse_kr.Execution.Journal.{Journal}
use cherry_pulse_kr.Execution.Portfolio.{Portfolio}
use cherry_pulse_kr.Execution.StopHoldings.{StopCostBasis, StopHoldings}
use cherry_pulse_kr.Execution.StopQuotes.{rule_of}
use cherry_pulse_kr.Execution.StopLatches.{
  latch_triggered, latch_bound, latch_price, latch_cost, price_latch, cost_latch,
  latch_virtual_price_stop, latch_virtual_cost_stop,
}
use cherry_pulse_kr.Contracts.StopEvaluation.{
  ManagedPosition, Quote, StopObservation, ObserveAt, evaluate_stop,
}
use cherry_pulse_kr.Execution.History.{Grows, Grows-pure, grow_rules}

latch_triggered-Grows :
    (symbol : Key) (q : Quote) (b : VirtualStopBinding) (o : StopObservation)
    → Grows (latch_triggered symbol q b o)
latch_triggered-Grows symbol q b o = search grow_rules depth 12

latch_bound-Grows :
    (symbol : Key) (q : Quote) (t : ObserveAt) (p : ManagedPosition) (b : Option VirtualStopBinding)
    → Grows (latch_bound symbol q t p b)
latch_bound-Grows symbol q t p none = Grows-pure none
latch_bound-Grows symbol q t p (some b) =
    latch_triggered-Grows symbol q b (evaluate_stop p (some q) (rule_of b) t)

latch_price-Grows :
    (j : Journal) (symbol : Key) (t : ObserveAt) (p : Portfolio) (q : Option Quote)
    (h : Option StopHoldings)
    → Grows (latch_price j symbol t p q h)
latch_price-Grows j symbol t p (some q) (some h) = search (grow_rules, latch_bound-Grows)
latch_price-Grows j symbol t p none h = Grows-pure none
latch_price-Grows j symbol t p (some q) none = Grows-pure none

latch_cost-Grows :
    (j : Journal) (symbol : Key) (t : ObserveAt) (p : Portfolio) (q : Option Quote)
    (b : Option StopCostBasis)
    → Grows (latch_cost j symbol t p q b)
latch_cost-Grows j symbol t p (some q) (some b) = search (grow_rules, latch_bound-Grows)
latch_cost-Grows j symbol t p none b = Grows-pure none
latch_cost-Grows j symbol t p (some q) none = Grows-pure none

price_latch-Grows :
    (j : Journal) (symbol : Key) (q : Option Quote) (t : ObserveAt) (found : Option StopLatch)
    → Grows (price_latch j symbol q t found)
price_latch-Grows j symbol q t (some l) = Grows-pure _
price_latch-Grows j symbol q t none = search (grow_rules, latch_price-Grows)

cost_latch-Grows :
    (j : Journal) (symbol : Key) (q : Option Quote) (t : ObserveAt) (found : Option StopLatch)
    → Grows (cost_latch j symbol q t found)
cost_latch-Grows j symbol q t (some l) = Grows-pure _
cost_latch-Grows j symbol q t none = search (grow_rules, latch_cost-Grows)

pub latch_virtual_price_stop-Grows :
    (symbol : Key) (q : Option Quote) (t : ObserveAt) → Grows (latch_virtual_price_stop symbol q t)
unfolding latch_virtual_price_stop
latch_virtual_price_stop-Grows symbol q t = search (grow_rules, price_latch-Grows)

pub latch_virtual_cost_stop-Grows :
    (symbol : Key) (q : Option Quote) (t : ObserveAt) → Grows (latch_virtual_cost_stop symbol q t)
unfolding latch_virtual_cost_stop
latch_virtual_cost_stop-Grows symbol q t = search (grow_rules, cost_latch-Grows)
