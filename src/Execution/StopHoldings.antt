-- ===== src/Execution/StopHoldings.antt =====
-- execution/projection.py: the holdings of a symbol whose buys share one stop rule, and their cost.
use cherry_pulse_kr.Prelude.{
  ℕ, Bool, false, not, ◌&&◌, ◌||◌, Option, none, some, List, [], ◌∷◌, reverse, ltb, if◌then◌else◌,
  ◌==◌, nat_eq, string_eq, length, any, all, keep, find?, sum_of, pick, ok, ◌>>=◌, ◌>>◌, raise_if,
  require,
}
use cherry_pulse_kr.Prelude.Int.{pos, leb_ℤ}
use cherry_pulse_kr.Execution.Models.{
  Uuid, Key, Side, LedgerError, Raises, side_eq, environment_eq, OrderCommand, Request,
  StopRuleAssignment, is_some, common,
}
use cherry_pulse_kr.Execution.Facts.{Fill, as_fill}
use cherry_pulse_kr.Execution.Journal.{Journal}
use cherry_pulse_kr.Execution.Projection.{at_least_zero}
use cherry_pulse_kr.Execution.Portfolio.{Portfolio, portfolio}
use cherry_pulse_kr.Execution.InboxConfig.{binds_version}
use cherry_pulse_kr.Execution.Review.{buy_fills}
use cherry_pulse_kr.Contracts.Decimal.{Decimal, decimal_of, whole_decimal, times, plus, divided}

pub record StopCostBasis : Type 0 where
  pub qty : ℕ
  pub average_cost : Decimal
  pub rule_version : ℕ

pub record StopHoldings : Type 0 where
  pub qty : ℕ
  pub rule_version : ℕ

-- the assignment of a fill, the last one of its identity
abbrev pub assignment_of : Journal → Fill → Option StopRuleAssignment
assignment_of j f = find? (λ a. a.fill_event_id == f.event_id) (reverse j.stop_assignments)

-- the version that a fill is assigned to, where the assignment fits the fill
abbrev pub assigned_version : Journal → Key → Fill → Option ℕ
assigned_version j symbol f = elim (assignment_of j f) [
  | none ↦ none
  | some a ↦ if a.symbol == symbol && a.qty == f.qty then some a.rule_version else none
]

-- the one version of all fills
abbrev pub common_version : List Fill → List ℕ → Option ℕ
common_version fills [] = none
common_version fills (v ∷ vs) =
    if all (λ w. w == v) vs && length fills == length (v ∷ vs) then some v else none

abbrev pub holdings_of : Portfolio → ℕ → Option StopHoldings
holdings_of p version =
    if leb_ℤ p.managed (pos 0) || p.reconciliation_required
    then none
    else some (record { qty = at_least_zero p.managed; rule_version = version })

-- what follows once the version is known
unfoldable pub holdings_at : Journal → Key → ℕ → Raises (Option StopHoldings)
holdings_at j symbol version =
    if any (binds_version symbol version) j.stop_bindings
    then (do p ← portfolio j symbol; ok (holdings_of p version))
    else ok none

unfoldable pub confirmed_stop_holdings : Journal → Key → Raises (Option StopHoldings)
unfolding holdings_at
confirmed_stop_holdings j symbol =
    if any (λ a. a.symbol == symbol && ltb 0 a.qty) j.allocations
    then ok none
    else elim (common_version (buy_fills j symbol)
        (pick (assigned_version j symbol) (buy_fills j symbol))) [
          | none ↦ ok none
          | some version ↦ holdings_at j symbol version
        ]

-- a `New` command of the symbol under the order, on either side or on the one given
abbrev pub is_symbol_order : Key → Uuid → Request → Bool
is_symbol_order symbol id r = elim r.command [
  | OrderCommand.new c ↦ r.order_id == id && c.symbol == symbol
  | _ ↦ false
]

abbrev pub is_sell_order : Key → Uuid → Request → Bool
is_sell_order symbol id r = elim r.command [
  | OrderCommand.new c ↦ r.order_id == id && c.symbol == symbol && c.side == Side.sell
  | _ ↦ false
]

abbrev pub symbol_fills : Journal → Key → List Fill
symbol_fills j symbol =
    keep (λ f. any (is_symbol_order symbol f.order_id) j.requests) (pick as_fill j.facts)

-- `sum(Decimal(f.price) * f.qty ...)`
abbrev pub priced_total : Decimal → List Fill → Decimal
priced_total total [] = total
priced_total total (f ∷ fs) = elim f.price [
  | none ↦ priced_total total fs
  | some p ↦ priced_total (plus total (times (decimal_of p) (whole_decimal f.qty))) fs
]

abbrev pub fills_qty : List Fill → ℕ
fills_qty fs = sum_of (λ f. f.qty) fs

-- `sum(...) / qty`
unfoldable pub average_of : List Fill → Decimal
average_of fs = divided (priced_total (whole_decimal 0) fs) (fills_qty fs)

unfoldable pub basis_of : Journal → Key → StopHoldings → Option StopCostBasis
unfolding average_of
basis_of j symbol h =
    if any (λ f. any (is_sell_order symbol f.order_id) j.requests || not (is_some f.price))
      (symbol_fills j symbol)
    then none
    else if fills_qty (symbol_fills j symbol) == h.qty
    then some (record {
      qty = fills_qty (symbol_fills j symbol);
      average_cost = average_of (symbol_fills j symbol);
      rule_version = h.rule_version;
    })
    else none

unfoldable pub confirmed_stop_cost_basis : Journal → Key → Raises (Option StopCostBasis)
unfolding confirmed_stop_holdings basis_of
confirmed_stop_cost_basis j symbol = do
  holdings ← confirmed_stop_holdings j symbol
  ok (elim holdings [ none ↦ none | some h ↦ basis_of j symbol h ])

abbrev pub is_new_of : Uuid → Request → Bool
is_new_of id r = elim r.command [ OrderCommand.new c ↦ r.order_id == id | _ ↦ false ]

-- the average of an order's fills, where each has a price
abbrev pub average_if_priced : List Fill → Option Decimal
average_if_priced [] = none
average_if_priced (f ∷ fs) =
    if any (λ g. not (is_some g.price)) (f ∷ fs) then none else some (average_of (f ∷ fs))

abbrev pub side_of : Request → Side
side_of r = (common r.command).side

unfoldable pub buy_order_average_cost : Journal → Uuid → Raises (Option Decimal)
unfolding average_of
buy_order_average_cost j id = do
  r ← require (find? (is_new_of id) j.requests) LedgerError.order_not_found
  raise_if (not (side_of r == Side.buy)) LedgerError.buy_order_required
  ok (average_if_priced (keep (λ f. f.order_id == id) (pick as_fill j.facts)))
