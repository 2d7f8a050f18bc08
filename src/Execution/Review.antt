-- ===== src/Execution/Review.antt =====
-- The reading methods of execution/ledger.py, and `approve_virtual_reconciliation`.
use cherry_pulse_kr.Prelude.{
  ℕ, Bool, true, false, not, ◌&&◌, Option, none, some, List, [], ◌∷◌, ◌++◌, map, if◌then◌else◌,
  ◌==◌, nat_eq, string_eq, any, keep, sum_of, pick, ok, err, raise_if,
}
use cherry_pulse_kr.Execution.Models.{
  Uuid, Key, Side, LedgerError, Raises, side_eq, environment_eq, OrderCommand, common, Request,
  is_some,
}
use cherry_pulse_kr.Execution.Facts.{Fill, Fact, as_fill}
use cherry_pulse_kr.Execution.Journal.{Journal, revision}
use cherry_pulse_kr.Execution.Outcomes.{TransportStatus, status, unresolved, request_state}
use cherry_pulse_kr.Execution.Projection.{Order, order}
use cherry_pulse_kr.Execution.Portfolio.{Portfolio, portfolio}
use cherry_pulse_kr.Execution.Validation.{find_request}
use cherry_pulse_kr.Execution.Lease.{approve_virtual_review}
use cherry_pulse_kr.Execution.Transaction.{Method, lift, transaction, read_journal, ◌>>=◌, ◌>>◌}
use cherry_pulse_kr.Execution.StopObligations.{StopObligationView, stop_obligation_views}
use cherry_pulse_kr.Execution.Lease.{approve_virtual_review}

abbrev pub reading : {A : Type 0} → (Journal → Raises A) → Method A
reading f = transaction (do j ← read_journal; lift (f j))

-- `Ledger.order`
unfoldable pub order_snapshot : Uuid → Method Order
order_snapshot id = reading (λ j. order j id)

-- `Ledger.portfolio`
unfoldable pub portfolio_snapshot : Key → Method Portfolio
portfolio_snapshot symbol = reading (λ j. portfolio j symbol)

-- `Ledger.virtual_stop_obligations`
unfoldable pub virtual_stop_obligations : Key → Method (List StopObligationView)
virtual_stop_obligations symbol = reading (λ j. stop_obligation_views j symbol)

-- `Ledger.transport`
unfoldable pub transport : Uuid → Method TransportStatus
transport id = reading (λ j. elim (find_request id j.requests) [
  | none ↦ err LedgerError.request_not_found
  | some r ↦ ok (request_state j r)
])

abbrev pub is_buy_order : Key → Uuid → Request → Bool
is_buy_order symbol id r = elim r.command [
  | OrderCommand.new c ↦ r.order_id == id && c.side == Side.buy && c.symbol == symbol
  | _ ↦ false
]

-- the confirmed fills of the symbol's buy orders
abbrev pub buy_fills : Journal → Key → List Fill
buy_fills j symbol =
    keep (λ f. any (is_buy_order symbol f.order_id) j.requests) (pick as_fill j.facts)

abbrev pub is_on : ℕ → Option ℕ → Bool
is_on day none = false
is_on day (some d) = d == day

-- `Ledger.filled_buy_qty_on`
unfoldable pub filled_buy_qty_on : Key → ℕ → Journal → Raises ℕ
filled_buy_qty_on symbol day j =
    if any (λ f. not (is_some f.trading_date)) (buy_fills j symbol)
    then err LedgerError.buy_fill_trading_date_unknown
    else ok (sum_of (λ f. f.qty) (keep (λ f. is_on day f.trading_date) (buy_fills j symbol)))

abbrev pub symbol_of_fact : Fact → Option Key
symbol_of_fact (Fact.discrepancy f) = some f.symbol
symbol_of_fact (Fact.quarantined_fill f) = some f.symbol
symbol_of_fact _ = none

-- the symbols that an approval looks at; a repetition changes nothing
abbrev pub reviewed_symbols : Journal → List Key
reviewed_symbols j =
    map (λ r. (common r.command).symbol) j.requests
    ++ (map (λ a. a.symbol) j.allocations ++ pick symbol_of_fact j.facts)

unfoldable pub any_open_portfolio : Journal → List Key → Raises Bool
any_open_portfolio j [] = ok false
any_open_portfolio j (symbol ∷ symbols) =
    let rest : Raises Bool = any_open_portfolio j symbols in
    elim (portfolio j symbol) [
      | ok p ↦ if p.reconciliation_required then ok true else rest
      | err e ↦ err e
    ]

-- the test of `approve_virtual_reconciliation`
unfoldable pub needs_review : Journal → Raises Bool
unfolding any_open_portfolio
needs_review j =
    if any (λ r. unresolved (status j r)) j.requests
    then ok true
    else any_open_portfolio j (reviewed_symbols j)

abbrev pub approve_lease : Method (Unit {0})
approve_lease s = elim (approve_virtual_review s.lease s.process) [
  | ok lease ↦ ok (tt, record s { lease = lease })
  | err e ↦ err e
]

unfoldable pub approve_virtual_reconciliation : ℕ → Method (Unit {0})
unfolding needs_review
approve_virtual_reconciliation expected_revision = transaction (do
  j ← read_journal
  lift (raise_if (not (revision j == expected_revision)) LedgerError.stale_reconciliation_review)
  open_items ← lift (needs_review j)
  lift (raise_if open_items LedgerError.session_reconciliation_required)
  approve_lease)
