-- ===== src/Execution/StopQuotes.antt =====
-- `process_virtual_stop_quote` of execution/ledger.py. A symbol is six digits,
-- as the types of a quote and of a position have it.
use cherry_pulse_kr.Prelude.{
  ℕ, ◌+◌, Bool, true, false, not, ◌||◌, Option, none, some, reverse, ltb, leb, if◌then◌else◌, ◌==◌,
  nat_eq, string_eq, length, find?, ok, err,
}
use cherry_pulse_kr.Execution.Price.{Price, coefficient}
use cherry_pulse_kr.Execution.Models.{
  Key, LedgerError, Raises, side_eq, environment_eq, VirtualStopBinding, StopLatch,
  StopQuoteCheckpoint,
}
use cherry_pulse_kr.Execution.Journal.{Journal}
use cherry_pulse_kr.Execution.Storage.{Payload, checkpoint_stop_quote}
use cherry_pulse_kr.Execution.Portfolio.{Portfolio, portfolio, available}
use cherry_pulse_kr.Execution.Transaction.{
  Method, pure, lift, transaction, read_journal, append_entry, ensure_ready, ◌>>=◌, ◌>>◌,
}
use cherry_pulse_kr.Execution.InboxConfig.{binds_version, plain_text}
use cherry_pulse_kr.Execution.StopHoldings.{
  StopCostBasis, StopHoldings, confirmed_stop_holdings, confirmed_stop_cost_basis,
}
use cherry_pulse_kr.Contracts.Settings.{StopRule}
use cherry_pulse_kr.Contracts.Decimal.{length_of}
use cherry_pulse_kr.Contracts.StopEvaluation.{
  ManagedPosition, Quote, StopReason, StopObservation, ObserveAt, is_stale, is_triggered,
  unavailable_for, evaluate_stop,
}

pub record VirtualStopInputResult : Type 0 where
  pub accepted : Bool
  pub observation : StopObservation
  pub latch : Option StopLatch

abbrev pub latch_for : Key → Journal → Option StopLatch
latch_for symbol j = find? (λ l. l.symbol == symbol) j.stop_latches

abbrev pub cursor_for : Key → Journal → Option StopQuoteCheckpoint
cursor_for symbol j = find? (λ p. p.symbol == symbol) (reverse j.stop_quotes)

-- the order of a quote and of a clock against the last checkpoint
abbrev pub order_rejection : Quote → ObserveAt → Option StopQuoteCheckpoint → Option StopReason
order_rejection q t none = none
order_rejection q t (some p) =
    if ltb t.now p.evaluated_at
    then some StopReason.evaluation_time_reversed
    else if q.received_at == p.received_at
    then some StopReason.quote_duplicate
    else if ltb q.received_at p.received_at
    then some StopReason.quote_out_of_order
    else none

abbrev pub latch_rejection : Option StopLatch → Option StopReason
latch_rejection none = none
latch_rejection (some l) = some StopReason.stop_already_latched

abbrev pub or_else : Option StopReason → Option StopReason → Option StopReason
or_else none r = r
or_else (some e) r = some e

-- `_quote_rejection_reason`
unfoldable pub quote_rejection_reason : Journal → Key → Quote → ObserveAt → Option StopReason
quote_rejection_reason j symbol q t =
    if not (q.symbol == symbol)
    then some StopReason.quote_missing_or_wrong_symbol
    else if is_stale t q.received_at
    then some StopReason.quote_not_fresh
    else or_else (order_rejection q t (cursor_for symbol j)) (latch_rejection (latch_for symbol j))

abbrev pub Evaluation : Type 0
Evaluation = StopObservation × Option VirtualStopBinding

abbrev pub unbound : StopReason → Evaluation
unbound r = (unavailable_for r, none)

abbrev pub rule_of : VirtualStopBinding → StopRule
rule_of b = record { kind = b.rule_kind; threshold = b.threshold }

-- the evaluation against the binding of the assigned version
abbrev pub evaluate_bound : Journal → Key → Quote → ObserveAt → ManagedPosition → ℕ → Evaluation
evaluate_bound j symbol q t managed version =
    elim (find? (binds_version symbol version) j.stop_bindings) [
      | none ↦ unbound StopReason.stop_rule_evidence_incomplete
      | some b ↦ (evaluate_stop managed (some q) (rule_of b) t, some b)
    ]

abbrev pub basis_position : Key → StopCostBasis → ManagedPosition
basis_position symbol b = record {
  symbol = symbol;
  confirmed_qty = b.qty;
  average_cost = some b.average_cost;
}

abbrev pub holdings_position : Key → StopHoldings → ManagedPosition
holdings_position symbol h = record { symbol = symbol; confirmed_qty = h.qty; average_cost = none }

abbrev pub evaluate_held :
    Journal → Key → Quote → ObserveAt → Option StopCostBasis → Option StopHoldings → Evaluation
evaluate_held j symbol q t (some b) holdings =
    evaluate_bound j symbol q t (basis_position symbol b) b.rule_version
evaluate_held j symbol q t none (some h) =
    evaluate_bound j symbol q t (holdings_position symbol h) h.rule_version
evaluate_held j symbol q t none none = unbound StopReason.stop_rule_evidence_incomplete

-- the part of `_evaluate_virtual_quote` for what may be sold
abbrev pub evaluate_available : Journal → Key → Quote → ObserveAt → Raises Evaluation
evaluate_available j symbol q t = elim (confirmed_stop_cost_basis j symbol) [
  | err e ↦ err e
  | ok basis ↦ elim (confirmed_stop_holdings j symbol) [
    | err e ↦ err e
    | ok holdings ↦ ok (evaluate_held j symbol q t basis holdings)
  ]
]

abbrev pub evaluate_position : Journal → Key → Quote → ObserveAt → Portfolio → Raises Evaluation
evaluate_position j symbol q t p =
    if p.reconciliation_required || p.sell_uncertain
    then ok (unbound StopReason.sell_evidence_unresolved)
    else if available p == 0
    then ok (unbound StopReason.no_unreserved_managed_position)
    else evaluate_available j symbol q t

-- `_evaluate_virtual_quote`
unfoldable pub evaluate_virtual_quote : Journal → Key → Quote → ObserveAt → Raises Evaluation
unfolding confirmed_stop_cost_basis confirmed_stop_holdings evaluate_stop portfolio available
evaluate_virtual_quote j symbol q t = elim (portfolio j symbol) [
  | err e ↦ err e
  | ok p ↦ evaluate_position j symbol q t p
]

-- `str(price)`, which is no price text where it has an exponent
unfoldable pub quote_text : Price → Raises Price
unfolding length_of plain_text
quote_text p =
    if leb (length p.frac) (length_of (coefficient p) + 5)
    then ok (plain_text p)
    else err LedgerError.validation_error

abbrev pub checkpoint_of : Key → Price → Quote → ObserveAt → StopQuoteCheckpoint
checkpoint_of symbol text q t = record {
  symbol = symbol;
  price = text;
  received_at = q.received_at;
  evaluated_at = t.now;
}

abbrev pub latch_of : Key → Price → Quote → VirtualStopBinding → StopLatch
latch_of symbol text q b = record {
  symbol = symbol;
  rule_version = b.version;
  rule_kind = b.rule_kind;
  quote_price = text;
  quote_received_at = q.received_at;
}

-- `Storage.checkpoint_stop_quote` in a transaction
unfoldable pub write_checkpoint : StopQuoteCheckpoint → Method (Unit {0})
unfolding checkpoint_stop_quote
write_checkpoint p s = ok (tt, record s { db = checkpoint_stop_quote s.lease.scope p s.db })

abbrev pub append_latch : StopLatch → Method (Unit {0})
append_latch l = append_entry (record { key = l.symbol; payload = Payload.stop_latch l })

abbrev pub rejected_input : Journal → Key → StopReason → VirtualStopInputResult
rejected_input j symbol r = record {
  accepted = false;
  observation = unavailable_for r;
  latch = elim r [ StopReason.stop_already_latched ↦ latch_for symbol j | _ ↦ none ];
}

abbrev pub accepted_input : StopObservation → Option StopLatch → VirtualStopInputResult
accepted_input o l = record { accepted = true; observation = o; latch = l }

-- the binding of a triggered observation
abbrev pub trigger_of : Evaluation → Option VirtualStopBinding
trigger_of e = if is_triggered e.0.status then e.1 else none

abbrev pub latch_if : Key → Price → Quote → Option VirtualStopBinding → Method (Option StopLatch)
latch_if symbol text q none = pure none
latch_if symbol text q (some b) = do
  append_latch (latch_of symbol text q b)
  pure (some (latch_of symbol text q b))

-- the part of `process_virtual_stop_quote` for a quote that is not rejected
unfoldable pub accept_quote : Journal → Key → Quote → ObserveAt → Method VirtualStopInputResult
unfolding evaluate_virtual_quote quote_text write_checkpoint
accept_quote j symbol q t = do
  e ← lift (evaluate_virtual_quote j symbol q t)
  text ← lift (quote_text q.price)
  write_checkpoint (checkpoint_of symbol text q t)
  latch ← latch_if symbol text q (trigger_of e)
  pure (accepted_input e.0 latch)

abbrev pub accept_unless :
    Journal → Key → Quote → ObserveAt → Option StopReason → Method VirtualStopInputResult
accept_unless j symbol q t (some r) = pure (rejected_input j symbol r)
accept_unless j symbol q t none = accept_quote j symbol q t

unfoldable pub process_virtual_stop_quote : Key → Quote → ObserveAt → Method VirtualStopInputResult
unfolding accept_quote quote_rejection_reason
process_virtual_stop_quote symbol q t = transaction (do
  ensure_ready
  j ← read_journal
  accept_unless j symbol q t (quote_rejection_reason j symbol q t))
