-- ===== src/Execution/QuoteStatus.antt =====
-- execution/quote_status.py: how old the last accepted quote of a symbol is.
use cherry_pulse_kr.Prelude.{
  ◌-◌, ◌*◌, ◌||◌, Option, none, some, ltb, if◌then◌else◌, ◌==◌, nat_eq, string_eq, find?,
}
use cherry_pulse_kr.Execution.Models.{Key, Timestamp, side_eq, environment_eq, StopQuoteCheckpoint}
use cherry_pulse_kr.Execution.Journal.{Journal}
use cherry_pulse_kr.Contracts.StopEvaluation.{ObserveAt}

pub data Freshness : Type 0 where
  no_quote fresh stale clock_uncertain : Freshness

-- The fields `connection` and `exchange_session` have one value each and are left out.
pub record VirtualQuoteStatus : Type 0 where
  pub symbol : Key
  pub freshness : Freshness
  pub received_at : Option Timestamp
  pub evaluated_at : Option Timestamp

abbrev pub freshness_of : ObserveAt → StopQuoteCheckpoint → Freshness
freshness_of t p =
    if ltb t.now p.received_at || ltb t.now p.evaluated_at
    then Freshness.clock_uncertain
    else if ltb (t.max_quote_age_seconds * 1000000) (t.now - p.received_at)
    then Freshness.stale
    else Freshness.fresh

unfoldable pub virtual_quote_status : Journal → Key → ObserveAt → VirtualQuoteStatus
virtual_quote_status j symbol t = elim (find? (λ p. p.symbol == symbol) j.stop_quotes) [
  | none ↦ record {
    symbol = symbol;
    freshness = Freshness.no_quote;
    received_at = none;
    evaluated_at = none;
  }
  | some p ↦ record {
    symbol = symbol;
    freshness = freshness_of t p;
    received_at = some p.received_at;
    evaluated_at = some p.evaluated_at;
  }
]
