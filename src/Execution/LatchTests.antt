-- ===== src/Execution/LatchTests.antt =====
-- Tests and examples: quotes, latches and candidates of an account with three bought shares.
use cherry_pulse_kr.Execution.Ready.{IsReady}
use cherry_pulse_kr.Execution.Validation.{accepted_request}
use cherry_pulse_kr.Execution.StopObligations.{stop_obligation_views}
use cherry_pulse_kr.Execution.Claim.{Session}
use cherry_pulse_kr.Execution.Dispatcher.{Dispatcher}
use cherry_pulse_kr.Execution.Drain.{drain_virtual_stop, stop_command}
use cherry_pulse_kr.Execution.DrainCovered.{drain_virtual_stop-IsCovered}
use cherry_pulse_kr.Execution.Outcomes.{status, request_state}
use cherry_pulse_kr.Execution.Projection.{order}
use cherry_pulse_kr.Execution.Submit.{request_for}
use cherry_pulse_kr.Prelude.Int.{pos, ◌-ℤ◌, ◌+ℤ◌}
use cherry_pulse_kr.Prelude.{
  ℕ, ◌≡◌, refl, true, none, some, [], ◌∷◌, nat_eq, string_eq, ok, Option, ◌+◌,
}
use cherry_pulse_kr.Execution.Models.{
  side_eq, environment_eq, RuleKind, VirtualStopBinding, StopLatch, Request, Raises,
}
use cherry_pulse_kr.Execution.Facts.{Fact}
use cherry_pulse_kr.Execution.Price.{Price, coefficient}
use cherry_pulse_kr.Execution.Lease.{acquired, operation, require_ready}
use cherry_pulse_kr.Execution.Storage.{Payload, Scope-discrete, EntryKind-discrete}
use cherry_pulse_kr.Execution.Transaction.{
  Store, transaction, read_journal, ensure_ready, append_entry,
}
use cherry_pulse_kr.Execution.History.{journal_of}
use cherry_pulse_kr.Execution.Calls.{run_all}
use cherry_pulse_kr.Execution.StopQuotes.{
  latch_for, process_virtual_stop_quote, accepted_input, rejected_input, latch_of, checkpoint_of,
}
use cherry_pulse_kr.Execution.StopLatches.{latch_virtual_price_stop, latch_virtual_cost_stop}
use cherry_pulse_kr.Execution.StopCandidates.{
  virtual_price_stop_candidate, virtual_cost_stop_candidate, virtual_latched_stop_candidate,
}
use cherry_pulse_kr.Contracts.Decimal.{divided, plus}
use cherry_pulse_kr.Contracts.StopEvaluation.{
  Quote, ObserveAt, StopReason, StopStatus, StopObservation, ProtectionStatus, ProtectionDecision,
}
use cherry_pulse_kr.Execution.LatchedOnce.{latched_for_good, IsAnswer}
use cherry_pulse_kr.Execution.QuoteLatched.{quote_latches}
use cherry_pulse_kr.Execution.CandidateSafety.{
  IsCovered, virtual_price_stop_candidate-IsCovered, virtual_cost_stop_candidate-IsCovered,
  virtual_latched_stop_candidate-IsCovered,
}
use cherry_pulse_kr.Execution.Fixtures.{
  ext, scope, samsung, configured, store, with_entry, text_of, noon,
}
use cherry_pulse_kr.Execution.Scenario.{bought, meanwhile}

abbrev price_of : ℕ → Price
price_of n = record { whole = n ∷ []; frac = [] }

-- the stop of version 1: a fixed price, or a tenth below the cost
abbrev stop_at : RuleKind → Price → VirtualStopBinding
stop_at kind threshold = record {
  symbol = samsung;
  version = 1;
  rule_kind = kind;
  threshold = threshold;
}

abbrev bare_store : Store
bare_store = record store { db = record { journal = []; outbox = []; stop_quote_cursors = [] } }

-- the buy was filled at 7, and the fill assigned to the stop
abbrev filled_store : VirtualStopBinding → Store
filled_store b =
    with_entry "assign"
      (Payload.stop_assignment
        (record { fill_event_id = 65; symbol = samsung; qty = 3; rule_version = 1 }))
      (with_entry (text_of 65)
        (Payload.fact (
          Fact.fill (record {
            event_id = 65;
            order_id = 61;
            evidence_version = 1;
            remaining = 0;
            qty = 3;
            price = some (price_of 7);
            trading_date = none;
          })))
        (with_entry "k3" (Payload.request bought.request)
          (with_entry "b1" (Payload.stop_binding b) (with_entry "c1" configured bare_store))))

abbrev price_store : Store
price_store = filled_store (stop_at RuleKind.price_at_or_below (price_of 6))

abbrev cost_store : Store
cost_store =
    filled_store (stop_at RuleKind.average_cost_drop (record { whole = 0 ∷ []; frac = 1 ∷ [] }))

abbrev quote : Quote
quote = record { symbol = samsung; price = price_of 6; received_at = 9 }

abbrev timing : ObserveAt
timing = record { now = 10; max_quote_age_seconds = 1 }

abbrev candidate_of : StopReason → ProtectionDecision
candidate_of r = record { status = ProtectionStatus.candidate; reason = r; unreserved_qty = 3 }

price_candidate_test :
    virtual_price_stop_candidate (journal_of price_store) true samsung (some quote) timing
    ≡ ok (candidate_of StopReason.triggered_unreserved_shares)
unfolding virtual_price_stop_candidate journal_of Scope-discrete acquired request_for order status
    ◌-ℤ◌ ◌+ℤ◌ coefficient
price_candidate_test = refl

cost_candidate_test :
    virtual_cost_stop_candidate (journal_of cost_store) true samsung (some quote) timing
    ≡ ok (candidate_of StopReason.triggered_unreserved_shares)
unfolding virtual_cost_stop_candidate journal_of Scope-discrete acquired request_for order status
    ◌-ℤ◌ ◌+ℤ◌ coefficient divided plus
cost_candidate_test = refl

-- the latch that the quote sets
abbrev quote_latch : StopLatch
quote_latch = latch_of samsung (price_of 6) quote (stop_at RuleKind.price_at_or_below (price_of 6))

abbrev price_latched_store : Store
price_latched_store = with_entry samsung (Payload.stop_latch quote_latch) price_store

abbrev observed : StopObservation
observed = record {
  status = StopStatus.triggered;
  reason = StopReason.price_at_or_below_threshold;
  threshold_price = some (record { digits = 6; exponent = pos 0 });
}

abbrev quoted_store : Store
quoted_store = record price_latched_store {
  db = record price_latched_store.db {
    stop_quote_cursors =
        record { scope = scope; checkpoint = checkpoint_of samsung (price_of 6) quote timing } ∷ [];
  };
}

quote_test :
    process_virtual_stop_quote samsung quote timing price_store
    ≡ ok (accepted_input observed (some quote_latch), quoted_store)
unfolding process_virtual_stop_quote transaction acquired ensure_ready read_journal Scope-discrete
    request_for order status ◌-ℤ◌ ◌+ℤ◌ coefficient append_entry EntryKind-discrete
quote_test = refl

latched_candidate_test :
    virtual_latched_stop_candidate (journal_of price_latched_store) true samsung
    ≡ ok (candidate_of StopReason.latched_unreserved_shares)
unfolding virtual_latched_stop_candidate journal_of Scope-discrete acquired request_for order status
    ◌-ℤ◌ ◌+ℤ◌
latched_candidate_test = refl

price_latched_store-IsReady : IsReady price_latched_store
unfolding acquired operation require_ready
price_latched_store-IsReady = record { operating = refl; ready = refl }

found_test : latch_for samsung (journal_of price_latched_store) ≡ some quote_latch
unfolding journal_of Scope-discrete acquired
found_test = refl

virtual_price_stop_candidate-IsCovered_example :
    (true ≡ true) × IsCovered (journal_of price_store) samsung 3
virtual_price_stop_candidate-IsCovered_example =
    virtual_price_stop_candidate-IsCovered (journal_of price_store) true samsung (some quote) timing
      price_candidate_test refl

virtual_cost_stop_candidate-IsCovered_example :
    (true ≡ true) × IsCovered (journal_of cost_store) samsung 3
virtual_cost_stop_candidate-IsCovered_example =
    virtual_cost_stop_candidate-IsCovered (journal_of cost_store) true samsung (some quote) timing
      cost_candidate_test refl

virtual_latched_stop_candidate-IsCovered_example :
    (true ≡ true) × IsCovered (journal_of price_latched_store) samsung 3
virtual_latched_stop_candidate-IsCovered_example =
    virtual_latched_stop_candidate-IsCovered (journal_of price_latched_store) true samsung
      latched_candidate_test refl

quote_latches_example : latch_for samsung (journal_of quoted_store) ≡ some quote_latch
quote_latches_example = quote_latches samsung quote timing price_store quote_test refl

latched_for_good_example :
    let u : Store = run_all ext meanwhile price_latched_store in
    (latch_for samsung (journal_of u) ≡ some quote_latch)
    × ((x : StopReason) × (process_virtual_stop_quote samsung quote timing u
          ≡ ok (rejected_input (journal_of u) samsung x, u)))
    × ((x : Option StopLatch) × IsAnswer RuleKind.price_at_or_below quote_latch x
        × (latch_virtual_price_stop samsung (some quote) timing u ≡ ok (x, u)))
    × ((x : Option StopLatch) × IsAnswer RuleKind.average_cost_drop quote_latch x
        × (latch_virtual_cost_stop samsung (some quote) timing u ≡ ok (x, u)))
latched_for_good_example =
    latched_for_good ext samsung price_latched_store price_latched_store-IsReady found_test
      meanwhile quote timing

-- the sale of the three shares, sent and acknowledged
abbrev drained : Raises (Option Request) × Dispatcher
drained =
    drain_virtual_stop ext samsung Session.regular noon (λ n. 90 + n)
      (record { store = price_latched_store; calls = [] })

abbrev stop_sale : Request
stop_sale =
    request_for ext (stop_command ext (journal_of price_latched_store) samsung quote_latch 3) 90 91

drain_test : drained ≡ (ok (some stop_sale), drained.1)
unfolding drain_virtual_stop transaction acquired read_journal Scope-discrete order
    stop_obligation_views ◌-ℤ◌ ◌+ℤ◌ ensure_ready append_entry EntryKind-discrete request_state
    accepted_request journal_of
drain_test = refl

drain_virtual_stop-IsCovered_example :
    (l : StopLatch) × (c : ProtectionDecision) × (latch_for samsung (journal_of price_latched_store)
      ≡ some l)
    × IsCovered (journal_of price_latched_store) samsung c.unreserved_qty
    × (stop_sale.command
        ≡ stop_command ext (journal_of price_latched_store) samsung l c.unreserved_qty)
drain_virtual_stop-IsCovered_example =
    drain_virtual_stop-IsCovered ext samsung Session.regular noon (λ n. 90 + n)
      (record { store = price_latched_store; calls = [] }) drain_test
