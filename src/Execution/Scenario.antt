-- ===== src/Execution/Scenario.antt =====
-- Requests, facts and stores that the tests and examples run through.
use cherry_pulse_kr.Execution.Linkage.{fill_for}
use cherry_pulse_kr.Execution.Quarantine.{release_of}
use cherry_pulse_kr.Execution.StopObligations.{StopObligationView, ObligationState}
use cherry_pulse_kr.Execution.Query.{QueryPages}
use cherry_pulse_kr.Execution.Configure.{plain_config}
use cherry_pulse_kr.Prelude.{true, false, none, List, [], ◌∷◌, nat_eq, string_eq, some}
use cherry_pulse_kr.Execution.Models.{
  side_eq, environment_eq, OrderCommand, New, OrderType, Request, StopLatch, RuleKind, Side,
}
use cherry_pulse_kr.Execution.Facts.{TransportState, Fact, Transport, QuarantinedFill}
use cherry_pulse_kr.Execution.Storage.{Payload}
use cherry_pulse_kr.Execution.Transaction.{Store}
use cherry_pulse_kr.Execution.Submit.{Submission, request_for, obligation_for}
use cherry_pulse_kr.Execution.Ingest.{discard_fact}
use cherry_pulse_kr.Execution.Claim.{transport_fact}
use cherry_pulse_kr.Execution.Calls.{Operation}
use cherry_pulse_kr.Execution.Dispatcher.{Dispatcher}
use cherry_pulse_kr.Execution.Fixtures.{
  ext, samsung, store, market_sell, noon, with_entry, text_of, fields,
}

abbrev pub sell4 : OrderCommand
sell4 = OrderCommand.new (market_sell "k1" 4)

abbrev pub submitted : Submission
submitted = record { request = request_for ext sell4 21 22; created = true }

abbrev pub after_sell : Store
after_sell = with_entry "k1" (Payload.request submitted.request) store

-- the claim of the request, as a fact
abbrev pub sending : Fact
sending = transport_fact 23 22 TransportState.sending

abbrev pub sending_store : Store
sending_store = with_entry (text_of 23) (Payload.fact sending) after_sell

-- calls that come between two submissions
abbrev pub meanwhile : List Operation
meanwhile =
    Operation.ingest_fact sending
    ∷ Operation.set_control (record { symbol = samsung; entry_stopped = true; liquidating = false })
        24
    ∷ Operation.submit_command (OrderCommand.new (market_sell "k2" 2)) noon 25 26
    ∷ []

abbrev pub dispatcher : Dispatcher
dispatcher = record { store = after_sell; calls = [] }

abbrev pub acked : Fact
acked = Fact.ack (record { event_id = 27; request_id = 22; broker_order_no = "B1" })

abbrev pub acked_store : Store
acked_store = with_entry (text_of 27) (Payload.fact acked) sending_store

abbrev pub late : Transport
late = record { event_id = 51; request_id = 22; state = TransportState.reconciling }

abbrev pub buy3 : New
buy3 = record {
  command = fields "k3" Side.buy;
  qty = 3;
  order_type = OrderType.limit;
  price = some (record { whole = 7 ∷ []; frac = [] });
  stop_latch_version = none;
}

abbrev pub bought : Submission
bought = record { request = request_for ext (OrderCommand.new buy3) 61 62; created = true }

abbrev pub recovered_store : Store
recovered_store =
    with_entry (text_of 80) (Payload.fact (transport_fact 80 22 TransportState.unknown))
      sending_store

abbrev pub configured_store : Store
configured_store = with_entry (text_of 71) (Payload.config (plain_config ext samsung 3)) store

abbrev pub two_pages : QueryPages
two_pages = record {
  expected_pages = 2;
  received_pages = 2 ∷ 1 ∷ [];
  finished = true;
  error = none;
}

-- a stop sell of four shares with its latch and its obligation
abbrev pub stop_sell : New
stop_sell = record {
  command = fields "virtual-stop:1" Side.sell;
  qty = 4;
  order_type = OrderType.market;
  price = none;
  stop_latch_version = some 1;
}

abbrev pub latch : StopLatch
latch = record {
  symbol = samsung;
  rule_version = 1;
  rule_kind = RuleKind.price_at_or_below;
  quote_price = record { whole = 5 ∷ []; frac = [] };
  quote_received_at = 9;
}

abbrev pub latched_store : Store
latched_store = with_entry "l1" (Payload.stop_latch latch) store

abbrev pub stop_request : Request
stop_request = request_for ext (OrderCommand.new stop_sell) 91 92

abbrev pub stop_store : Store
stop_store =
    with_entry (text_of 92) (Payload.stop_sell_obligation (obligation_for stop_request stop_sell 1))
      (with_entry "virtual-stop:1" (Payload.request stop_request) latched_store)

abbrev pub stop_view : StopObligationView
stop_view = record {
  request_id = 92;
  order_id = 91;
  initial_qty = 4;
  filled_qty = 0;
  unfilled_qty = 4;
  reserved_qty = 4;
  state = ObligationState.pending;
  failure_reason = none;
}

abbrev pub discarded_store : Store
discarded_store = with_entry (text_of 122) (Payload.fact (discard_fact ext 22 "stale")) after_sell

abbrev pub quarantined : QuarantinedFill
quarantined = record {
  event_id = 28;
  broker_order_no = "B1";
  symbol = samsung;
  qty = 1;
  remaining = 3;
  evidence_version = 1;
}

abbrev pub quarantine_store : Store
quarantine_store =
    with_entry (text_of 28) (Payload.fact (Fact.quarantined_fill quarantined)) acked_store

abbrev pub released_store : Store
released_store =
    with_entry (text_of 228) (Payload.fact (Fact.quarantine_released (release_of ext 28 "P1"))) (
      with_entry (text_of 128) (Payload.fact (Fact.fill (fill_for ext 28 quarantined 21)))
        quarantine_store)
