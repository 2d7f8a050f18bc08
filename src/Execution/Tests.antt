-- ===== src/Execution/Tests.antt =====
-- Tests and examples: repeated calls, what is created and what is sent.
use cherry_pulse_kr.Execution.StoppedBuys.{IsStopped, stopped_buy_refused}
use cherry_pulse_kr.Execution.InForce.{IsFreshAt, IsStaleAt}
use cherry_pulse_kr.Execution.Journal.{revision}
use cherry_pulse_kr.Execution.Discarded.{discard_never_sent}
use cherry_pulse_kr.Execution.Admission.{stale_refused}
use cherry_pulse_kr.Execution.Outcomes.{request_state, status}
use cherry_pulse_kr.Prelude.{
  ◌+◌, ◌<◌, ◌≡◌, refl, sym, ◌∙◌, ◌≢◌, true, false, none, [], ◌∷◌, arith, nat_eq, string_eq, ok, err,
  Has-head, ◌⊎◌, some,
}
use cherry_pulse_kr.Prelude.Int.{pos, ◌-ℤ◌, ◌≤ℤ◌}
use cherry_pulse_kr.Execution.Models.{LedgerError, side_eq, environment_eq, OrderCommand, Side}
use cherry_pulse_kr.Execution.Facts.{Fact, event_id}
use cherry_pulse_kr.Execution.Freshness.{applied_version}
use cherry_pulse_kr.Execution.Validation.{accepted_request}
use cherry_pulse_kr.Execution.Lease.{acquired, operation, require_ready}
use cherry_pulse_kr.Execution.Storage.{Payload, Scope-discrete, EntryKind-discrete}
use cherry_pulse_kr.Execution.Transaction.{transaction, read_journal, ensure_ready, append_entry}
use cherry_pulse_kr.Execution.Submit.{submit, request_for}
use cherry_pulse_kr.Execution.Ingest.{ingest, discard}
use cherry_pulse_kr.Execution.Portfolio.{Portfolio, portfolio, available}
use cherry_pulse_kr.Execution.History.{journal_of, Grown}
use cherry_pulse_kr.Execution.Calls.{run_all, run_all-Grown}
use cherry_pulse_kr.Execution.Replay.{submit_replay, submit_conflict}
use cherry_pulse_kr.Execution.Dispatcher.{Dispatcher, send}
use cherry_pulse_kr.Execution.FreshOrder.{IsFresh}
use cherry_pulse_kr.Execution.SellSafety.{no_oversell}
use cherry_pulse_kr.Execution.Events.{ingest_once}
use cherry_pulse_kr.Execution.SendOnce.{send_once}
use cherry_pulse_kr.Execution.Fixtures.{ext, samsung, store, market_sell, noon, with_entry, fields}
use cherry_pulse_kr.Execution.Scenario.{
  sell4, submitted, after_sell, sending, sending_store, meanwhile, dispatcher, buy3, bought,
  discarded_store, latched_store, latch,
}

submit_test : submit ext sell4 noon 21 22 store ≡ ok (submitted, after_sell)
unfolding submit request_for transaction acquired read_journal Scope-discrete ensure_ready
    applied_version portfolio available ◌-ℤ◌ append_entry EntryKind-discrete
submit_test = refl

ingest_test : ingest ext sending after_sell ≡ ok (true, sending_store)
unfolding ingest transaction acquired read_journal Scope-discrete accepted_request request_for
    append_entry EntryKind-discrete
ingest_test = refl

store-IsFresh : IsFresh (journal_of store) 21 22
unfolding journal_of Scope-discrete acquired
store-IsFresh = record { no_order = refl; no_touch = refl; no_concern = refl }

run_all-Grown_example : Grown store (run_all ext meanwhile store)
run_all-Grown_example = run_all-Grown ext meanwhile store

submit_replay_example :
    submit ext sell4 noon 31 32 (run_all ext meanwhile after_sell)
    ≡ ok (record { request = submitted.request; created = false }, run_all ext meanwhile after_sell)
submit_replay_example = submit_replay ext sell4 noon 21 22 store submit_test meanwhile noon 31 32

other_quantity : OrderCommand.new (market_sell "k1" 5) ≢ sell4
other_quantity e = ground arith

submit_conflict_example :
    submit ext (OrderCommand.new (market_sell "k1" 5)) noon 31 32 (run_all ext meanwhile after_sell)
    ≡ err LedgerError.conflict_idempotency_mismatch
submit_conflict_example =
    submit_conflict ext sell4 noon 21 22 store submit_test meanwhile
      (OrderCommand.new (market_sell "k1" 5)) noon 31 32 refl other_quantity

four_positive : 0 < 4
four_positive = omega arith

no_oversell_example :
    (p : Portfolio) × (q : Portfolio) × (portfolio (journal_of store) samsung ≡ ok p)
    × (portfolio (journal_of after_sell) samsung ≡ ok q)
    × (q ≡ record p { reserved = p.reserved + 4 })
    × (pos q.reserved ≤ℤ q.managed)
    × (q.sell_uncertain ≡ false)
    × (q.reconciliation_required ≡ false)
no_oversell_example =
    no_oversell ext (market_sell "k1" 4) noon 21 22 store refl four_positive store-IsFresh
      submit_test refl

ingest_once_example :
    (ingest ext sending (run_all ext meanwhile sending_store)
      ≡ ok (false, run_all ext meanwhile sending_store))
    × ((g : Fact)
        → event_id g ≡ 23
        → g ≢ sending
        → ingest ext g (run_all ext meanwhile sending_store)
          ≡ err LedgerError.conflict_event_id_mismatch)
ingest_once_example = ingest_once ext sending after_sell ingest_test meanwhile

send_test : (send ext 22 none noon 41 42 dispatcher).1.calls ≡ submitted.request ∷ []
unfolding send acquired transaction read_journal Scope-discrete request_for request_state status
    ensure_ready applied_version append_entry EntryKind-discrete accepted_request
send_test = refl

called_test : (send ext 22 none noon 41 42 dispatcher).1.calls ≢ []
called_test e =
    let different : submitted.request ∷ [] ≢ [] = λ d. cc in different (sym send_test ∙ e)

send_once_example :
    let d = (send ext 22 none noon 41 42 dispatcher).1 in
    let e : Dispatcher = record d { store = run_all ext meanwhile d.store } in
    send ext 22 none noon 43 44 e ≡ (ok false, e)
send_once_example =
    send_once ext 22 none noon 41 42 dispatcher called_test meanwhile none noon 43 44

buy_test :
    submit ext (OrderCommand.new buy3) noon 61 62 store
    ≡ ok (bought, with_entry "k3" (Payload.request bought.request) store)
unfolding submit transaction acquired read_journal Scope-discrete ensure_ready applied_version
    portfolio append_entry EntryKind-discrete
buy_test = refl

-- a sale that expires at noon
abbrev late_sell : OrderCommand
late_sell = OrderCommand.new (record (market_sell "k9" 1) {
  command = record (fields "k9" Side.sell) { expires_at = some 43200 };
})

stale_refused_example :
    IsFreshAt (journal_of store) late_sell noon
    ⊎ ((e : LedgerError) × IsStaleAt (journal_of store) late_sell noon e
        × (submit ext late_sell noon 61 62 store ≡ err e))
unfolding operation acquired require_ready journal_of Scope-discrete
stale_refused_example =
    stale_refused ext late_sell noon 61 62 store (record { operating = refl; ready = refl }) refl

late_test : submit ext late_sell noon 61 62 store ≡ err LedgerError.command_expired
unfolding submit transaction acquired read_journal Scope-discrete ensure_ready
late_test = refl

stopped_buy_refused_example :
    (e : LedgerError) × (submit ext (OrderCommand.new buy3) noon 61 62 latched_store ≡ err e)
unfolding journal_of Scope-discrete acquired
stopped_buy_refused_example =
    stopped_buy_refused ext buy3 noon 61 62 latched_store refl
      (IsStopped.latched latch (Has-head latch []) refl) refl

discard_test : discard ext 22 "stale" 3 after_sell ≡ ok (true, discarded_store)
unfolding discard transaction acquired read_journal Scope-discrete ensure_ready revision
    accepted_request request_for status append_entry EntryKind-discrete
discard_test = refl

discard_never_sent_example :
    let d : Dispatcher = record { store = run_all ext meanwhile discarded_store; calls = [] } in
    send ext 22 none noon 43 44 d ≡ (ok false, d)
discard_never_sent_example =
    discard_never_sent ext 22 "stale" 3 after_sell discard_test meanwhile none noon 43 44 []
