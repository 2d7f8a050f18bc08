-- ===== src/Execution/Samples.antt =====
-- Tests and examples: projections and single operations.
use cherry_pulse_kr.Execution.RecoveredStatus.{recovery-reviews}
use cherry_pulse_kr.Execution.OpenRequests.{IsOpen, IsReviewed}
use cherry_pulse_kr.Execution.Released.{reprocess_commits, new_fill}
use cherry_pulse_kr.Execution.Linkage.{linked_fill, check_release}
use cherry_pulse_kr.Execution.Quarantine.{reprocess, release_of}
use cherry_pulse_kr.Execution.Journal.{revision}
use cherry_pulse_kr.Execution.Projection.{order}
use cherry_pulse_kr.Execution.Storage.Extend.{extend}
use cherry_pulse_kr.Execution.StopObligations.{stop_obligation_views, unpaired_stop_requests}
use cherry_pulse_kr.Execution.StopViews.{stop_obligation_views_complete, adds_up}
use cherry_pulse_kr.Execution.Query.{pages_complete}
use cherry_pulse_kr.Execution.Pages.{pages_complete-covers, is_distinct}
use cherry_pulse_kr.Execution.Configure.{apply_config}
use cherry_pulse_kr.Execution.Versions.{apply_config-advances}
use cherry_pulse_kr.Execution.Recovery.{recovery}
use cherry_pulse_kr.Execution.Settled.{late_transport, evidence_kept, Keeps, is_terminal}
use cherry_pulse_kr.Execution.Price.{canonical_price}
use cherry_pulse_kr.Execution.Outcomes.{request_state, status, unresolved}
use cherry_pulse_kr.Prelude.{
  ◌+◌, ◌<◌, ◌≡◌, refl, ◌≢◌, true, false, [], ◌∷◌, nat_eq, string_eq, ok, map, keep, all, any, ◌≤◌,
  some, ◌==◌, ℕ, ◌++◌, find?, ◌⊎◌, Has-head,
}
use cherry_pulse_kr.Prelude.Int.{◌-ℤ◌, ◌+ℤ◌}
use cherry_pulse_kr.Execution.Models.{side_eq, environment_eq, OrderCommand, Key}
use cherry_pulse_kr.Execution.Facts.{TransportState, Fact, Fill, Fact-discrete}
use cherry_pulse_kr.Execution.Freshness.{applied_version}
use cherry_pulse_kr.Execution.Lease.{acquired}
use cherry_pulse_kr.Execution.Storage.{Payload, Scope-discrete, EntryKind-discrete}
use cherry_pulse_kr.Execution.Transaction.{transaction, read_journal, ensure_ready, append_entry}
use cherry_pulse_kr.Execution.Submit.{submit, request_for}
use cherry_pulse_kr.Execution.Ingest.{is_event}
use cherry_pulse_kr.Execution.Portfolio.{portfolio, available}
use cherry_pulse_kr.Execution.Claim.{transport_fact}
use cherry_pulse_kr.Execution.History.{journal_of}
use cherry_pulse_kr.Execution.Calls.{run_all}
use cherry_pulse_kr.Execution.Fixtures.{ext, samsung, store, noon}
use cherry_pulse_kr.Execution.Scenario.{
  submitted, sending_store, meanwhile, acked_store, late, recovered_store, configured_store,
  two_pages, stop_sell, latched_store, stop_request, stop_store, stop_view, quarantine_store,
  released_store,
}

canonical_price_test :
    canonical_price (record { whole = 0 ∷ 0 ∷ 7 ∷ []; frac = 5 ∷ 0 ∷ [] })
    ≡ record { whole = 7 ∷ []; frac = 5 ∷ [] }
unfolding canonical_price
canonical_price_test = refl

acked_test : is_terminal (request_state (journal_of acked_store) submitted.request) ≡ true
unfolding request_state status journal_of Scope-discrete acquired request_for
acked_test = refl

recovery_test : recovery ext (λ n. n + 80) sending_store ≡ ok (22 ∷ [], recovered_store)
unfolding recovery transaction acquired read_journal Scope-discrete request_for unresolved status
    append_entry EntryKind-discrete request_state
recovery_test = refl

config_test : apply_config ext samsung 1 3 71 store ≡ ok (tt, configured_store)
unfolding apply_config transaction acquired ensure_ready read_journal Scope-discrete append_entry
    EntryKind-discrete
config_test = refl

pages_test : pages_complete two_pages ≡ true
unfolding pages_complete
pages_test = refl

stop_test :
    submit ext (OrderCommand.new stop_sell) noon 91 92 latched_store
    ≡ ok (record { request = stop_request; created = true }, stop_store)
unfolding submit transaction acquired read_journal Scope-discrete ensure_ready applied_version
    portfolio available ◌-ℤ◌ append_entry EntryKind-discrete
stop_test = refl

views_test : stop_obligation_views (journal_of stop_store) samsung ≡ ok (stop_view ∷ [])
unfolding stop_obligation_views portfolio journal_of Scope-discrete acquired request_for order
    status ◌-ℤ◌ ◌+ℤ◌ request_state
views_test = refl

late_transport_example :
    status
      (extend
        (journal_of acked_store)
        (Payload.fact (transport_fact 51 22 TransportState.reconciling)))
      submitted.request
    ≡ status (journal_of acked_store) submitted.request
late_transport_example = late_transport (journal_of acked_store) submitted.request late acked_test

evidence_kept_example :
    Keeps
      (status (journal_of acked_store) submitted.request)
      (status (journal_of (run_all ext meanwhile acked_store)) submitted.request)
evidence_kept_example = evidence_kept ext meanwhile acked_store submitted.request

recovery-reviews_example :
    (IsOpen (journal_of sending_store) submitted.request
      × (any (λ (i : ℕ). i == 22) (22 ∷ []) ≡ true)
      × IsReviewed
          (request_state (journal_of sending_store) submitted.request)
          (status (journal_of sending_store) submitted.request)
          (status (journal_of recovered_store) submitted.request))
    ⊎ (¬ IsOpen (journal_of sending_store) submitted.request
        × (any (λ (i : ℕ). i == 22) (22 ∷ []) ≡ false)
        × (status (journal_of recovered_store) submitted.request
            ≡ status (journal_of sending_store) submitted.request))
unfolding journal_of Scope-discrete acquired request_for
recovery-reviews_example =
    recovery-reviews ext (λ n. n + 80) sending_store submitted.request recovery_test (refl, tt)
      (Has-head submitted.request [])

apply_config-advances_example :
    (applied_version (journal_of store) samsung ≡ 1)
    × (1 < 3)
    × (applied_version (journal_of configured_store) samsung ≡ 3)
    × ((other : Key)
        → samsung ≢ other
        → applied_version (journal_of configured_store) other
          ≡ applied_version (journal_of store) other)
apply_config-advances_example = apply_config-advances ext samsung 1 3 71 store config_test

pages_complete-covers_example :
    (is_distinct (2 ∷ 1 ∷ []) ≡ true)
    × ((n : ℕ) → 0 < n → n ≤ 2 → any (λ p. p == n) (2 ∷ 1 ∷ []) ≡ true)
pages_complete-covers_example = pages_complete-covers two_pages refl pages_test

stop_obligation_views_complete_example :
    (map (λ v. v.request_id) (stop_view ∷ [])
      ≡ map
          (λ o. o.request_id)
          (keep (λ o. o.symbol == samsung) (journal_of stop_store).stop_sell_obligations)
        ++ map (λ v. v.request_id) (unpaired_stop_requests (journal_of stop_store) samsung))
    × (all adds_up (stop_view ∷ []) ≡ true)
stop_obligation_views_complete_example =
    stop_obligation_views_complete (journal_of stop_store) samsung views_test

reprocess_test : reprocess ext 28 "P1" 6 quarantine_store ≡ ok (true, released_store)
unfolding reprocess transaction acquired read_journal Scope-discrete revision request_for order
    append_entry EntryKind-discrete check_release Fact-discrete
reprocess_test = refl

reprocess_commits_example :
    let j = journal_of quarantine_store in
    let r = Fact.quarantine_released (release_of ext 28 "P1") in
    ((true ≡ false) × (released_store ≡ quarantine_store) × (find? (is_event r) j.facts ≡ some r))
    ⊎ ((true ≡ true)
        × (f : Fill) × (revision j ≡ 6)
        × (linked_fill ext j 28 ≡ ok f)
        × ((journal_of released_store).facts ≡ j.facts ++ new_fill j f ++ r ∷ []))
reprocess_commits_example = reprocess_commits ext 28 "P1" 6 quarantine_store reprocess_test
