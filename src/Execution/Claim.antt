-- ===== src/Execution/Claim.antt =====
-- The transaction of `VirtualDispatcher.send` in execution/virtual.py: an intention is claimed by
-- a durable SENDING fact before anything is sent.
use cherry_pulse_kr.Prelude.{
  Bool, true, false, not, ◌&&◌, ◌||◌, Option, none, some, List, [], ◌∷◌, if◌then◌else◌, ◌==◌,
  nat_eq, string_eq, any, keep, ok, err,
}
use cherry_pulse_kr.Execution.Models.{
  Uuid, Datetime, Side, Raises, side_eq, environment_eq, OrderCommand, common, Request, is_some,
}
use cherry_pulse_kr.Execution.Facts.{TransportState, Fact, event_id}
use cherry_pulse_kr.Execution.Journal.{Journal}
use cherry_pulse_kr.Execution.Outcomes.{status, request_state, is_intent}
use cherry_pulse_kr.Execution.Portfolio.{portfolio}
use cherry_pulse_kr.Execution.External.{External}
use cherry_pulse_kr.Execution.Linkage.{is_accepted}
use cherry_pulse_kr.Execution.Freshness.{check_freshness}
use cherry_pulse_kr.Execution.Validation.{find_request}
use cherry_pulse_kr.Execution.Transaction.{
  Method, pure, lift, transaction, read_journal, append_entry, ensure_ready, ◌>>=◌, ◌>>◌,
}
use cherry_pulse_kr.Execution.Submit.{is_latched, stop_prefix}
use cherry_pulse_kr.Execution.Ingest.{fact_entry}
use cherry_pulse_kr.Execution.StopObligations.{
  StopObligationView, stop_obligation_views, is_pending_view, is_blocking_view,
}
use text.Mathlib.Text.{starts_with}

-- the simulated exchange session of a stop
pub data Session : Type 0 where
  regular closed : Session

abbrev pub is_regular : Option Session → Bool
is_regular (some Session.regular) = true
is_regular _ = false

-- An accepted request whose intention is recorded and nothing more.
unfoldable pub is_sendable : Journal → Request → Bool
is_sendable j r =
    is_accepted r && is_intent (request_state j r) && not (status j r).positive_evidence

abbrev pub is_tagged : Request → Bool
is_tagged r = starts_with (common r.command).key stop_prefix

-- A linked stop sell in the regular session.
abbrev pub stop_allowed : Request → Option Session → Bool
stop_allowed r session =
    is_regular session
    && elim r.command [ OrderCommand.new c ↦ is_some c.stop_latch_version | _ ↦ false ]

abbrev pub is_only_pending : List StopObligationView → Bool
is_only_pending (v ∷ []) = is_pending_view v
is_only_pending _ = false

-- The obligations of the symbol let the stop be sent.
unfoldable pub obligations_allow : Journal → Request → Raises Bool
obligations_allow j r = elim (stop_obligation_views j (common r.command).symbol) [
  | ok views ↦ ok (
      is_only_pending (keep (λ v. v.request_id == r.request_id) views)
      && not (any is_blocking_view views))
  | err e ↦ err e
]

-- The two tests on a command whose key has the stop prefix.
unfoldable pub stop_gate : Journal → Request → Option Session → Raises Bool
unfolding obligations_allow
stop_gate j r session =
    if not (is_tagged r)
    then ok true
    else if not (stop_allowed r session)
    then ok false
    else obligations_allow j r

-- The test on a buy just before it is claimed.
unfoldable pub buy_gate : Journal → Request → Raises Bool
buy_gate j r = elim r.command [
  | OrderCommand.new c ↦ elim c.side [
    | Side.buy ↦ elim (portfolio j c.symbol) [
      | ok p ↦
          ok (
            not
              (p.entry_stopped || p.reconciliation_required || is_latched c.symbol j.stop_latches))
      | err e ↦ err e
    ]
    | Side.sell ↦ ok true
  ]
  | _ ↦ ok true
]

abbrev pub transport_fact : Uuid → Uuid → TransportState → Fact
transport_fact event_id request_id state =
    Fact.transport (record { event_id = event_id; request_id = request_id; state = state })

module _ (ext : External) where
  -- the last steps: the gates have passed
  unfoldable pub take_claim : Request → Uuid → Method (Option Request)
  take_claim r fresh = do
    append_entry (fact_entry ext (transport_fact fresh r.request_id TransportState.sending))
    pure (some r)

  unfoldable pub claim_ready : Journal → Request → Datetime → Uuid → Method (Option Request)
  unfolding buy_gate take_claim check_freshness
  claim_ready j r now fresh = do
    ensure_ready
    lift (check_freshness j r.command now)
    allowed ← lift (buy_gate j r)
    if allowed then take_claim r fresh else pure none

  unfoldable pub claim_request :
      Journal → Request → Option Session → Datetime → Uuid → Method (Option Request)
  unfolding stop_gate claim_ready is_sendable
  claim_request j r session now fresh =
      if is_sendable j r
      then (do
        allowed ← lift (stop_gate j r session)
        if allowed then claim_ready j r now fresh else pure none)
      else pure none

  -- the request that the identity names, if there is one; `none` is `return False`
  unfoldable pub claim_found :
      Journal → Option Request → Option Session → Datetime → Uuid → Method (Option Request)
  unfolding claim_request
  claim_found j none session now fresh = pure none
  claim_found j (some r) session now fresh = claim_request j r session now fresh

  unfoldable pub claim : Uuid → Option Session → Datetime → Uuid → Method (Option Request)
  unfolding claim_found find_request
  claim request_id session now fresh =
      transaction
        (do j ← read_journal; claim_found j (find_request request_id j.requests) session now fresh)
