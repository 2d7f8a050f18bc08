-- ===== src/Execution/Recovery.antt =====
-- The transaction of `VirtualDispatcher.recover` in execution/virtual.py.
use cherry_pulse_kr.Prelude.{ℕ, ◌+◌, Bool, ◌&&◌, List, [], ◌∷◌, if◌then◌else◌, nat_eq, string_eq}
use cherry_pulse_kr.Execution.Models.{Uuid, side_eq, environment_eq, Request}
use cherry_pulse_kr.Execution.Facts.{TransportState}
use cherry_pulse_kr.Execution.Journal.{Journal}
use cherry_pulse_kr.Execution.Outcomes.{TransportStatus, status, unresolved, request_state}
use cherry_pulse_kr.Execution.External.{External}
use cherry_pulse_kr.Execution.Linkage.{is_accepted}
use cherry_pulse_kr.Execution.Transaction.{
  Method, pure, transaction, read_journal, append_entry, ◌>>=◌, ◌>>◌,
}
use cherry_pulse_kr.Execution.Ingest.{fact_entry}
use cherry_pulse_kr.Execution.Claim.{transport_fact}

abbrev pub recovery_state : TransportStatus → TransportState
recovery_state TransportStatus.sending = TransportState.unknown
recovery_state _ = TransportState.reconciling

-- an accepted request whose outcome is open
unfoldable pub needs_recovery : Journal → Request → Bool
needs_recovery j r = is_accepted r && unresolved (status j r)

module _ (ext : External) where
  unfoldable pub append_recovery : Journal → Request → Uuid → Method (Unit {0})
  append_recovery j r fresh =
      append_entry
        (fact_entry ext (transport_fact fresh r.request_id (recovery_state (request_state j r))))

  -- The loop over the requests that were read; each round takes a fresh identity.
  unfoldable pub recover_all : Journal → List Request → (ℕ → Uuid) → Method (List Uuid)
  unfolding append_recovery needs_recovery
  recover_all j [] fresh = pure []
  recover_all j (r ∷ rs) fresh =
      let rest : Method (List Uuid) = recover_all j rs (λ n. fresh (n + 1)) in
      if needs_recovery j r
      then (do append_recovery j r (fresh 0); ids ← rest; pure (r.request_id ∷ ids))
      else rest

  unfoldable pub recovery : (ℕ → Uuid) → Method (List Uuid)
  unfolding recover_all
  recovery fresh = transaction (do j ← read_journal; recover_all j j.requests fresh)
