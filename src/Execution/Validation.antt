-- ===== src/Execution/Validation.antt =====
-- execution/validation.py: the business checks of commands and of facts.
use cherry_pulse_kr.Prelude.{
  ℕ, Bool, true, false, not, ◌&&◌, ◌||◌, Option, List, [], ◌∷◌, ltb, if◌then◌else◌, ◌==◌, nat_eq,
  string_eq, any, keep, find?, ok, err, ◌>>=◌, ◌>>◌, raise_if, require,
}
use cherry_pulse_kr.Prelude.Int.{pos, ◌+ℤ◌, ltb_ℤ}
use cherry_pulse_kr.Execution.Models.{
  Uuid, Key, Side, LedgerError, Raises, side_eq, environment_eq, New, OrderCommand, common, Request,
}
use cherry_pulse_kr.Execution.Query.{query_complete}
use cherry_pulse_kr.Execution.Facts.{Amended, Cancelled, Reconciled, SendFailed, UnsentProof, Fact}
use cherry_pulse_kr.Execution.Journal.{Journal, revision}
use cherry_pulse_kr.Execution.Outcomes.{
  TransportStatus, status, unresolved, effect_settled, effect_confirmed, is_intent, is_change,
}
use cherry_pulse_kr.Execution.Projection.{order, same_integer}
use cherry_pulse_kr.Execution.Portfolio.{available, portfolio}
use cherry_pulse_kr.Execution.External.{External}
use cherry_pulse_kr.Execution.Linkage.{check_release, is_accepted}

-- `_check_new`
unfoldable pub check_new : Journal → New → Raises (Unit {0})
check_new j c = do
  position ← portfolio j c.symbol
  elim c.side [
    | Side.buy ↦
        raise_if (position.entry_stopped || position.reconciliation_required)
          LedgerError.entry_blocked
    | Side.sell ↦ raise_if (ltb (available position) c.qty) LedgerError.sell_quantity_unavailable
  ]

-- The last `match` of `_check_change`.
unfoldable pub within_active : OrderCommand → ℕ → Raises (Unit {0})
within_active (OrderCommand.new c) active = ok tt
within_active (OrderCommand.amend c) active =
    raise_if (ltb_ℤ (c.qty_delta +ℤ pos active) (pos 0)) LedgerError.amend_quantity_exceeds_active
within_active (OrderCommand.cancel c) active =
    raise_if (ltb active c.cancel_qty) LedgerError.cancel_quantity_exceeds_active

-- An accepted change of the order whose effect is not settled.
unfoldable pub is_pending_change : Journal → Uuid → Request → Bool
is_pending_change j target r =
    is_change r.command && r.order_id == target && is_accepted r && not (effect_settled j r)

-- `_check_change`; the command is an `Amend` or a `Cancel`, with its target and link version
unfoldable pub check_change : Journal → OrderCommand → Uuid → ℕ → Raises (Unit {0})
unfolding within_active is_pending_change
check_change j command target link_version = do
  first ← require (find? (λ r. r.order_id == target) j.requests) LedgerError.order_not_found
  raise_if
      (not ((common first.command).symbol == (common command).symbol)
        || not ((common first.command).side == (common command).side))
      LedgerError.target_ownership_mismatch
  snapshot ← order j target
  raise_if (not (link_version == snapshot.link_version)) LedgerError.stale_link_version
  active ← require snapshot.active LedgerError.target_quantity_unconfirmed
  raise_if (active == 0 || snapshot.reconciliation_required) LedgerError.target_quantity_unconfirmed
  raise_if (any (is_pending_change j target) j.requests) LedgerError.change_already_pending
  within_active command active

unfoldable pub check_command : Journal → OrderCommand → Raises (Unit {0})
unfolding check_new check_change
check_command j (OrderCommand.new c) = check_new j c
check_command j (OrderCommand.amend c) =
    check_change j (OrderCommand.amend c) c.target c.link_version
check_command j (OrderCommand.cancel c) =
    check_change j (OrderCommand.cancel c) c.target c.link_version

unfoldable pub find_request : Uuid → List Request → Option Request
find_request id = find? (λ r. r.request_id == id)

-- `_request`
unfoldable pub accepted_request : Journal → Uuid → Raises Request
unfolding find_request
accepted_request j id = do
  r ← require (find_request id j.requests) LedgerError.request_not_found_or_unsupported
  raise_if (not (is_accepted r)) LedgerError.request_not_found_or_unsupported
  ok r

-- `_check_effect` of an amendment
unfoldable pub check_amended : Journal → Amended → Raises (Unit {0})
check_amended j fact = do
  r ← accepted_request j fact.request_id
  elim r.command [
    | OrderCommand.amend c ↦
        raise_if
          (not (r.order_id == fact.order_id) || not (same_integer c.qty_delta fact.qty_delta))
          LedgerError.amend_correlation_mismatch
    | _ ↦ err LedgerError.amend_correlation_mismatch
  ]
  raise_if (effect_confirmed j r) LedgerError.effect_already_confirmed

-- `_check_effect` of a cancellation
unfoldable pub check_cancelled : Journal → Cancelled → Raises (Unit {0})
check_cancelled j fact = do
  r ← accepted_request j fact.request_id
  elim r.command [
    | OrderCommand.cancel c ↦
        raise_if (not (r.order_id == fact.order_id) || ltb c.cancel_qty fact.qty)
          LedgerError.cancel_correlation_mismatch
    | _ ↦ err LedgerError.cancel_correlation_mismatch
  ]
  raise_if (effect_confirmed j r) LedgerError.effect_already_confirmed

-- The states of the transport in which a proof of an unsent request is valid.
abbrev pub proof_fits : UnsentProof → TransportStatus → Bool
proof_fits UnsentProof.not_invoked TransportStatus.intent_persisted = true
proof_fits UnsentProof.verified_unsent TransportStatus.sending = true
proof_fits UnsentProof.verified_unsent TransportStatus.unknown = true
proof_fits UnsentProof.verified_unsent TransportStatus.reconciling = true
proof_fits _ _ = false

-- `_check_unsent`
unfoldable pub check_unsent : Journal → SendFailed → Raises (Unit {0})
check_unsent j fact = do
  r ← accepted_request j fact.request_id
  raise_if (status j r).positive_evidence LedgerError.unsent_proof_invalid
  raise_if (not (proof_fits fact.proof (status j r).transport)) LedgerError.unsent_proof_invalid

abbrev pub is_discrepancy : Uuid → Key → Fact → Bool
is_discrepancy id symbol (Fact.discrepancy f) = f.event_id == id && f.symbol == symbol
is_discrepancy id symbol _ = false

abbrev pub resolves_any : Uuid → Fact → Bool
resolves_any id (Fact.reconciled f) = f.discrepancy_id == id
resolves_any id _ = false

-- the `any` over the related requests, which stops at the first hit
unfoldable pub any_unresolved : Journal → List Request → Raises Bool
any_unresolved j [] = ok false
any_unresolved j (r ∷ rs) =
    let rest : Raises Bool = any_unresolved j rs in
    if unresolved (status j r)
    then ok true
    else (do o ← order j r.order_id; if o.reconciliation_required then ok true else rest)

-- `_check_reconciliation`
unfoldable pub check_reconciliation : Journal → Reconciled → Raises (Unit {0})
unfolding any_unresolved
check_reconciliation j fact = do
  raise_if (not (any (is_discrepancy fact.discrepancy_id fact.symbol) j.facts))
      LedgerError.discrepancy_not_found
  raise_if (any (resolves_any fact.discrepancy_id) j.facts) LedgerError.discrepancy_already_resolved
  raise_if (not (revision j == fact.reviewed_revision)) LedgerError.stale_reconciliation_review
  raise_if
      (not (query_complete fact.query)
        || not (fact.query.revision_at_finish == fact.reviewed_revision))
      LedgerError.query_evidence_incomplete
  raise_if (not (fact.query.observed_managed == fact.observed_managed))
      LedgerError.query_quantity_mismatch
  open_items ← any_unresolved j (keep (λ r. (common r.command).symbol == fact.symbol) j.requests)
  raise_if open_items LedgerError.reconciliation_order_unresolved
  position ← portfolio j fact.symbol
  raise_if (not (same_integer position.managed (pos fact.observed_managed)))
      LedgerError.reconciliation_quantity_mismatch

-- `_check_rejection`; `is_effect` tells an `EffectRejected` from a `Rejected`
unfoldable pub check_rejection : Journal → Uuid → Bool → Raises (Unit {0})
check_rejection j request_id is_effect = do
  r ← accepted_request j request_id
  raise_if (is_intent (status j r).transport) LedgerError.rejection_before_invocation
  raise_if (is_effect && not (is_change r.command)) LedgerError.effect_rejection_requires_change

module _ (ext : External) where
  unfoldable pub check_fact : Journal → Fact → Raises (Unit {0})
  unfolding check_amended check_cancelled check_unsent check_rejection check_reconciliation
  check_fact j (Fact.fill f) = do _ ← order j f.order_id; ok tt
  check_fact j (Fact.ack f) = do _ ← accepted_request j f.request_id; ok tt
  check_fact j (Fact.transport f) = do _ ← accepted_request j f.request_id; ok tt
  check_fact j (Fact.amended f) = check_amended j f
  check_fact j (Fact.cancelled f) = check_cancelled j f
  check_fact j (Fact.send_failed f) = check_unsent j f
  check_fact j (Fact.rejected f) = check_rejection j f.request_id false
  check_fact j (Fact.effect_rejected f) = check_rejection j f.request_id true
  check_fact j (Fact.discrepancy f) = ok tt
  check_fact j (Fact.quarantined_fill f) = ok tt
  check_fact j (Fact.quarantine_released f) = check_release ext j f
  check_fact j (Fact.reconciled f) = check_reconciliation j f
