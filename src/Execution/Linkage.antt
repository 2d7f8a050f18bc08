-- ===== src/Execution/Linkage.antt =====
-- execution/linkage.py: the fill that a quarantined one stands for, by an exact acknowledgement.
use cherry_pulse_kr.Prelude.{
  Bool, true, false, not, ◌&&◌, ◌||◌, Option, none, some, List, [], ◌∷◌, map, if◌then◌else◌, ◌==◌,
  nat_eq, string_eq, length, any, keep, pick, ok, ◌>>=◌, ◌>>◌, raise_if, require,
}
use cherry_pulse_kr.Execution.Models.{
  Uuid, Key, Decision, LedgerError, Raises, side_eq, environment_eq, Request,
}
use cherry_pulse_kr.Execution.Facts.{Fill, QuarantinedFill, QuarantineReleased, Fact, same_fact}
use cherry_pulse_kr.Execution.Journal.{Journal}
use cherry_pulse_kr.Execution.Projection.{initial_request}
use cherry_pulse_kr.Execution.Portfolio.{releases}
use cherry_pulse_kr.Execution.Query.{distinct}
use cherry_pulse_kr.Execution.External.{External}

abbrev pub as_quarantined : Uuid → Fact → Option QuarantinedFill
as_quarantined id (Fact.quarantined_fill f) = if f.event_id == id then some f else none
as_quarantined id _ = none

abbrev pub first_of {ℓ} : {A : Type ℓ} → List A → Option A
first_of [] = none
first_of (x ∷ xs) = some x

-- Whether an acknowledgement with the broker's number names the request.
abbrev pub acks : Key → Uuid → Fact → Bool
acks number id (Fact.ack f) = f.broker_order_no == number && f.request_id == id
acks number id _ = false

abbrev pub is_accepted : Request → Bool
is_accepted r = elim r.decision [ Decision.accepted ↦ true | Decision.rejected_unsupported ↦ false ]

-- `targets`: the orders of the accepted requests that were acknowledged under the number
unfoldable pub target_ids : Journal → Key → List Uuid
target_ids j number = distinct (
    map (λ r. r.order_id)
      (keep (λ r. any (acks number r.request_id) j.facts && is_accepted r) j.requests))

module _ (ext : External) where
  -- the fill, once the order is known
  unfoldable pub fill_for : Uuid → QuarantinedFill → Uuid → Fill
  fill_for quarantine_id source order_id = record {
    event_id = ext.uuid5 quarantine_id "linked-fill";
    order_id = order_id;
    evidence_version = source.evidence_version;
    remaining = source.remaining;
    qty = source.qty;
    price = none;
    trading_date = none;
  }

  unfoldable pub linked_fill : Journal → Uuid → Raises Fill
  unfolding fill_for target_ids initial_request
  linked_fill j quarantine_id = do
    source ←
        require (first_of (pick (as_quarantined quarantine_id) j.facts))
          LedgerError.quarantine_not_found
    let targets = target_ids j source.broker_order_no
    raise_if (not (length targets == 1)) LedgerError.quarantine_link_not_unique
    order_id ← require (first_of targets) LedgerError.stop_iteration
    original ← require (initial_request order_id j.requests) LedgerError.stop_iteration
    raise_if (not (original.1.symbol == source.symbol)) LedgerError.quarantine_symbol_mismatch
    ok (fill_for quarantine_id source order_id)

  unfoldable pub check_release : Journal → QuarantineReleased → Raises (Unit {0})
  unfolding linked_fill
  check_release j release = do
    f ← linked_fill j release.quarantine_id
    raise_if (not (release.fill_id == f.event_id) || not (any (same_fact (Fact.fill f)) j.facts))
        LedgerError.quarantine_fill_not_committed
    raise_if (any (releases release.quarantine_id) j.facts) LedgerError.quarantine_already_released
