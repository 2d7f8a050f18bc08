-- ===== src/Execution/Facts.antt =====
-- execution/facts.py: the normalized evidence, one record for each kind.
use cherry_pulse_kr.Prelude.{
  ℕ, Bool, true, Option, none, some, ℕ_discrete, String-discrete, nat_eq, string_eq, decided,
}
use cherry_pulse_kr.Prelude.Int.{ℤ}
use cherry_pulse_kr.Execution.Price.{Price, is_positive}
use cherry_pulse_kr.Execution.Models.{Uuid, Key, side_eq, environment_eq}
use cherry_pulse_kr.Execution.Query.{QueryEvidence}

pub record Ack : Type 0 where
  pub event_id : Uuid
  pub request_id : Uuid
  pub broker_order_no : Key

pub record Fill : Type 0 where
  pub event_id : Uuid
  pub order_id : Uuid
  pub evidence_version : ℕ
  pub remaining : ℕ
  pub qty : ℕ
  pub price : Option Price
  pub trading_date : Option ℕ

-- `positive_price` of `Fill`
unfoldable pub fill_price_valid : Fill → Bool
fill_price_valid f = elim f.price [ none ↦ true | some p ↦ is_positive p ]

pub record Amended : Type 0 where
  pub event_id : Uuid
  pub order_id : Uuid
  pub evidence_version : ℕ
  pub remaining : ℕ
  pub request_id : Uuid
  pub qty_delta : ℤ

pub record Cancelled : Type 0 where
  pub event_id : Uuid
  pub order_id : Uuid
  pub evidence_version : ℕ
  pub remaining : ℕ
  pub request_id : Uuid
  pub qty : ℕ

pub data TransportState : Type 0 where
  sending sent unknown reconciling : TransportState

pub record Transport : Type 0 where
  pub event_id : Uuid
  pub request_id : Uuid
  pub state : TransportState

pub record Discrepancy : Type 0 where
  pub event_id : Uuid
  pub symbol : Key
  pub reason : Key

pub record Reconciled : Type 0 where
  pub event_id : Uuid
  pub discrepancy_id : Uuid
  pub symbol : Key
  pub observed_managed : ℕ
  pub reviewed_revision : ℕ
  pub proof_reference : Key
  pub query : QueryEvidence

pub record QuarantinedFill : Type 0 where
  pub event_id : Uuid
  pub broker_order_no : Key
  pub symbol : Key
  pub qty : ℕ
  pub remaining : ℕ
  pub evidence_version : ℕ

pub record QuarantineReleased : Type 0 where
  pub event_id : Uuid
  pub quarantine_id : Uuid
  pub fill_id : Uuid
  pub proof_reference : Key

pub data UnsentProof : Type 0 where
  not_invoked verified_unsent : UnsentProof

pub record SendFailed : Type 0 where
  pub event_id : Uuid
  pub request_id : Uuid
  pub proof : UnsentProof
  pub reason : Key

pub record Rejected : Type 0 where
  pub event_id : Uuid
  pub request_id : Uuid
  pub reason : Key

pub record EffectRejected : Type 0 where
  pub event_id : Uuid
  pub request_id : Uuid
  pub reason : Key

pub data Fact : Type 0 where
  ack : Ack → Fact
  fill : Fill → Fact
  amended : Amended → Fact
  cancelled : Cancelled → Fact
  transport : Transport → Fact
  discrepancy : Discrepancy → Fact
  reconciled : Reconciled → Fact
  quarantined_fill : QuarantinedFill → Fact
  quarantine_released : QuarantineReleased → Fact
  send_failed : SendFailed → Fact
  rejected : Rejected → Fact
  effect_rejected : EffectRejected → Fact

abbrev pub event_id : Fact → Uuid
event_id (Fact.ack f) = f.event_id
event_id (Fact.fill f) = f.event_id
event_id (Fact.amended f) = f.event_id
event_id (Fact.cancelled f) = f.event_id
event_id (Fact.transport f) = f.event_id
event_id (Fact.discrepancy f) = f.event_id
event_id (Fact.reconciled f) = f.event_id
event_id (Fact.quarantined_fill f) = f.event_id
event_id (Fact.quarantine_released f) = f.event_id
event_id (Fact.send_failed f) = f.event_id
event_id (Fact.rejected f) = f.event_id
event_id (Fact.effect_rejected f) = f.event_id

-- The `isinstance` tests, as selections.
abbrev pub as_fill : Fact → Option Fill
as_fill (Fact.fill f) = some f
as_fill _ = none

abbrev pub as_amended : Fact → Option Amended
as_amended (Fact.amended f) = some f
as_amended _ = none

abbrev pub as_cancelled : Fact → Option Cancelled
as_cancelled (Fact.cancelled f) = some f
as_cancelled _ = none

abbrev pub as_transport : Fact → Option Transport
as_transport (Fact.transport f) = some f
as_transport _ = none

-- The request that a fact of the kinds in `status` names.
abbrev pub request_of : Fact → Option Uuid
request_of (Fact.ack f) = some f.request_id
request_of (Fact.amended f) = some f.request_id
request_of (Fact.cancelled f) = some f.request_id
request_of (Fact.effect_rejected f) = some f.request_id
request_of (Fact.rejected f) = some f.request_id
request_of (Fact.send_failed f) = some f.request_id
request_of (Fact.transport f) = some f.request_id
request_of _ = none

-- `==` of two facts
unfoldable pub Fact-discrete : Discrete Fact
unfolding String-discrete ℕ_discrete
Fact-discrete = hlevel (ℕ_discrete, String-discrete)

abbrev pub same_fact : Fact → Fact → Bool
same_fact a b = decided (Fact-discrete a b)
