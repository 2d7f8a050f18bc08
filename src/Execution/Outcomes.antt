-- ===== src/Execution/Outcomes.antt =====
-- execution/outcomes.py: the transport and the effect of a request, projected from all facts.
use cherry_pulse_kr.Prelude.{
  Bool, true, false, not, ◌&&◌, ◌||◌, Option, none, some, List, if◌then◌else◌, ◌==◌, nat_eq,
  string_eq, any, keep, get_last?, pick,
}
use cherry_pulse_kr.Execution.Models.{Uuid, side_eq, environment_eq, OrderCommand, Request}
use cherry_pulse_kr.Execution.Facts.{Transport, TransportState, Fact, as_transport, request_of}
use cherry_pulse_kr.Execution.Journal.{Journal}

pub data TransportStatus : Type 0 where
  intent_persisted sending sent unknown reconciling : TransportStatus
  acked rejected_by_broker send_failed : TransportStatus

pub data Effect : Type 0 where
  pending unknown confirmed rejected : Effect

pub record RequestStatus : Type 0 where
  pub transport : TransportStatus
  pub effect : Option Effect
  pub conflict : Bool
  pub positive_evidence : Bool
  pub failed : Bool
  pub rejected : Bool

abbrev pub in_flight : TransportStatus → Bool
in_flight TransportStatus.sending = true
in_flight TransportStatus.sent = true
in_flight TransportStatus.unknown = true
in_flight TransportStatus.reconciling = true
in_flight _ = false

abbrev pub is_intent : TransportStatus → Bool
is_intent TransportStatus.intent_persisted = true
is_intent _ = false

abbrev pub is_acked : TransportStatus → Bool
is_acked TransportStatus.acked = true
is_acked _ = false

abbrev pub is_open_effect : Option Effect → Bool
is_open_effect (some Effect.pending) = true
is_open_effect (some Effect.unknown) = true
is_open_effect _ = false

abbrev pub is_settled_effect : Option Effect → Bool
is_settled_effect (some Effect.confirmed) = true
is_settled_effect (some Effect.rejected) = true
is_settled_effect _ = false

-- `RequestStatus.unresolved`
unfoldable pub unresolved : RequestStatus → Bool
unresolved s =
    s.conflict
    || is_intent s.transport && s.positive_evidence
    || in_flight s.transport
    || is_acked s.transport && is_open_effect s.effect

-- `RequestStatus.effect_settled`
unfoldable pub status_settled : RequestStatus → Bool
status_settled s = not s.conflict && is_settled_effect s.effect

-- The facts of the kinds listed in `status` that name the request.
abbrev pub concerns : Uuid → Fact → Bool
concerns id f = elim (request_of f) [ none ↦ false | some r ↦ r == id ]

abbrev pub is_acceptance : Fact → Bool
is_acceptance (Fact.ack f) = true
is_acceptance (Fact.amended f) = true
is_acceptance (Fact.cancelled f) = true
is_acceptance (Fact.effect_rejected f) = true
is_acceptance _ = false

abbrev pub is_confirmation : Fact → Bool
is_confirmation (Fact.amended f) = true
is_confirmation (Fact.cancelled f) = true
is_confirmation _ = false

abbrev pub is_effect_rejected : Fact → Bool
is_effect_rejected (Fact.effect_rejected f) = true
is_effect_rejected _ = false

abbrev pub is_send_failed : Fact → Bool
is_send_failed (Fact.send_failed f) = true
is_send_failed _ = false

abbrev pub is_rejected : Fact → Bool
is_rejected (Fact.rejected f) = true
is_rejected _ = false

abbrev pub is_change : OrderCommand → Bool
is_change (OrderCommand.new c) = false
is_change (OrderCommand.amend c) = true
is_change (OrderCommand.cancel c) = true

abbrev pub is_fill_of : Uuid → Fact → Bool
is_fill_of order_id (Fact.fill f) = f.order_id == order_id
is_fill_of order_id _ = false

abbrev pub observed_status : TransportState → TransportStatus
observed_status TransportState.sending = TransportStatus.sending
observed_status TransportState.sent = TransportStatus.sent
observed_status TransportState.unknown = TransportStatus.unknown
observed_status TransportState.reconciling = TransportStatus.reconciling

abbrev pub last_observed : Option Transport → TransportStatus
last_observed none = TransportStatus.intent_persisted
last_observed (some f) = observed_status f.state

abbrev pub uncertain_or_pending : TransportStatus → Effect
uncertain_or_pending TransportStatus.unknown = Effect.unknown
uncertain_or_pending TransportStatus.reconciling = Effect.unknown
uncertain_or_pending _ = Effect.pending

-- The last part of `status`, from the tests over the facts.
unfoldable pub summary :
    (changed acceptance confirmation effect_rejection failure rejection execution : Bool)
    → TransportStatus
    → RequestStatus
summary changed acceptance confirmation effect_rejection failure rejection execution observed =
    let transport : TransportStatus =
      if acceptance
      then TransportStatus.acked
      else if rejection
      then TransportStatus.rejected_by_broker
      else if failure
      then TransportStatus.send_failed
      else observed in
    record {
      transport = transport;
      effect =
          if changed
          then some (
              if confirmation
              then Effect.confirmed
              else if failure || rejection || effect_rejection
              then Effect.rejected
              else uncertain_or_pending transport)
          else none;
      conflict =
          (failure || rejection) && (acceptance || execution)
          || failure && rejection
          || confirmation && effect_rejection;
      positive_evidence = acceptance || execution;
      failed = failure;
      rejected = rejection;
    }

unfoldable pub status : Journal → Request → RequestStatus
unfolding summary
status j r =
    let facts : List Fact = keep (concerns r.request_id) j.facts in
    let changed : Bool = is_change r.command in
    summary changed (any is_acceptance facts) (any is_confirmation facts)
      (any is_effect_rejected facts) (any is_send_failed facts) (any is_rejected facts)
      (not changed && any (is_fill_of r.order_id) j.facts)
      (last_observed (get_last? (pick as_transport facts)))

unfoldable pub request_state : Journal → Request → TransportStatus
request_state j r = (status j r).transport

unfoldable pub effect_confirmed : Journal → Request → Bool
effect_confirmed j r = elim (status j r).effect [
  | none ↦ false
  | some e ↦ elim e [ Effect.confirmed ↦ true | _ ↦ false ]
]

unfoldable pub effect_settled : Journal → Request → Bool
unfolding status_settled
effect_settled j r = status_settled (status j r)
