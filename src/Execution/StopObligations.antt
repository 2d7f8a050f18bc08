-- ===== src/Execution/StopObligations.antt =====
-- execution/stop_obligations.py: the progress of the protective sells of a symbol.
use cherry_pulse_kr.Prelude.{
  ℕ, ◌-◌, Bool, true, false, not, ◌&&◌, ◌||◌, Option, none, some, List, [], ◌∷◌, ◌++◌, reverse, leb,
  if◌then◌else◌, ◌==◌, nat_eq, string_eq, length, any, keep, find?, get_last?, pick, ok, ◌>>=◌,
}
use cherry_pulse_kr.Execution.Models.{
  Uuid, Key, Side, Raises, side_eq, environment_eq, New, OrderCommand, Request, is_some,
  StopSellObligation,
}
use cherry_pulse_kr.Execution.Facts.{Fact}
use cherry_pulse_kr.Execution.Journal.{Journal}
use cherry_pulse_kr.Execution.Outcomes.{TransportStatus, RequestStatus, status}
use cherry_pulse_kr.Execution.Projection.{Order, order}
use cherry_pulse_kr.Execution.Portfolio.{Portfolio, portfolio}

pub data ObligationState : Type 0 where
  fulfilled blocked_evidence review_required pending : ObligationState

pub record StopObligationView : Type 0 where
  pub request_id : Uuid
  pub order_id : Uuid
  pub initial_qty : ℕ
  pub filled_qty : ℕ
  pub unfilled_qty : ℕ
  pub reserved_qty : ℕ
  pub state : ObligationState
  pub failure_reason : Option Key

pub data NextAction : Type 0 where
  do_nothing query_broker review_and_alert : NextAction

-- `next_action`
unfoldable pub next_action : StopObligationView → NextAction
next_action v = elim v.state [
  | ObligationState.fulfilled ↦ NextAction.do_nothing
  | ObligationState.review_required ↦ NextAction.review_and_alert
  | _ ↦ NextAction.query_broker
]

abbrev pub is_pending_view : StopObligationView → Bool
is_pending_view v = elim v.state [ ObligationState.pending ↦ true | _ ↦ false ]

abbrev pub is_blocking_view : StopObligationView → Bool
is_blocking_view v = elim v.state [
  | ObligationState.review_required ↦ true
  | ObligationState.blocked_evidence ↦ true
  | _ ↦ false
]

abbrev pub blocked_view : (request_id order_id : Uuid) → ℕ → StopObligationView
blocked_view request_id order_id qty = record {
  request_id = request_id;
  order_id = order_id;
  initial_qty = qty;
  filled_qty = 0;
  unfilled_qty = qty;
  reserved_qty = 0;
  state = ObligationState.blocked_evidence;
  failure_reason = none;
}

-- `obligation_counts`
abbrev pub obligation_count : Uuid → List StopSellObligation → ℕ
obligation_count id os = length (keep (λ o. o.request_id == id) os)

-- A stop sell of the symbol with no obligation.
abbrev pub as_unpaired : Journal → Key → Request → Option StopObligationView
as_unpaired j symbol r = elim r.command [
  | OrderCommand.new c ↦
      if c.symbol == symbol
        && is_some c.stop_latch_version
        && obligation_count r.request_id j.stop_sell_obligations == 0
      then some (blocked_view r.request_id r.order_id c.qty)
      else none
  | _ ↦ none
]

-- `_unpaired_stop_requests`
unfoldable pub unpaired_stop_requests : Journal → Key → List StopObligationView
unpaired_stop_requests j symbol = pick (as_unpaired j symbol) j.requests

abbrev pub is_version : ℕ → Option ℕ → Bool
is_version n none = false
is_version n (some m) = m == n

-- `consistent`
unfoldable pub is_consistent : Journal → Key → StopSellObligation → Request → New → Order → Bool
is_consistent j symbol o r c snapshot =
    r.order_id == o.order_id
    && obligation_count o.request_id j.stop_sell_obligations == 1
    && c.symbol == symbol
    && c.side == Side.sell
    && c.qty == o.qty
    && is_version o.rule_version c.stop_latch_version
    && any (λ l. l.symbol == symbol && l.rule_version == o.rule_version) j.stop_latches
    && snapshot.original == o.qty
    && leb snapshot.filled o.qty

abbrev pub is_doubtful : TransportStatus → Bool
is_doubtful TransportStatus.unknown = true
is_doubtful TransportStatus.reconciling = true
is_doubtful _ = false

-- the `state` of a view
unfoldable pub obligation_state :
    Bool → StopSellObligation → Order → RequestStatus → Portfolio → ObligationState
obligation_state consistent o snapshot outcome position =
    if not consistent
      || snapshot.reconciliation_required
      || outcome.conflict
      || position.reconciliation_required
      || position.sell_uncertain
    then ObligationState.blocked_evidence
    else if snapshot.filled == o.qty
    then ObligationState.fulfilled
    else if snapshot.rejected || snapshot.submission_failed || snapshot.terminal_cancel
    then ObligationState.review_required
    else if is_doubtful outcome.transport
    then ObligationState.blocked_evidence
    else ObligationState.pending

abbrev pub failure_of : Uuid → Fact → Option Key
failure_of id (Fact.rejected f) = if f.request_id == id then some f.reason else none
failure_of id (Fact.send_failed f) = if f.request_id == id then some f.reason else none
failure_of id _ = none

abbrev pub reason_of : ObligationState → List Key → Option Key
reason_of ObligationState.review_required reasons = get_last? reasons
reason_of _ reasons = none

-- the view of an obligation whose request is a `New` command
unfoldable pub view_of :
    Journal → Key → Portfolio → StopSellObligation → Request → New → Order → StopObligationView
unfolding is_consistent obligation_state
view_of j symbol position o r c snapshot =
    let state : ObligationState =
      obligation_state (is_consistent j symbol o r c snapshot) o snapshot (status j r) position in
    record {
      request_id = o.request_id;
      order_id = o.order_id;
      initial_qty = o.qty;
      filled_qty = snapshot.filled;
      unfilled_qty = o.qty - snapshot.filled;
      reserved_qty = snapshot.reserved;
      state = state;
      failure_reason = reason_of state (pick (failure_of o.request_id) j.facts);
    }

-- the view of an obligation whose request was found
unfoldable pub view_for :
    Journal
    → Key
    → Portfolio
    → StopSellObligation
    → OrderCommand
    → Request
    → Raises StopObligationView
unfolding view_of
view_for j symbol position o (OrderCommand.new c) r = do
  snapshot ← order j o.order_id
  ok (view_of j symbol position o r c snapshot)
view_for j symbol position o _ r = ok (blocked_view o.request_id o.order_id o.qty)

-- one round of the loop over the obligations of the symbol
unfoldable pub obligation_view :
    Journal → Key → Portfolio → StopSellObligation → Raises StopObligationView
unfolding view_for
obligation_view j symbol position o =
    elim (find? (λ r. r.request_id == o.request_id) (reverse j.requests)) [
      | none ↦ ok (blocked_view o.request_id o.order_id o.qty)
      | some r ↦ view_for j symbol position o r.command r
    ]

unfoldable pub obligation_views :
    Journal → Key → Portfolio → List StopSellObligation → Raises (List StopObligationView)
unfolding obligation_view
obligation_views j symbol position [] = ok []
obligation_views j symbol position (o ∷ os) =
    let rest : Raises (List StopObligationView) = obligation_views j symbol position os in
    if o.symbol == symbol
    then (do v ← obligation_view j symbol position o; vs ← rest; ok (v ∷ vs))
    else rest

unfoldable pub stop_obligation_views : Journal → Key → Raises (List StopObligationView)
unfolding obligation_views unpaired_stop_requests
stop_obligation_views j symbol = do
  position ← portfolio j symbol
  views ← obligation_views j symbol position j.stop_sell_obligations
  ok (views ++ unpaired_stop_requests j symbol)
