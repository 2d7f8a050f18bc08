-- ===== src/Execution/CandidateSafety.antt =====
-- What the candidates of execution/ledger.py were checked for.
use cherry_pulse_kr.Prelude.{
  ℕ, ◌≡◌, refl, sym, ◌∙◌, ap, ◌-◌, ◌<◌, Bool, true, false, inl, inr, arith, ◌&&◌, ◌==◌, nat_eq,
  string_eq, Bool-cases, Option-cases, Result-cases, Option, none, some, ok, if◌then◌else◌,
}
use cherry_pulse_kr.Prelude.Int.{pos, ◌-ℤ◌, leb_ℤ}
use cherry_pulse_kr.Execution.Models.{Key, StopLatch, Raises, side_eq, environment_eq}
use cherry_pulse_kr.Execution.Journal.{Journal}
use cherry_pulse_kr.Execution.Projection.{at_least_zero}
use cherry_pulse_kr.Execution.Portfolio.{Portfolio, portfolio, available}
use cherry_pulse_kr.Execution.StopHoldings.{
  StopCostBasis, StopHoldings, confirmed_stop_holdings, confirmed_stop_cost_basis,
}
use cherry_pulse_kr.Execution.StopQuotes.{latch_for, basis_position}
use cherry_pulse_kr.Execution.StopCandidates.{
  binding_at, is_unresolved, protection_exposure, observe_basis, blocked_by, cost_decision,
  cost_candidate, with_session, virtual_cost_stop_candidate, price_decision, price_candidate,
  virtual_price_stop_candidate, latched_decision, latched_candidate, virtual_latched_stop_candidate,
}
use cherry_pulse_kr.Contracts.StopEvaluation.{
  Quote, ObserveAt, StopObservation, ManagedPosition, StopReason, ProtectionStatus,
  ProtectionDecision, decided_without, protection_candidate,
}
use cherry_pulse_kr.Contracts.Protection.{protection_candidate-IsSafe}

-- A sale of `qty` shares is no more than the portfolio has left, which is certain.
pub record IsCovered (j : Journal) (symbol : Key) (qty : ℕ) : Type 0 where
  pub holdings : Portfolio
  pub projected : portfolio j symbol ≡ ok holdings
  pub certain : is_unresolved holdings ≡ false
  pub all_left : qty ≡ available holdings
  pub some_left : 0 < qty

-- where nothing is uncertain, `available` is what protection computes
available-rest :
    (p : Portfolio) → is_unresolved p ≡ false → at_least_zero p.managed - p.reserved ≡ available p
unfolding available ◌-ℤ◌
available-rest p h = rw h (ground arith)

decided-IsCovered :
    (j : Journal) (symbol : Key) (p : Portfolio) (o : StopObservation) (m : ManagedPosition)
    → portfolio j symbol ≡ ok p
    → is_unresolved p ≡ false
    → (protection_candidate o m (protection_exposure p)).status ≡ ProtectionStatus.candidate
    → IsCovered j symbol (protection_candidate o m (protection_exposure p)).unreserved_qty
decided-IsCovered j symbol p o m e sure h =
    let safe = protection_candidate-IsSafe o m (protection_exposure p) h in
    record {
      holdings = p;
      projected = e;
      certain = sure;
      all_left = safe.rest ∙ available-rest p sure;
      some_left = safe.some_left;
    }

no_blocked : ¬ (ProtectionStatus.blocked ≡ ProtectionStatus.candidate)
no_blocked h = cc

no_rest : ¬ (ProtectionStatus.none_left ≡ ProtectionStatus.candidate)
no_rest h = cc

-- A candidate was computed in a session that is ready, on the portfolio.
with_session-eq_ok :
    (j : Journal) (symbol : Key) (ready : Bool) (f : Portfolio → Raises ProtectionDecision)
    {d : ProtectionDecision}
    → with_session j symbol ready f ≡ ok d
    → d.status ≡ ProtectionStatus.candidate
    → (ready ≡ true) × (p : Portfolio) × (portfolio j symbol ≡ ok p) × (f p ≡ ok d)
with_session-eq_ok j symbol true f h c = elim (Result-cases (portfolio j symbol)) [
  | inl (p, e) ↦ (refl, p, e, rw e at h)
  | inr (x, e) ↦ absurd (ground (arith, rw e at h))
]
with_session-eq_ok j symbol false f {d = d} h c =
    let e : blocked_by StopReason.session_reconciliation_required ≡ d = ground arith in
    absurd (no_blocked (ap (λ x. x.status) e ∙ c))

price_decision-IsCovered :
    (j : Journal) (symbol : Key) (q : Option Quote) (t : ObserveAt) (p : Portfolio)
    (h : Option StopHoldings)
    → portfolio j symbol ≡ ok p
    → is_unresolved p ≡ false
    → (price_decision j symbol q t p h).status ≡ ProtectionStatus.candidate
    → IsCovered j symbol (price_decision j symbol q t p h).unreserved_qty
price_decision-IsCovered j symbol q t p none e sure c = absurd (ground arith)
price_decision-IsCovered j symbol q t p (some h) e sure c =
    elim (Option-cases (binding_at false j symbol h.rule_version)) [
      | inl b ↦ absurd (no_blocked (rw (b, price_decision) at c))
      | inr (r, b) ↦
          rw (b, price_decision)
            (decided-IsCovered j symbol p _ _ e sure (rw (b, price_decision) at c))
    ]

cost_decision-IsCovered :
    (j : Journal) (symbol : Key) (q : Option Quote) (t : ObserveAt) (p : Portfolio)
    (b : Option StopCostBasis)
    → portfolio j symbol ≡ ok p
    → is_unresolved p ≡ false
    → (cost_decision j symbol q t p b).status ≡ ProtectionStatus.candidate
    → IsCovered j symbol (cost_decision j symbol q t p b).unreserved_qty
cost_decision-IsCovered j symbol q t p none e sure c = absurd (ground arith)
cost_decision-IsCovered j symbol q t p (some b) e sure c =
    decided-IsCovered j symbol p (observe_basis j symbol q t (some b)) (basis_position symbol b) e
      sure c

price_candidate-IsCovered :
    (j : Journal) (symbol : Key) (q : Option Quote) (t : ObserveAt) (p : Portfolio)
    {d : ProtectionDecision}
    → portfolio j symbol ≡ ok p
    → price_candidate j symbol q t p ≡ ok d
    → d.status ≡ ProtectionStatus.candidate
    → IsCovered j symbol d.unreserved_qty
price_candidate-IsCovered j symbol q t p {d} e h c = elim (Bool-cases (is_unresolved p)) [
  | inl doubt ↦
      let same : blocked_by StopReason.sell_evidence_unresolved ≡ d =
        ground (arith, rw (doubt, price_candidate) at h) in
      absurd (no_blocked (ap (λ x. x.status) same ∙ c))
  | inr sure ↦ elim (Result-cases (confirmed_stop_holdings j symbol)) [
    | inr (x, r) ↦ absurd (ground (arith, rw (sure, r) at h))
    | inl (held, r) ↦
        let same : price_decision j symbol q t p held ≡ d =
          ground (arith, rw (sure, r, price_candidate) at h) in
        rw (sym same) (price_decision-IsCovered j symbol q t p held e sure (rw (sym same) at c))
  ]
]

cost_candidate-IsCovered :
    (j : Journal) (symbol : Key) (q : Option Quote) (t : ObserveAt) (p : Portfolio)
    {d : ProtectionDecision}
    → portfolio j symbol ≡ ok p
    → cost_candidate j symbol q t p ≡ ok d
    → d.status ≡ ProtectionStatus.candidate
    → IsCovered j symbol d.unreserved_qty
cost_candidate-IsCovered j symbol q t p {d} e h c = elim (Bool-cases (is_unresolved p)) [
  | inl doubt ↦
      let same : blocked_by StopReason.sell_evidence_unresolved ≡ d =
        ground (arith, rw (doubt, cost_candidate) at h) in
      absurd (no_blocked (ap (λ x. x.status) same ∙ c))
  | inr sure ↦ elim (Result-cases (confirmed_stop_cost_basis j symbol)) [
    | inr (x, r) ↦ absurd (ground (arith, rw (sure, r) at h))
    | inl (basis, r) ↦
        let same : cost_decision j symbol q t p basis ≡ d =
          ground (arith, rw (sure, r, cost_candidate) at h) in
        rw (sym same) (cost_decision-IsCovered j symbol q t p basis e sure (rw (sym same) at c))
  ]
]

-- A candidate for a sale on a fixed price stop is computed only in a session that is ready, on a
-- portfolio that neither needs reconciliation nor has an uncertain sell, for a positive quantity
-- that is all that is available there.
pub virtual_price_stop_candidate-IsCovered :
    (j : Journal) (ready : Bool) (symbol : Key) (q : Option Quote) (t : ObserveAt)
    {d : ProtectionDecision}
    → virtual_price_stop_candidate j ready symbol q t ≡ ok d
    → d.status ≡ ProtectionStatus.candidate
    → (ready ≡ true) × IsCovered j symbol d.unreserved_qty
unfolding virtual_price_stop_candidate
virtual_price_stop_candidate-IsCovered j ready symbol q t h c =
    let (on, p, e, r) = with_session-eq_ok j symbol ready (price_candidate j symbol q t) h c in
    (on, price_candidate-IsCovered j symbol q t p e r c)

-- A candidate for a sale on a cost stop is computed only in a session that is ready, on a
-- portfolio that neither needs reconciliation nor has an uncertain sell, for a positive quantity
-- that is all that is available there.
pub virtual_cost_stop_candidate-IsCovered :
    (j : Journal) (ready : Bool) (symbol : Key) (q : Option Quote) (t : ObserveAt)
    {d : ProtectionDecision}
    → virtual_cost_stop_candidate j ready symbol q t ≡ ok d
    → d.status ≡ ProtectionStatus.candidate
    → (ready ≡ true) × IsCovered j symbol d.unreserved_qty
unfolding virtual_cost_stop_candidate
virtual_cost_stop_candidate-IsCovered j ready symbol q t h c =
    let (on, p, e, r) = with_session-eq_ok j symbol ready (cost_candidate j symbol q t) h c in
    (on, cost_candidate-IsCovered j symbol q t p e r c)

latched_decision-rest :
    (p : Portfolio) (l : StopLatch) (held : Option StopHoldings)
    → (latched_decision p l held).status ≡ ProtectionStatus.candidate
    → (latched_decision p l held).unreserved_qty ≡ available p
latched_decision-rest p l none c = absurd (no_blocked c)
latched_decision-rest p l (some h) c = elim (Bool-cases (h.rule_version == l.rule_version)) [
  | inl same ↦ rw (same, latched_decision) refl
  | inr other ↦ absurd (no_blocked (rw (other, latched_decision) at c))
]

latched_candidate-IsCovered :
    (j : Journal) (symbol : Key) (l : StopLatch) (p : Portfolio) {d : ProtectionDecision}
    → portfolio j symbol ≡ ok p
    → latched_candidate j symbol l p ≡ ok d
    → d.status ≡ ProtectionStatus.candidate
    → IsCovered j symbol d.unreserved_qty
latched_candidate-IsCovered j symbol l p {d} e h c = elim (Bool-cases (is_unresolved p)) [
  | inl doubt ↦
      let same : blocked_by StopReason.sell_evidence_unresolved ≡ d =
        ground (arith, rw (doubt, latched_candidate) at h) in
      absurd (no_blocked (ap (λ x. x.status) same ∙ c))
  | inr sure ↦ elim (Bool-cases (available p == 0)) [
    | inl empty ↦
        let same : decided_without ProtectionStatus.none_left (
              if leb_ℤ p.managed (pos 0) && leb_ℤ (pos 0) p.managed
              then StopReason.no_managed_position
              else StopReason.shares_already_reserved_or_sold)
            ≡ d =
          ground (arith, rw (sure, empty, latched_candidate) at h) in
        absurd (no_rest (ap (λ x. x.status) same ∙ c))
    | inr left ↦ elim (Result-cases (confirmed_stop_holdings j symbol)) [
      | inr (x, r) ↦ absurd (ground (arith, rw (sure, left, r) at h))
      | inl (held, r) ↦
          let same : latched_decision p l held ≡ d =
            ground (arith, rw (sure, left, r, latched_candidate) at h) in
          let rest : d.unreserved_qty ≡ available p =
            ap (λ x. x.unreserved_qty) (sym same)
            ∙ latched_decision-rest p l held (ap (λ x. x.status) same ∙ c) in
          record {
            holdings = p;
            projected = e;
            certain = sure;
            all_left = rest;
            some_left = rw rest (ground arith);
          }
    ]
  ]
]

-- A candidate for a sale on a latched stop is computed only in a session that is ready, on a
-- portfolio that neither needs reconciliation nor has an uncertain sell, for a positive quantity
-- that is all that is available there.
pub virtual_latched_stop_candidate-IsCovered :
    (j : Journal) (ready : Bool) (symbol : Key) {d : ProtectionDecision}
    → virtual_latched_stop_candidate j ready symbol ≡ ok d
    → d.status ≡ ProtectionStatus.candidate
    → (ready ≡ true) × IsCovered j symbol d.unreserved_qty
unfolding virtual_latched_stop_candidate
virtual_latched_stop_candidate-IsCovered j ready symbol {d} h c =
    elim (Option-cases (latch_for symbol j)) [
      | inl unlatched ↦
          let same : decided_without ProtectionStatus.none_left StopReason.stop_not_latched ≡ d =
            ground (arith, rw (unlatched, virtual_latched_stop_candidate) at h) in
          absurd (no_rest (ap (λ x. x.status) same ∙ c))
      | inr (l, found) ↦
          let (on, p, e, r) =
            with_session-eq_ok j symbol ready (latched_candidate j symbol l)
              (rw (found, virtual_latched_stop_candidate) at h) c in
          (on, latched_candidate-IsCovered j symbol l p e r c)
    ]
