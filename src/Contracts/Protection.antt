-- ===== src/Contracts/Protection.antt =====
-- `protection_candidate` of contracts/stop_evaluation.py: what a candidate was checked for.
use cherry_pulse_kr.Prelude.{
  ℕ, ◌≡◌, refl, ◌-◌, ◌<◌, ◌≤◌, true, false, ltb, inl, inr, arith, ◌||◌, ◌==◌, nat_eq, string_eq,
  Bool-cases,
}
use cherry_pulse_kr.Contracts.StopEvaluation.{
  StopObservation, ManagedPosition, ProtectionExposure, ProtectionStatus, is_triggered,
  protection_candidate,
}

-- The sale of `qty` shares is what an observation and an exposure admit.
pub record IsSafe (o : StopObservation) (e : ProtectionExposure) (qty : ℕ) : Type 0 where
  pub triggered : is_triggered o.status ≡ true
  pub certain : (e.reconciliation_required || e.sell_uncertain) ≡ false
  pub reserved : e.reserved_sell_qty ≤ e.managed_qty
  pub rest : qty ≡ e.managed_qty - e.reserved_sell_qty
  pub some_left : 0 < qty

pub protection_candidate-IsSafe :
    (o : StopObservation) (p : ManagedPosition) (e : ProtectionExposure)
    → (protection_candidate o p e).status ≡ ProtectionStatus.candidate
    → IsSafe o e (protection_candidate o p e).unreserved_qty
unfolding protection_candidate
protection_candidate-IsSafe o p e h = elim (Bool-cases (is_triggered o.status)) [
  | inr quiet ↦ absurd (ground (arith, rw quiet at h))
  | inl hit ↦ elim (Bool-cases (e.managed_qty == p.confirmed_qty)) [
    | inr other ↦ absurd (ground (arith, rw (hit, other) at h))
    | inl same ↦ elim (Bool-cases (e.reconciliation_required || e.sell_uncertain)) [
      | inl doubt ↦ absurd (ground (arith, rw (hit, same, doubt) at h))
      | inr sure ↦ elim (Bool-cases (ltb e.managed_qty e.reserved_sell_qty)) [
        | inl over ↦ absurd (ground (arith, rw (hit, same, sure, over) at h))
        | inr within ↦ elim (Bool-cases (e.managed_qty - e.reserved_sell_qty == 0)) [
          | inl empty ↦ absurd (ground (arith, rw (hit, same, sure, within, empty) at h))
          | inr left ↦
              rw (hit, same, sure, within, left)
                (record {
                  triggered = hit;
                  certain = sure;
                  reserved = ground arith;
                  rest = refl;
                  some_left = ground arith;
                })
        ]
      ]
    ]
  ]
]
