-- ===== src/Execution/RecoveryFacts.antt =====
-- The facts that `VirtualDispatcher.recover` of execution/virtual.py adds for one request, and its report of it.
use cherry_pulse_kr.Prelude.{
  ℕ, ◌+◌, ◌≡◌, refl, sym, ap, subst, inl, inr, false, List, [], ◌∷◌, arith, ◌==◌, nat_eq, string_eq,
  map, any, keep, if◌then◌else◌, Bool-cases, Has, Has-cases, Has-nil, any-Has,
}
use cherry_pulse_kr.Execution.Models.{Uuid, side_eq, environment_eq, Request}
use cherry_pulse_kr.Execution.Facts.{Fact}
use cherry_pulse_kr.Execution.Journal.{Journal}
use cherry_pulse_kr.Execution.Outcomes.{concerns, request_state, is_fill_of}
use cherry_pulse_kr.Execution.Claim.{transport_fact}
use cherry_pulse_kr.Execution.Recovery.{recovery_state, needs_recovery}
use cherry_pulse_kr.Execution.Recovered.{recovery_facts}
use cherry_pulse_kr.Execution.OpenRequests.{IsDistinct}

module _ (j : Journal) where
  -- the fact of one request
  abbrev pub own_facts : Request → Uuid → List Fact
  own_facts r n =
      if needs_recovery j r
      then transport_fact n r.request_id (recovery_state (request_state j r)) ∷ []
      else []

  pub fills-recovery :
      (id : Uuid) (rs : List Request) (fresh : ℕ → Uuid)
      → any (is_fill_of id) (recovery_facts j rs fresh) ≡ false
  fills-recovery id [] fresh = refl
  fills-recovery id (r ∷ rs) fresh = ground (arith, fills-recovery id rs (λ n. fresh (n + 1)))

  absent-recovery :
      (id : Uuid) (rs : List Request) (fresh : ℕ → Uuid)
      → any (λ x. x.request_id == id) rs ≡ false
      → keep (concerns id) (recovery_facts j rs fresh) ≡ []
  absent-recovery id [] fresh h = refl
  absent-recovery id (r ∷ rs) fresh h =
      ground (arith, h, absent-recovery id rs (λ n. fresh (n + 1)))

  head-recovery :
      (r : Request) (rs : List Request) (fresh : ℕ → Uuid)
      → any (λ x. x.request_id == r.request_id) rs ≡ false
      → keep (concerns r.request_id) (recovery_facts j (r ∷ rs) fresh) ≡ own_facts r (fresh 0)
  head-recovery r rs fresh d = elim (Bool-cases (needs_recovery j r)) [
    | inl needed ↦
        rw (needed, (nat_eq.equal_iff r.request_id _).1 refl)
          (ap
            (λ fs. transport_fact (fresh 0) r.request_id (recovery_state (request_state j r)) ∷ fs)
            (absent-recovery r.request_id rs (λ n. fresh (n + 1)) d))
    | inr settled ↦ rw settled (absent-recovery r.request_id rs (λ n. fresh (n + 1)) d)
  ]

  -- another request of the list has another identity
  different :
      (r x : Request) (rs : List Request)
      → any (λ y. y.request_id == x.request_id) rs ≡ false
      → Has r rs
      → (x.request_id == r.request_id) ≡ false
  different r x rs d g = elim (Bool-cases (r.request_id == x.request_id)) [
    | inl same ↦ absurd (ground (arith, d, any-Has (λ y. y.request_id == x.request_id) rs g same))
    | inr other ↦ ground (arith, other)
  ]

  pub own-recovery :
      (r : Request) (rs : List Request) (fresh : ℕ → Uuid)
      → IsDistinct rs
      → Has r rs
      → (n : Uuid) × (keep (concerns r.request_id) (recovery_facts j rs fresh) ≡ own_facts r n)
  own-recovery r [] fresh d h = absurd (Has-nil r h)
  own-recovery r (x ∷ rs) fresh (d, ds) h = elim (Has-cases r x rs h) [
    | inl e ↦ (
      fresh 0,
      subst
          (λ y.
            keep (concerns y.request_id) (recovery_facts j (x ∷ rs) fresh) ≡ own_facts y (fresh 0))
          (sym e) (head-recovery x rs fresh d),
    )
    | inr g ↦
        let (n, p) = own-recovery r rs (λ m. fresh (m + 1)) ds g in
        let other = different r x rs d g in
        (
          n,
          elim (Bool-cases (needs_recovery j x)) [
            | inl needed ↦ rw (needed, other) p
            | inr settled ↦ rw settled p
          ],
        )
  ]

  absent-ids :
      (id : Uuid) (rs : List Request)
      → any (λ x. x.request_id == id) rs ≡ false
      → any (λ i. i == id) (map (λ x. x.request_id) (keep (needs_recovery j) rs)) ≡ false
  absent-ids id [] h = refl
  absent-ids id (r ∷ rs) h = ground (arith, h, absent-ids id rs)

  head-ids :
      (r : Request) (rs : List Request)
      → any (λ x. x.request_id == r.request_id) rs ≡ false
      → any (λ i. i == r.request_id) (map (λ x. x.request_id) (keep (needs_recovery j) (r ∷ rs)))
        ≡ needs_recovery j r
  head-ids r rs d = elim (Bool-cases (needs_recovery j r)) [
    | inl needed ↦ rw (needed, (nat_eq.equal_iff r.request_id _).1 refl) refl
    | inr settled ↦ rw settled (absent-ids r.request_id rs d)
  ]

  pub own-ids :
      (r : Request) (rs : List Request)
      → IsDistinct rs
      → Has r rs
      → any (λ i. i == r.request_id) (map (λ x. x.request_id) (keep (needs_recovery j) rs))
        ≡ needs_recovery j r
  own-ids r [] d h = absurd (Has-nil r h)
  own-ids r (x ∷ rs) (d, ds) h = elim (Has-cases r x rs h) [
    | inl e ↦
        subst
          (λ y.
            any (λ i. i == y.request_id)
              (map (λ z. z.request_id) (keep (needs_recovery j) (x ∷ rs)))
            ≡ needs_recovery j y)
          (sym e) (head-ids x rs d)
    | inr g ↦
        let other = different r x rs d g in
        elim (Bool-cases (needs_recovery j x)) [
          | inl needed ↦ rw (needed, other) (own-ids r rs ds g)
          | inr settled ↦ rw settled (own-ids r rs ds g)
        ]
  ]
