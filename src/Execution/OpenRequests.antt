-- ===== src/Execution/OpenRequests.antt =====
-- What `VirtualDispatcher.recover` of execution/virtual.py does to the status of each request.
use cherry_pulse_kr.Prelude.{
  ◌≡◌, refl, ap, inl, inr, true, false, Option, none, some, List, [], ◌∷◌, arith, ◌==◌, nat_eq,
  string_eq, any, Bool-cases,
}
use cherry_pulse_kr.Execution.Models.{Decision, side_eq, environment_eq, Request}
use cherry_pulse_kr.Execution.Journal.{Journal}
use cherry_pulse_kr.Execution.Outcomes.{TransportStatus, Effect, RequestStatus, unresolved, status}
use cherry_pulse_kr.Execution.Linkage.{is_accepted}
use cherry_pulse_kr.Execution.Recovery.{needs_recovery}

-- The outcome of a request is not known yet.
pub data IsUnresolved (s : RequestStatus) : Type 0 where
  contradicted : s.conflict ≡ true → IsUnresolved s
  executed :
      s.transport ≡ TransportStatus.intent_persisted → s.positive_evidence ≡ true → IsUnresolved s
  interrupted : s.transport ≡ TransportStatus.sending → IsUnresolved s
  unanswered : s.transport ≡ TransportStatus.sent → IsUnresolved s
  lost : s.transport ≡ TransportStatus.unknown → IsUnresolved s
  reviewed : s.transport ≡ TransportStatus.reconciling → IsUnresolved s
  awaited : s.transport ≡ TransportStatus.acked → s.effect ≡ some Effect.pending → IsUnresolved s
  doubtful : s.transport ≡ TransportStatus.acked → s.effect ≡ some Effect.unknown → IsUnresolved s

-- An accepted request whose outcome is not known yet.
abbrev pub IsOpen : Journal → Request → Type 0
IsOpen j r = (r.decision ≡ Decision.accepted) × IsUnresolved (status j r)

-- What becomes of an open request: one that was being sent is unknown, any other without an answer
-- is under reconciliation, and an answer that there is stays.
abbrev pub IsReviewed : TransportStatus → RequestStatus → RequestStatus → Type 0
IsReviewed TransportStatus.sending old new = new.transport ≡ TransportStatus.unknown
IsReviewed TransportStatus.intent_persisted old new = new.transport ≡ TransportStatus.reconciling
IsReviewed TransportStatus.sent old new = new.transport ≡ TransportStatus.reconciling
IsReviewed TransportStatus.unknown old new = new.transport ≡ TransportStatus.reconciling
IsReviewed TransportStatus.reconciling old new = new.transport ≡ TransportStatus.reconciling
IsReviewed TransportStatus.acked old new = new ≡ old
IsReviewed TransportStatus.rejected_by_broker old new = new ≡ old
IsReviewed TransportStatus.send_failed old new = new ≡ old

-- no two requests have one identity
abbrev pub IsDistinct : List Request → Type 0
IsDistinct [] = Unit
IsDistinct (r ∷ rs) = (any (λ x. x.request_id == r.request_id) rs ≡ false) × IsDistinct rs

unresolved-acked :
    (s : RequestStatus) (e : Option Effect)
    → s.transport ≡ TransportStatus.acked
    → s.effect ≡ e
    → s.conflict ≡ false
    → unresolved s ≡ true
    → IsUnresolved s
unfolding unresolved
unresolved-acked s (some Effect.pending) t e c h = IsUnresolved.awaited t e
unresolved-acked s (some Effect.unknown) t e c h = IsUnresolved.doubtful t e
unresolved-acked s (some Effect.confirmed) t e c h =
    absurd (ground (arith, rw (unresolved, c, t, e) at h))
unresolved-acked s (some Effect.rejected) t e c h =
    absurd (ground (arith, rw (unresolved, c, t, e) at h))
unresolved-acked s none t e c h = absurd (ground (arith, rw (unresolved, c, t, e) at h))

unresolved-transport :
    (s : RequestStatus) (q : TransportStatus)
    → s.transport ≡ q
    → s.conflict ≡ false
    → unresolved s ≡ true
    → IsUnresolved s
unfolding unresolved
unresolved-transport s TransportStatus.intent_persisted t c h =
    IsUnresolved.executed t (ground (arith, rw (unresolved, c, t) at h))
unresolved-transport s TransportStatus.sending t c h = IsUnresolved.interrupted t
unresolved-transport s TransportStatus.sent t c h = IsUnresolved.unanswered t
unresolved-transport s TransportStatus.unknown t c h = IsUnresolved.lost t
unresolved-transport s TransportStatus.reconciling t c h = IsUnresolved.reviewed t
unresolved-transport s TransportStatus.acked t c h = unresolved-acked s s.effect t refl c h
unresolved-transport s TransportStatus.rejected_by_broker t c h =
    absurd (ground (arith, rw (unresolved, c, t) at h))
unresolved-transport s TransportStatus.send_failed t c h =
    absurd (ground (arith, rw (unresolved, c, t) at h))

unresolved-IsUnresolved : (s : RequestStatus) → unresolved s ≡ true → IsUnresolved s
unresolved-IsUnresolved s h = elim (Bool-cases s.conflict) [
  | inl c ↦ IsUnresolved.contradicted c
  | inr c ↦ unresolved-transport s s.transport refl c h
]

IsUnresolved-unresolved : (s : RequestStatus) → IsUnresolved s → unresolved s ≡ true
unfolding unresolved
IsUnresolved-unresolved s (IsUnresolved.contradicted c) = rw (unresolved, c) refl
IsUnresolved-unresolved s (IsUnresolved.executed t p) = rw (unresolved, t, p) (ground arith)
IsUnresolved-unresolved s (IsUnresolved.interrupted t) = rw (unresolved, t) (ground arith)
IsUnresolved-unresolved s (IsUnresolved.unanswered t) = rw (unresolved, t) (ground arith)
IsUnresolved-unresolved s (IsUnresolved.lost t) = rw (unresolved, t) (ground arith)
IsUnresolved-unresolved s (IsUnresolved.reviewed t) = rw (unresolved, t) (ground arith)
IsUnresolved-unresolved s (IsUnresolved.awaited t e) = rw (unresolved, t, e) (ground arith)
IsUnresolved-unresolved s (IsUnresolved.doubtful t e) = rw (unresolved, t, e) (ground arith)

pub IsOpen-needs_recovery : (j : Journal) (r : Request) → IsOpen j r → needs_recovery j r ≡ true
unfolding needs_recovery
IsOpen-needs_recovery j r (a, u) =
    let known : is_accepted r ≡ true =
      ap
        (λ (d : Decision). elim d [
          | Decision.accepted ↦ true
          | Decision.rejected_unsupported ↦ false
        ])
        a in
    let open_r = IsUnresolved-unresolved (status j r) u in ground (arith, known, open_r)

accepted_decision :
    (d : Decision)
    → elim d [ Decision.accepted ↦ true | Decision.rejected_unsupported ↦ false ] ≡ true
    → d ≡ Decision.accepted
accepted_decision Decision.accepted h = refl
accepted_decision Decision.rejected_unsupported h = absurd (ground arith)

pub needs_recovery-IsOpen : (j : Journal) (r : Request) → needs_recovery j r ≡ true → IsOpen j r
unfolding needs_recovery
needs_recovery-IsOpen j r h = (
  accepted_decision r.decision (ground (arith, h)),
  unresolved-IsUnresolved (status j r) (ground (arith, h)),
)
