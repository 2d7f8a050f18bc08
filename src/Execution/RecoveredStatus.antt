-- ===== src/Execution/RecoveredStatus.antt =====
-- What `VirtualDispatcher.recover` of execution/virtual.py reports, and the statuses after it.
use cherry_pulse_kr.Prelude.{
  ℕ, ◌≡◌, refl, sym, ap, subst, ◌∙◌, ◌⊎◌, inl, inr, Bool, true, false, not, ◌&&◌, some, List, [],
  ◌∷◌, ◌++◌, arith, ◌==◌, nat_eq, string_eq, any, keep, pick, get_last?, keep-append, pick-append,
  any-append, get_last?-append, append-nil, Bool-cases, Has, ok,
}
use cherry_pulse_kr.Execution.Models.{Uuid, side_eq, environment_eq, Request}
use cherry_pulse_kr.Execution.Facts.{Fact, Transport, as_transport}
use cherry_pulse_kr.Execution.Journal.{Journal}
use cherry_pulse_kr.Execution.Outcomes.{
  TransportStatus, concerns, status, request_state, is_acceptance, is_confirmation,
  is_effect_rejected, is_send_failed, is_rejected, is_change, is_fill_of, observed_status,
  last_observed, summary,
}
use cherry_pulse_kr.Execution.External.{External}
use cherry_pulse_kr.Execution.Transaction.{Store}
use cherry_pulse_kr.Execution.Storage.{Payload}
use cherry_pulse_kr.Execution.Storage.Extend.{extend}
use cherry_pulse_kr.Execution.Recovery.{recovery_state, needs_recovery, recovery}
use cherry_pulse_kr.Execution.Recovered.{recovery_facts, recovery-eq_ok}
use cherry_pulse_kr.Execution.Settled.{is_terminal, late_transport}
use cherry_pulse_kr.Execution.History.{journal_of}
use cherry_pulse_kr.Execution.RecoveryFacts.{own_facts, fills-recovery, own-recovery, own-ids}
use cherry_pulse_kr.Execution.OpenRequests.{
  IsOpen, IsReviewed, IsDistinct, IsOpen-needs_recovery, needs_recovery-IsOpen,
}

-- The status of a request depends on the facts that name it, and on whether its order has a fill.
same_status :
    (j k : Journal) (r : Request)
    → keep (concerns r.request_id) k.facts ≡ keep (concerns r.request_id) j.facts
    → any (is_fill_of r.order_id) k.facts ≡ any (is_fill_of r.order_id) j.facts
    → status k r ≡ status j r
unfolding status
same_status j k r e f = rw (status, e, f) refl

-- The transport of a request without an answer is what was observed last.
summary-open :
    (changed acceptance confirmation effect_rejection failure rejection execution : Bool)
    (o o' : TransportStatus)
    → is_terminal
        (summary changed acceptance confirmation effect_rejection failure rejection execution
          o).transport
      ≡ false
    → (summary changed acceptance confirmation effect_rejection failure rejection execution
        o').transport
      ≡ o'
unfolding summary
summary-open c a k e f r x o o' h = ground arith

last_appended :
    (fs : List Fact) (t : Transport)
    → get_last? (pick as_transport (fs ++ Fact.transport t ∷ [])) ≡ some t
last_appended fs t =
    rw (pick-append as_transport fs (Fact.transport t ∷ []))
      (get_last?-append (pick as_transport fs) t)

keep-own :
    (id : Uuid) (fs : List Fact) (t : Transport)
    → t.request_id ≡ id
    → keep (concerns id) (fs ++ Fact.transport t ∷ [])
      ≡ keep (concerns id) fs ++ Fact.transport t ∷ []
keep-own id fs t e =
    rw
      (keep-append (concerns id) fs (Fact.transport t ∷ []), (nat_eq.equal_iff t.request_id id).1 e)
      refl

any-transport :
    (p : Fact → Bool) (fs : List Fact) (t : Transport)
    → p (Fact.transport t) ≡ false
    → any p (fs ++ Fact.transport t ∷ []) ≡ any p fs
any-transport p fs t h = ground (arith, h, any-append p fs (Fact.transport t ∷ []))

-- A transport fact for a request without an answer is observed.
observed :
    (j : Journal) (r : Request) (t : Transport)
    → t.request_id ≡ r.request_id
    → is_terminal (request_state j r) ≡ false
    → (status (extend j (Payload.fact (Fact.transport t))) r).transport ≡ observed_status t.state
unfolding status request_state
observed j r t e h =
    let fs : List Fact = keep (concerns r.request_id) j.facts in
    rw
      (
        keep-own r.request_id j.facts t e,
        any-transport is_acceptance fs t refl,
        any-transport is_send_failed fs t refl,
        any-transport is_rejected fs t refl,
        last_appended fs t,
      )
      (summary-open (is_change r.command) (any is_acceptance fs) (any is_confirmation fs)
        (any is_effect_rejected fs) (any is_send_failed fs) (any is_rejected fs)
        (not (is_change r.command) && any (is_fill_of r.order_id) j.facts)
        (last_observed (get_last? (pick as_transport fs))) (observed_status t.state) h)

-- The transport fact that a recovery adds for a request.
abbrev review_of : Journal → Request → Uuid → Transport
review_of j r n = record {
  event_id = n;
  request_id = r.request_id;
  state = recovery_state (request_state j r);
}

IsReviewed-status :
    (j : Journal) (r : Request) (n : Uuid) (q : TransportStatus)
    → request_state j r ≡ q
    → IsReviewed q
        (status j r)
        (status (extend j (Payload.fact (Fact.transport (review_of j r n)))) r)
IsReviewed-status j r n TransportStatus.sending e =
    observed j r (review_of j r n) refl (ap is_terminal e)
    ∙ ap (λ x. observed_status (recovery_state x)) e
IsReviewed-status j r n TransportStatus.intent_persisted e =
    observed j r (review_of j r n) refl (ap is_terminal e)
    ∙ ap (λ x. observed_status (recovery_state x)) e
IsReviewed-status j r n TransportStatus.sent e =
    observed j r (review_of j r n) refl (ap is_terminal e)
    ∙ ap (λ x. observed_status (recovery_state x)) e
IsReviewed-status j r n TransportStatus.unknown e =
    observed j r (review_of j r n) refl (ap is_terminal e)
    ∙ ap (λ x. observed_status (recovery_state x)) e
IsReviewed-status j r n TransportStatus.reconciling e =
    observed j r (review_of j r n) refl (ap is_terminal e)
    ∙ ap (λ x. observed_status (recovery_state x)) e
IsReviewed-status j r n TransportStatus.acked e =
    late_transport j r (review_of j r n) (ap is_terminal e)
IsReviewed-status j r n TransportStatus.rejected_by_broker e =
    late_transport j r (review_of j r n) (ap is_terminal e)
IsReviewed-status j r n TransportStatus.send_failed e =
    late_transport j r (review_of j r n) (ap is_terminal e)

module _ (j k : Journal) (fresh : ℕ → Uuid)
    (added : k.facts ≡ j.facts ++ recovery_facts j j.requests fresh) where
  fills-kept : (id : Uuid) → any (is_fill_of id) k.facts ≡ any (is_fill_of id) j.facts
  fills-kept id = ground (
    arith,
    ap (any (is_fill_of id)) added,
    any-append (is_fill_of id) j.facts (recovery_facts j j.requests fresh),
    fills-recovery j id j.requests fresh,
  )

  named :
      (r : Request)
      → IsDistinct j.requests
      → Has r j.requests
      → (n : Uuid) × (keep (concerns r.request_id) k.facts
          ≡ keep (concerns r.request_id) j.facts ++ own_facts j r n)
  named r d h =
      let (n, p) = own-recovery j r j.requests fresh d h in
      (
        n,
        ap (keep (concerns r.request_id)) added
            ∙ keep-append (concerns r.request_id) j.facts (recovery_facts j j.requests fresh)
            ∙ ap (λ fs. keep (concerns r.request_id) j.facts ++ fs) p,
      )

  status-left :
      (r : Request)
      → IsDistinct j.requests
      → Has r j.requests
      → needs_recovery j r ≡ false
      → status k r ≡ status j r
  status-left r d h settled =
      let (n, p) = named r d h in
      same_status j k r (p ∙ rw settled (append-nil _)) (fills-kept r.order_id)

  status-IsReviewed :
      (r : Request)
      → IsDistinct j.requests
      → Has r j.requests
      → needs_recovery j r ≡ true
      → IsReviewed (request_state j r) (status j r) (status k r)
  status-IsReviewed r d h needed =
      let (n, p) = named r d h in
      let t : Transport = review_of j r n in
      let same : status k r ≡ status (extend j (Payload.fact (Fact.transport t))) r =
        same_status (extend j (Payload.fact (Fact.transport t))) k r
          (p ∙ rw needed (sym (keep-own r.request_id j.facts t refl)))
          (fills-kept r.order_id ∙ sym (any-transport (is_fill_of r.order_id) j.facts t refl)) in
      subst (IsReviewed (request_state j r) (status j r)) (sym same)
        (IsReviewed-status j r n (request_state j r) refl)

module _ (ext : External) where
  -- After a recovery that returns, where no two requests of the journal have one identity, every
  -- request of the journal is one of two: either it was accepted with an open outcome (a
  -- conflict, an execution before any answer, under way without an answer, or acknowledged with
  -- an effect that is pending or unknown), is reported, and is now unknown if it was being sent,
  -- under reconciliation if it had no answer otherwise, and of the same status as before if it
  -- had one; or it was not accepted or has no open outcome, is not reported, and its status is
  -- the same.
  pub recovery-reviews :
      (fresh : ℕ → Uuid) (s : Store) (r : Request) {ids : List Uuid} {s' : Store}
      → recovery ext fresh s ≡ ok (ids, s')
      → IsDistinct (journal_of s).requests
      → Has r (journal_of s).requests
      → let j : Journal = journal_of s in
        let k : Journal = journal_of s' in
        (IsOpen j r
          × (any (λ i. i == r.request_id) ids ≡ true)
          × IsReviewed (request_state j r) (status j r) (status k r))
        ⊎ (¬ IsOpen j r × (any (λ i. i == r.request_id) ids ≡ false) × (status k r ≡ status j r))
  recovery-reviews fresh s r {ids} {s'} h d has =
      let (reported, added) = recovery-eq_ok ext fresh s h in
      let j : Journal = journal_of s in
      let k : Journal = journal_of s' in
      let listed = ap (any (λ i. i == r.request_id)) reported ∙ own-ids j r j.requests d has in
      elim (Bool-cases (needs_recovery j r)) [
        | inl needed ↦ inl (
          needs_recovery-IsOpen j r needed,
          listed ∙ needed,
          status-IsReviewed j k fresh added r d has needed,
        )
        | inr settled ↦ inr (
          λ o. absurd (ground (arith, settled, IsOpen-needs_recovery j r o)),
          listed ∙ settled,
          status-left j k fresh added r d has settled,
        )
      ]
