-- ===== src/Execution/Events.antt =====
-- Repeated calls of `Ledger.ingest` of execution/ledger.py.
use cherry_pulse_kr.Execution.Found.{find?-facts_Extends}
use cherry_pulse_kr.Prelude.{
  ◌≡◌, refl, sym, ap, ◌∙◌, subst, ◌≢◌, ◌⊎◌, inl, inr, Bool, true, false, none, some, List, [], ◌∷◌,
  arith, ◌==◌, nat_eq, string_eq, decided_iff, Bool-cases, Option-cases, find?, find?-append_none,
  ok, err,
}
use cherry_pulse_kr.Execution.Models.{LedgerError, side_eq, environment_eq}
use cherry_pulse_kr.Execution.Facts.{Fact, event_id, Fact-discrete, same_fact}
use cherry_pulse_kr.Execution.Journal.{Journal}
use cherry_pulse_kr.Execution.External.{External}
use cherry_pulse_kr.Execution.Validation.{check_fact}
use cherry_pulse_kr.Execution.Lease.{operation}
use cherry_pulse_kr.Execution.Storage.{Payload}
use cherry_pulse_kr.Execution.Lease.{operation}
use cherry_pulse_kr.Execution.Storage.{Payload}
use cherry_pulse_kr.Execution.Transaction.{Store, Method, pure, lift, read_journal, append_entry}
use cherry_pulse_kr.Execution.Ingest.{
  ingest, record_fact, append_assignment, settle, is_event, fact_entry,
}
use cherry_pulse_kr.Execution.Storage.Extend.{extend}
use cherry_pulse_kr.Execution.History.{
  journal_of, Grown, Grown-trans, append_entry-extend, lift-eq_ok, transaction_owned,
  transaction-eq_ok, bind-eq_ok,
}
use cherry_pulse_kr.Execution.AppendOnly.{ingest-Grows, append_assignment-Grows}
use cherry_pulse_kr.Execution.Calls.{Operation, run_all, run_all-Grown}

same_fact_refl : (f : Fact) → same_fact f f ≡ true
same_fact_refl f = (decided_iff (Fact-discrete f f)).1 refl

same_fact-ne : (f g : Fact) → f ≢ g → same_fact f g ≡ false
same_fact-ne f g h = elim (Bool-cases (same_fact f g)) [
  | inl same ↦ absurd (h ((decided_iff (Fact-discrete f g)).0 same))
  | inr other ↦ other
]

event_refl : (f : Fact) → is_event f f ≡ true
event_refl f = (nat_eq.equal_iff _ _).1 refl

module _ (ext : External) where
  ingest-settle :
      (f : Fact) (s : Store)
      → operation s.lease s.process ≡ ok tt
      → ingest ext f s
        ≡ settle f (find? (is_event f) (journal_of s).facts) (record_fact ext (journal_of s) f) s
  unfolding ingest read_journal journal_of
  ingest-settle f s own = transaction_owned _ s own

  ingest-owned :
      (f : Fact) (s : Store) {x : Bool × Store}
      → ingest ext f s ≡ ok x
      → operation s.lease s.process ≡ ok tt
  unfolding ingest
  ingest-owned f s h = (transaction-eq_ok _ s h).0

  -- What a `record_fact` that returns has done: the fact passed its check and was appended.
  record_fact-eq_ok :
      (j : Journal) (f : Fact) (s : Store) {b : Bool} {s' : Store}
      → record_fact ext j f s ≡ ok (b, s')
      → (t : Store) × (check_fact ext j f ≡ ok tt)
        × (b ≡ true)
        × (journal_of t ≡ extend (journal_of s) (Payload.fact f))
        × Grown t s'
  unfolding record_fact
  record_fact-eq_ok j f s {b} {s'} h =
      let (u1, s1, p1, q1) = bind-eq_ok (lift (check_fact ext j f)) _ s h in
      let (u2, s2, p2, q2) = bind-eq_ok (append_entry (fact_entry ext f)) _ s1 q1 in
      let done : Method Bool = pure true in
      let (u3, s3, p3, q3) = bind-eq_ok (append_assignment ext j f) (λ _. done) s2 q2 in
      let (a1, e1) = lift-eq_ok (check_fact ext j f) s p1 in
      let e3 : s3 ≡ s' = ground arith in
      (
        s2,
        a1,
        ground arith,
        append_entry-extend (fact_entry ext f) s1 p2
            ∙ ap (λ k. extend (journal_of k) (Payload.fact f)) e1,
        subst (Grown s2) e3 ((append_assignment-Grows ext j f).at s2 p3),
      )

  -- An `ingest` that returns was a replay, or the fact was recorded.
  pub ingest-eq_ok :
      (f : Fact) (s : Store) {b : Bool} {s' : Store}
      → ingest ext f s ≡ ok (b, s')
      → ((find? (is_event f) (journal_of s).facts ≡ some f) × (b ≡ false) × (s' ≡ s))
        ⊎ ((find? (is_event f) (journal_of s).facts ≡ none)
            × (record_fact ext (journal_of s) f s ≡ ok (b, s')))
  unfolding settle
  ingest-eq_ok f s {b} {s'} h =
      let h' = sym (ingest-settle f s (ingest-owned f s h)) ∙ h in
      elim (Option-cases (find? (is_event f) (journal_of s).facts)) [
        | inl new_event ↦ inr (new_event, rw new_event at h')
        | inr (g, p) ↦ elim (Bool-cases (same_fact g f)) [
          | inl same ↦
              let e : g ≡ f = (decided_iff (Fact-discrete g f)).0 same in
              inl (
                p ∙ ap some e,
                ground (arith, rw (p, same) at h'),
                ground (arith, rw (p, same) at h'),
              )
          | inr other ↦ absurd (ground (arith, rw (p, other) at h'))
        ]
      ]

  -- After an `ingest` that returned, the fact is the one recorded under its identity.
  pub ingest-recorded :
      (f : Fact) (s : Store) {b : Bool} {s' : Store}
      → ingest ext f s ≡ ok (b, s')
      → find? (is_event f) (journal_of s').facts ≡ some f
  ingest-recorded f s {b} {s'} h = elim (ingest-eq_ok f s h) [
    | inl (p, _, t) ↦ rw t p
    | inr (fresh, h') ↦
        let (t, a, e, j, g) = record_fact-eq_ok (journal_of s) f s {b = b} {s' = s'} h' in
        find?-facts_Extends (is_event f) g.entries (
          rw (j, find?-append_none (is_event f) (journal_of s).facts (f ∷ []) fresh, event_refl f)
            refl)
  ]

  later :
      (f : Fact) (s : Store) {b : Bool} {s' : Store}
      → ingest ext f s ≡ ok (b, s')
      → (ops : List Operation)
      → let t = run_all ext ops s' in
        (operation t.lease t.process ≡ ok tt) × (find? (is_event f) (journal_of t).facts ≡ some f)
  later f s {b} {s'} h ops =
      let g = Grown-trans ((ingest-Grows ext f).at s h) (run_all-Grown ext ops s') in
      (
        rw (g.lease, g.process) (ingest-owned f s h),
        find?-facts_Extends (is_event f) (run_all-Grown ext ops s').entries (ingest-recorded f s h),
      )

  -- Once a fact was ingested, ingesting it again after any other transactions answers that it is
  -- known and changes nothing, and a different fact under its event identity is refused.
  pub ingest_once :
      (f : Fact) (s : Store) {b : Bool} {s' : Store}
      → ingest ext f s ≡ ok (b, s')
      → (ops : List Operation)
      → (ingest ext f (run_all ext ops s') ≡ ok (false, run_all ext ops s'))
        × ((g : Fact)
            → event_id g ≡ event_id f
            → g ≢ f
            → ingest ext g (run_all ext ops s') ≡ err LedgerError.conflict_event_id_mismatch)
  unfolding settle
  ingest_once f s {b} {s'} h ops =
      let t = run_all ext ops s' in
      let (own, found) = later f s h ops in
      (
        ingest-settle f t own ∙ rw (found, same_fact_refl f) refl,
        λ g e other.
            ingest-settle g t own
            ∙ rw
                (
                  subst (λ n. find? (λ k. event_id k == n) (journal_of t).facts ≡ some f) (sym e)
                      found,
                  same_fact-ne f g (λ q. other (sym q)),
                )
                refl,
      )
