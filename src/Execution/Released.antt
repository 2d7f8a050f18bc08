-- ===== src/Execution/Released.antt =====
-- `reprocess` of execution/quarantine.py.
use cherry_pulse_kr.Prelude.{
  ℕ, ◌≡◌, sym, ap, ◌∙◌, ◌⊎◌, inl, inr, Bool, true, false, not, none, some, List, [], ◌∷◌, ◌++◌,
  append-nil, arith, ◌==◌, nat_eq, string_eq, decided_iff, Bool-cases, Option-cases, find?, ok,
  raise_if,
}
use cherry_pulse_kr.Execution.Models.{Uuid, Key, LedgerError, Raises, side_eq, environment_eq}
use cherry_pulse_kr.Execution.Facts.{
  Fill, QuarantineReleased, Fact, event_id, Fact-discrete, same_fact,
}
use cherry_pulse_kr.Execution.Journal.{Journal, revision}
use cherry_pulse_kr.Execution.External.{External}
use cherry_pulse_kr.Execution.Linkage.{linked_fill}
use cherry_pulse_kr.Execution.Validation.{check_fact}
use cherry_pulse_kr.Execution.Transaction.{Store, Method, pure, lift, append_entry, read_journal}
use cherry_pulse_kr.Execution.Ingest.{settle, is_event, fact_entry}
use cherry_pulse_kr.Execution.Quarantine.{release_of, commit_fill, release_fill, reprocess}
use cherry_pulse_kr.Execution.History.{
  journal_of, append_entry-extend, lift-eq_ok, transaction-eq_ok, bind-eq_ok, read_journal-eq_ok,
  raise_if-eq_ok,
}
use cherry_pulse_kr.Execution.External.{External}

-- the facts that a commit of the fill adds
abbrev pub new_fill : Journal → Fill → List Fact
new_fill j f = elim (find? (λ g. event_id g == f.event_id) j.facts) [
  | none ↦ Fact.fill f ∷ []
  | some g ↦ []
]

module _ (ext : External) where
  commit_fill-eq_ok :
      (j : Journal) (f : Fill) (s : Store) {u : Unit {0}} {s' : Store}
      → commit_fill ext j f s ≡ ok (u, s')
      → (journal_of s').facts ≡ (journal_of s).facts ++ new_fill j f
  unfolding commit_fill
  commit_fill-eq_ok j f s {u} {s'} h =
      elim (Option-cases (find? (λ g. event_id g == f.event_id) j.facts)) [
        | inl p ↦
            let check = check_fact ext j (Fact.fill f) in
            let (u1, s1, p1, q1) =
              bind-eq_ok (lift check) (λ u. append_entry (fact_entry ext (Fact.fill f))) s
                (rw (p, commit_fill) at h) in
            rw (p, new_fill)
              (ap (λ (k : Journal). k.facts) (append_entry-extend _ s1 q1)
                ∙ ap (λ (k : Store). (journal_of k).facts ++ Fact.fill f ∷ [])
                    (lift-eq_ok check s p1).1)
        | inr (g, p) ↦ elim (Bool-cases (same_fact g (Fact.fill f))) [
          | inl same ↦
              let e : s' ≡ s = ground (arith, rw (p, commit_fill, same) at h) in
              rw (p, new_fill, e) (sym (append-nil (journal_of s).facts))
          | inr other ↦ absurd (ground (arith, rw (p, commit_fill, other) at h))
        ]
      ]

  release_fill-eq_ok :
      (j : Journal) (r : QuarantineReleased) (n : ℕ) (s : Store) {b : Bool} {s' : Store}
      → release_fill ext j r n s ≡ ok (b, s')
      → (f : Fill) × (b ≡ true)
        × (revision j ≡ n)
        × (linked_fill ext j r.quarantine_id ≡ ok f)
        × ((journal_of s').facts
            ≡ (journal_of s).facts ++ new_fill j f ++ Fact.quarantine_released r ∷ [])
  unfolding release_fill
  release_fill-eq_ok j r n s {b} {s'} h =
      let stale : Raises (Unit {0}) =
        raise_if (not (revision j == n)) LedgerError.stale_quarantine_review in
      let (u1, s1, p1, q1) = bind-eq_ok (lift stale) _ s h in
      let (f, s2, p2, q2) = bind-eq_ok (lift (linked_fill ext j r.quarantine_id)) _ s1 q1 in
      let (u3, s3, p3, q3) = bind-eq_ok (commit_fill ext j f) _ s2 q2 in
      let (j', s4, p4, q4) = bind-eq_ok read_journal _ s3 q3 in
      let check = check_fact ext j' (Fact.quarantine_released r) in
      let (u5, s5, p5, q5) = bind-eq_ok (lift check) _ s4 q4 in
      let done : Method Bool = pure true in
      let entry = fact_entry ext (Fact.quarantine_released r) in
      let (u6, s6, p6, q6) = bind-eq_ok (append_entry entry) (λ u. done) s5 q5 in
      let (a1, e1) = lift-eq_ok stale s p1 in
      let (a2, e2) = lift-eq_ok (linked_fill ext j r.quarantine_id) s1 p2 in
      let last : s6 ≡ s' = ground arith in
      let before : s5 ≡ s3 = (lift-eq_ok check s4 p5).1 ∙ (read_journal-eq_ok s3 p4).1 in
      (
        f,
        ground arith,
        (nat_eq.equal_iff _ _).0 (ground (arith, raise_if-eq_ok (not (revision j == n)) _ a1)),
        a2,
        ap (λ (k : Store). (journal_of k).facts) (sym last)
            ∙ ap (λ (k : Journal). k.facts) (append_entry-extend entry s5 p6)
            ∙ ap (λ fs. fs ++ Fact.quarantine_released r ∷ [])
                (ap (λ (k : Store). (journal_of k).facts) before
                  ∙ commit_fill-eq_ok j f s2 p3
                  ∙ ap (λ (k : Store). (journal_of k).facts ++ new_fill j f) (e2 ∙ e1)),
      )

  reprocess-settle :
      (q : Uuid) (proof_reference : Key) (n : ℕ) (s : Store) {x : Bool × Store}
      → reprocess ext q proof_reference n s ≡ ok x
      → let r = release_of ext q proof_reference in
        settle
          (Fact.quarantine_released r)
          (find? (is_event (Fact.quarantine_released r)) (journal_of s).facts)
          (release_fill ext (journal_of s) r n)
          s
        ≡ ok x
  unfolding reprocess read_journal journal_of
  reprocess-settle q proof_reference n s h = (transaction-eq_ok _ s h).1

  -- A reprocessing that returns either found its release recorded and changed nothing, or it was
  -- made at the reviewed revision and added, in one transaction, the fill derived from the
  -- quarantined one (unless it was there) and then the release.
  pub reprocess_commits :
      (q : Uuid) (proof_reference : Key) (n : ℕ) (s : Store) {b : Bool} {s' : Store}
      → reprocess ext q proof_reference n s ≡ ok (b, s')
      → let j = journal_of s in
        let r = Fact.quarantine_released (release_of ext q proof_reference) in
        ((b ≡ false) × (s' ≡ s) × (find? (is_event r) j.facts ≡ some r))
        ⊎ ((b ≡ true)
            × (f : Fill) × (revision j ≡ n)
            × (linked_fill ext j q ≡ ok f)
            × ((journal_of s').facts ≡ j.facts ++ new_fill j f ++ r ∷ []))
  unfolding settle
  reprocess_commits q proof_reference n s {b} {s'} h =
      let run = reprocess-settle q proof_reference n s h in
      let r = Fact.quarantine_released (release_of ext q proof_reference) in
      elim (Option-cases (find? (is_event r) (journal_of s).facts)) [
        | inl p ↦
            let fresh = rw p at run in
            let (f, t, a, l, e) =
              release_fill-eq_ok (journal_of s) (release_of ext q proof_reference) n s {b = b}
                {s' = s'} fresh in
            inr (t, f, a, l, e)
        | inr (g, p) ↦ elim (Bool-cases (same_fact g r)) [
          | inl same ↦
              let e : g ≡ r = (decided_iff (Fact-discrete g r)).0 same in
              inl (
                ground (arith, rw (p, same) at run),
                ground (arith, rw (p, same) at run),
                p ∙ ap some e,
              )
          | inr other ↦ absurd (ground (arith, rw (p, other) at run))
        ]
      ]
