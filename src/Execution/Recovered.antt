-- ===== src/Execution/Recovered.antt =====
-- `VirtualDispatcher.recover` of execution/virtual.py: its report and its entries.
use cherry_pulse_kr.Prelude.{
  ℕ, ◌+◌, ◌≡◌, sym, ap, ◌∙◌, inl, inr, List, [], ◌∷◌, ◌++◌, map, append_assoc, append-nil, arith,
  if◌then◌else◌, nat_eq, string_eq, Bool-cases, keep, ok,
}
use cherry_pulse_kr.Execution.Models.{Uuid, side_eq, environment_eq, Request}
use cherry_pulse_kr.Execution.Facts.{Fact}
use cherry_pulse_kr.Execution.Journal.{Journal}
use cherry_pulse_kr.Execution.Outcomes.{request_state}
use cherry_pulse_kr.Execution.External.{External}
use cherry_pulse_kr.Execution.Transaction.{Store, Method, pure, read_journal, ◌>>=◌}
use cherry_pulse_kr.Execution.Claim.{transport_fact}
use cherry_pulse_kr.Execution.Recovery.{
  recovery_state, needs_recovery, append_recovery, recover_all, recovery,
}
use cherry_pulse_kr.Execution.Ingest.{fact_entry}
use cherry_pulse_kr.Execution.History.{
  journal_of, append_entry-extend, transaction-eq_ok, bind-eq_ok,
}
use cherry_pulse_kr.Execution.External.{External}

-- the facts for the requests that need it, in their order
abbrev pub recovery_facts : Journal → List Request → (ℕ → Uuid) → List Fact
recovery_facts j [] fresh = []
recovery_facts j (r ∷ rs) fresh =
    let rest : List Fact = recovery_facts j rs (λ n. fresh (n + 1)) in
    if needs_recovery j r
    then transport_fact (fresh 0) r.request_id (recovery_state (request_state j r)) ∷ rest
    else rest

module _ (ext : External) where
  append_recovery-eq_ok :
      (j : Journal) (r : Request) (n : Uuid) (s : Store) {u : Unit {0}} {s' : Store}
      → append_recovery ext j r n s ≡ ok (u, s')
      → (journal_of s').facts
        ≡ (journal_of s).facts
          ++ transport_fact n r.request_id (recovery_state (request_state j r)) ∷ []
  unfolding append_recovery
  append_recovery-eq_ok j r n s h =
      ap (λ (k : Journal). k.facts)
        (append_entry-extend
          (fact_entry ext (transport_fact n r.request_id (recovery_state (request_state j r)))) s h)

  recover_all-eq_ok :
      (j : Journal) (rs : List Request) (fresh : ℕ → Uuid) (s : Store) {ids : List Uuid}
      {s' : Store}
      → recover_all ext j rs fresh s ≡ ok (ids, s')
      → (ids ≡ map (λ r. r.request_id) (keep (needs_recovery j) rs))
        × ((journal_of s').facts ≡ (journal_of s).facts ++ recovery_facts j rs fresh)
  unfolding recover_all
  recover_all-eq_ok j [] fresh s {ids} {s'} h =
      let e : s' ≡ s = ground arith in
      (
        ground arith,
        ap (λ (k : Store). (journal_of k).facts) e ∙ sym (append-nil (journal_of s).facts),
      )
  recover_all-eq_ok j (r ∷ rs) fresh s {ids} {s'} h = elim (Bool-cases (needs_recovery j r)) [
    | inr settled ↦
        let (a, b) =
          recover_all-eq_ok j rs (λ n. fresh (n + 1)) s {ids = ids} {s' = s'}
            (rw (settled, recover_all) at h) in
        rw settled (a, b)
    | inl needed ↦
        let go : List Uuid → Method (List Uuid) = λ found. pure (r.request_id ∷ found) in
        let loop : Method (List Uuid) = recover_all ext j rs (λ n. fresh (n + 1)) in
        let (u, t, p, q) =
          bind-eq_ok (append_recovery ext j r (fresh 0)) (λ u. loop >>= go) s
            (rw (needed, recover_all) at h) in
        let (found, t', p', q') = bind-eq_ok loop go t q in
        let (a, b) = recover_all-eq_ok j rs (λ n. fresh (n + 1)) t p' in
        let e : t' ≡ s' = ground arith in
        let i : ids ≡ r.request_id ∷ found = ground arith in
        rw needed (
          i ∙ ap (λ xs. r.request_id ∷ xs) a,
          ap (λ (k : Store). (journal_of k).facts) (sym e)
              ∙ b
              ∙ ap (λ fs. fs ++ recovery_facts j rs (λ n. fresh (n + 1)))
                  (append_recovery-eq_ok j r (fresh 0) s p)
              ∙ append_assoc (journal_of s).facts _ _,
        )
  ]

  -- A recovery that returns reports exactly the accepted requests whose status is unresolved, in
  -- the order of the journal, and adds to the facts one transport fact for each of them: unknown
  -- for one that was being sent, reconciling for the others.
  pub recovery-eq_ok :
      (fresh : ℕ → Uuid) (s : Store) {ids : List Uuid} {s' : Store}
      → recovery ext fresh s ≡ ok (ids, s')
      → let j = journal_of s in
        (ids ≡ map (λ r. r.request_id) (keep (needs_recovery j) j.requests))
        × ((journal_of s').facts ≡ j.facts ++ recovery_facts j j.requests fresh)
  unfolding recovery read_journal journal_of
  recovery-eq_ok fresh s h =
      recover_all-eq_ok (journal_of s) (journal_of s).requests fresh s (transaction-eq_ok _ s h).1
