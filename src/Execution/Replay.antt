-- ===== src/Execution/Replay.antt =====
-- Repeated calls of `Ledger.submit` of execution/ledger.py.
use cherry_pulse_kr.Prelude.{
  ◌≡◌, refl, sym, ap, ◌∙◌, ◌≢◌, ◌⊎◌, inl, inr, true, false, none, some, List, [], ◌∷◌, arith,
  if◌then◌else◌, ◌==◌, nat_eq, string_eq, decided_iff, Bool-cases, Option-cases, find?,
  find?-append_none, ok, err, subst,
}
use cherry_pulse_kr.Execution.Models.{
  Uuid, Datetime, LedgerError, side_eq, environment_eq, OrderCommand, common, Request,
  OrderCommand-discrete, same_command, StopSellObligation,
}
use cherry_pulse_kr.Execution.Journal.{Journal}
use cherry_pulse_kr.Execution.Lease.{operation}
use cherry_pulse_kr.Execution.Storage.{Payload, Entry}
use cherry_pulse_kr.Execution.Transaction.{
  Store, Method, pure, lift, read_journal, append_entry, ensure_ready,
}
use cherry_pulse_kr.Execution.Submit.{
  Submission, answer, has_key, submit, create, admit, request_for, append_obligation,
  obligation_for,
}
use cherry_pulse_kr.Execution.External.{External}
use cherry_pulse_kr.Execution.Storage.Extend.{extend}
use cherry_pulse_kr.Execution.History.{
  journal_of, Grown, Grown-trans, bind-eq_ok, append_entry-extend, lift-eq_ok, ensure_ready-eq_ok,
  transaction_owned, transaction-eq_ok,
}
use cherry_pulse_kr.Execution.AppendOnly.{submit-Grows, append_obligation-Grows}
use cherry_pulse_kr.Execution.Calls.{Operation, run_all, run_all-Grown}
use cherry_pulse_kr.Execution.Found.{
  find?-requests_Extends, same_command_refl, same_command-ne, key_refl,
}

-- The journal may have one more obligation.
abbrev pub MayOblige : Journal → Journal → Type 0
MayOblige j k =
    (k ≡ j) ⊎ ((b : StopSellObligation) × (k ≡ extend j (Payload.stop_sell_obligation b)))

module _ (ext : External) where
  -- In an owned session `submit` is `answer` on the recorded requests.
  pub submit-answer :
      (c : OrderCommand) (now : Datetime) (o r : Uuid) (s : Store)
      → operation s.lease s.process ≡ ok tt
      → submit ext c now o r s
        ≡ answer c
            (find? (has_key c) (journal_of s).requests)
            (create ext (journal_of s) c now o r)
            s
  unfolding submit read_journal journal_of
  submit-answer c now o r s own = transaction_owned _ s own

  pub submit-owned :
      (c : OrderCommand) (now : Datetime) (o r : Uuid) (s : Store) {x : Submission × Store}
      → submit ext c now o r s ≡ ok x
      → operation s.lease s.process ≡ ok tt
  unfolding submit
  submit-owned c now o r s h = (transaction-eq_ok _ s h).0

  abbrev pub request_entry : OrderCommand → Request → Entry
  request_entry c r = record { key = (common c).key; payload = Payload.request r }

  append_obligation-eq_ok :
      (r : Request) (s : Store) {u : Unit {0}} {s' : Store}
      → append_obligation ext r s ≡ ok (u, s')
      → MayOblige (journal_of s) (journal_of s')
  unfolding append_obligation
  append_obligation-eq_ok r s {u} {s'} h = go r.command h
    where
      same : s' ≡ s → MayOblige (journal_of s) (journal_of s')
      same e = inl (ap journal_of e)

      go :
          (c : OrderCommand)
          → append_obligation ext (record r { command = c }) s ≡ ok (u, s')
          → MayOblige (journal_of s) (journal_of s')
      go (OrderCommand.new c) h = elim (Option-cases c.stop_latch_version) [
        | inl p ↦ same (ground (arith, rw (p, append_obligation) at h))
        | inr (v, p) ↦ inr (
          obligation_for (record r { command = OrderCommand.new c }) c v,
          append_entry-extend _ s (rw (p, append_obligation) at h),
        )
      ]
      go (OrderCommand.amend c) h = same (ground arith)
      go (OrderCommand.cancel c) h = same (ground arith)

  -- What a `create` that returns has done: the checks passed, the request was appended, and
  -- nothing but an obligation came after it.
  pub create-eq_ok :
      (j : Journal) (c : OrderCommand) (now : Datetime) (o r : Uuid) (s : Store) {x : Submission}
      {s' : Store}
      → create ext j c now o r s ≡ ok (x, s')
      → (u : Unit {0}) × (t : Store) × (admit j c now ≡ ok u)
        × (x ≡ record { request = request_for ext c o r; created = true })
        × (journal_of t ≡ extend (journal_of s) (Payload.request (request_for ext c o r)))
        × Grown t s'
        × MayOblige (journal_of t) (journal_of s')
  unfolding create
  create-eq_ok j c now o r s {x} {s'} h =
      let r' : Request = request_for ext c o r in
      let done : Method Submission = pure (record { request = r'; created = true }) in
      let (u1, s1, p1, q1) = bind-eq_ok ensure_ready _ s h in
      let (u2, s2, p2, q2) = bind-eq_ok (lift (admit j c now)) _ s1 q1 in
      let (u3, s3, p3, q3) = bind-eq_ok (append_entry (request_entry c r')) _ s2 q2 in
      let (u4, s4, p4, q4) = bind-eq_ok (append_obligation ext r') (λ _. done) s3 q3 in
      let e1 : s1 ≡ s = (ensure_ready-eq_ok s p1).1 in
      let (a2, e2) = lift-eq_ok (admit j c now) s1 p2 in
      let e4 : s4 ≡ s' = ground arith in
      (
        u2,
        s3,
        a2,
        ground arith,
        append_entry-extend (request_entry c r') s2 p3
            ∙ ap (λ k. extend (journal_of k) (Payload.request r')) (e2 ∙ e1),
        subst (Grown s3) e4 ((append_obligation-Grows ext r').at s3 p4),
        subst (λ k. MayOblige (journal_of s3) (journal_of k)) e4 (append_obligation-eq_ok r' s3 p4),
      )

  -- A submission that returns was a replay, or it was created.
  pub submit-eq_ok :
      (c : OrderCommand) (now : Datetime) (o r : Uuid) (s : Store) {x : Submission} {s' : Store}
      → submit ext c now o r s ≡ ok (x, s')
      → ((y : Request) × (find? (has_key c) (journal_of s).requests ≡ some y)
          × (y.command ≡ c)
          × (x ≡ record { request = y; created = false })
          × (s' ≡ s))
        ⊎ ((find? (has_key c) (journal_of s).requests ≡ none)
            × (create ext (journal_of s) c now o r s ≡ ok (x, s')))
  unfolding answer
  submit-eq_ok c now o r s {x} {s'} h =
      let h' = sym (submit-answer c now o r s (submit-owned c now o r s h)) ∙ h in
      elim (Option-cases (find? (has_key c) (journal_of s).requests)) [
        | inl new_key ↦ inr (new_key, rw new_key at h')
        | inr (y, p) ↦ elim (Bool-cases (same_command y.command c)) [
          | inl same ↦ inl (
            y,
            p,
            (decided_iff (OrderCommand-discrete y.command c)).0 same,
            ground (arith, rw (p, same) at h'),
            ground (arith, rw (p, same) at h'),
          )
          | inr other ↦ absurd (ground (arith, rw (p, other) at h'))
        ]
      ]

  -- After a submission that returned, its request is the one recorded under the command's key,
  -- and it holds the command.
  pub submit-recorded :
      (c : OrderCommand) (now : Datetime) (o r : Uuid) (s : Store) {x : Submission} {s' : Store}
      → submit ext c now o r s ≡ ok (x, s')
      → (find? (has_key c) (journal_of s').requests ≡ some x.request) × (x.request.command ≡ c)
  unfolding request_for
  submit-recorded c now o r s {x} {s'} h = elim (submit-eq_ok c now o r s h) [
    | inl (y, p, q, e, t) ↦ (rw (e, t) p, rw e q)
    | inr (fresh, h') ↦
        let (u, t, a, e, j, g, m) = create-eq_ok (journal_of s) c now o r s {x = x} {s' = s'} h' in
        let found =
          find?-append_none (has_key c) (journal_of s).requests (request_for ext c o r ∷ [])
            fresh in
        (
          rw e (
              find?-requests_Extends (has_key c) g.entries
                (rw (j, found, key_refl (common c).key) refl)),
          rw e refl,
        )
  ]

  submit-known :
      (c : OrderCommand) (now : Datetime) (o r : Uuid) (s : Store) {y : Request}
      → operation s.lease s.process ≡ ok tt
      → find? (has_key c) (journal_of s).requests ≡ some y
      → submit ext c now o r s ≡ (
          if same_command y.command c
          then ok (record { request = y; created = false }, s)
          else err LedgerError.conflict_idempotency_mismatch)
  unfolding answer
  submit-known c now o r s own found = submit-answer c now o r s own ∙ rw found refl

  -- The state that later calls find: the session is owned, and the key is bound to the request.
  later :
      (c : OrderCommand) (now : Datetime) (o r : Uuid) (s : Store) {x : Submission} {s' : Store}
      → submit ext c now o r s ≡ ok (x, s')
      → (ops : List Operation)
      → let t = run_all ext ops s' in
        (operation t.lease t.process ≡ ok tt)
        × (find? (has_key c) (journal_of t).requests ≡ some x.request)
  later c now o r s {x} {s'} h ops =
      let g = Grown-trans ((submit-Grows ext c now o r).at s h) (run_all-Grown ext ops s') in
      (
        rw (g.lease, g.process) (submit-owned c now o r s h),
        find?-requests_Extends (has_key c) (run_all-Grown ext ops s').entries
            (submit-recorded c now o r s h).0,
      )

  -- Once a command was submitted, submitting it again, at any later time and after any other
  -- transactions, returns the request of the first submission and changes nothing.
  pub submit_replay :
      (c : OrderCommand) (now : Datetime) (o r : Uuid) (s : Store) {x : Submission} {s' : Store}
      → submit ext c now o r s ≡ ok (x, s')
      → (ops : List Operation) (now' : Datetime) (o' r' : Uuid)
      → submit ext c now' o' r' (run_all ext ops s')
        ≡ ok (record { request = x.request; created = false }, run_all ext ops s')
  submit_replay c now o r s h ops now' o' r' =
      let (own, found) = later c now o r s h ops in
      submit-known c now' o' r' (run_all ext ops _) own found
      ∙ rw ((submit-recorded c now o r s h).1, same_command_refl c) refl

  -- A different command under the key of one that was submitted is refused as a conflict from
  -- then on, whatever transactions come between.
  pub submit_conflict :
      (c : OrderCommand) (now : Datetime) (o r : Uuid) (s : Store) {x : Submission} {s' : Store}
      → submit ext c now o r s ≡ ok (x, s')
      → (ops : List Operation) (d : OrderCommand) (now' : Datetime) (o' r' : Uuid)
      → (common d).key ≡ (common c).key
      → d ≢ c
      → submit ext d now' o' r' (run_all ext ops s') ≡ err LedgerError.conflict_idempotency_mismatch
  submit_conflict c now o r s {x} {s'} h ops d now' o' r' same_key other =
      let t = run_all ext ops s' in
      let (own, found) = later c now o r s h ops in
      let differs : x.request.command ≢ d =
        λ e. other (sym e ∙ (submit-recorded c now o r s h).1) in
      submit-known d now' o' r' t own (
        subst
          (λ k. find? (λ y. (common y.command).key == k) (journal_of t).requests ≡ some x.request)
          (sym same_key) found)
      ∙ rw (same_command-ne _ _ differs) refl
