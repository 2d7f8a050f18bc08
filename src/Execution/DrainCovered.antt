-- ===== src/Execution/DrainCovered.antt =====
-- What `VirtualDispatcher.drain_virtual_stop` (execution/virtual.py) submits.
use cherry_pulse_kr.Prelude.{
  ℕ, ◌≡◌, refl, sym, subst, ◌∙◌, ap, true, inl, inr, arith, nat_eq, string_eq, Bool-cases,
  Option-cases, Result-cases, Option, none, some, List, any, ok, err, if◌then◌else◌,
}
use cherry_pulse_kr.Execution.Models.{
  Uuid, Key, Datetime, OrderCommand, Request, StopLatch, side_eq, environment_eq, Raises,
}
use cherry_pulse_kr.Execution.Journal.{Journal}
use cherry_pulse_kr.Execution.External.{External}
use cherry_pulse_kr.Execution.Transaction.{Store, Method, lift, read_journal}
use cherry_pulse_kr.Execution.Portfolio.{Portfolio, portfolio}
use cherry_pulse_kr.Execution.Submit.{submit}
use cherry_pulse_kr.Execution.Review.{virtual_stop_obligations}
use cherry_pulse_kr.Execution.StopObligations.{StopObligationView, stop_obligation_views}
use cherry_pulse_kr.Execution.Claim.{Session}
use cherry_pulse_kr.Execution.Dispatcher.{Dispatcher, Action, return, run, ◌>>=◌}
use cherry_pulse_kr.Execution.StopQuotes.{latch_for}
use cherry_pulse_kr.Execution.StopCandidates.{virtual_latched_stop_candidate}
use cherry_pulse_kr.Execution.Drain.{
  snapshot, latched_stop_candidate, is_open, failed_sell, is_candidate, is_caught, stop_command,
  try_submit, send_and_acknowledge, sell_candidate, drain_candidate, drain_latched,
  drain_virtual_stop,
}
use cherry_pulse_kr.Contracts.StopEvaluation.{ProtectionStatus, ProtectionDecision}
use cherry_pulse_kr.Execution.CandidateSafety.{IsCovered, virtual_latched_stop_candidate-IsCovered}
use cherry_pulse_kr.Execution.Lease.{lease_ready}
use cherry_pulse_kr.Execution.Replay.{submit-recorded}
use cherry_pulse_kr.Execution.History.{
  journal_of, transaction-eq_ok, read_journal-eq_ok, lift-eq_ok, bind-eq_ok,
}

module _ {A B : Type 0} where
  continued-eq_ok :
      (x : Raises A × Dispatcher) (f : A → Action B) {b : B} {e : Dispatcher}
      → elim x.0 [ ok a ↦ f a x.1 | err y ↦ (err y, x.1) ] ≡ (ok b, e)
      → (a : A) × (d' : Dispatcher) × (x ≡ (ok a, d')) × (f a d' ≡ (ok b, e))
  continued-eq_ok (ok a, d') f h = (a, d', refl, h)
  continued-eq_ok (err y, d') f h = absurd (ground arith)

  action-eq_ok :
      (m : Action A) (f : A → Action B) (d : Dispatcher) {b : B} {e : Dispatcher}
      → (m >>= f) d ≡ (ok b, e)
      → (a : A) × (d' : Dispatcher) × (m d ≡ (ok a, d')) × (f a d' ≡ (ok b, e))
  action-eq_ok m f d h = continued-eq_ok (m d) f h

run-eq_ok :
    {A : Type 0} (m : Method A) (d : Dispatcher) {a : A} {d' : Dispatcher}
    → run m d ≡ (ok a, d')
    → (s : Store) × (m d.store ≡ ok (a, s)) × (d' ≡ record d { store = s })
run-eq_ok m d {a} {d'} h = elim (Result-cases (m d.store)) [
  | inl ((b, s), p) ↦
      let h' = rw (p, run) at h in
      let e1 : b ≡ a = ground arith in
      let e2 : d' ≡ record d { store = s } = ground arith in (s, p ∙ ap (λ x. ok (x, s)) e1, e2)
  | inr (x, p) ↦ absurd (ground (arith, rw (p, run) at h))
]

snapshot-eq_ok :
    (s : Store) {j : Journal} {s' : Store} → snapshot s ≡ ok (j, s') → (j ≡ journal_of s) × (s' ≡ s)
unfolding snapshot
snapshot-eq_ok s h = read_journal-eq_ok s (transaction-eq_ok _ s h).1

obligations-eq_ok :
    (symbol : Key) (s : Store) {views : List StopObligationView} {s' : Store}
    → virtual_stop_obligations symbol s ≡ ok (views, s')
    → s' ≡ s
unfolding virtual_stop_obligations
obligations-eq_ok symbol s h =
    let (own, body) = transaction-eq_ok _ s h in
    let view : Journal → Method (List StopObligationView) =
      λ j. lift (stop_obligation_views j symbol) in
    let (j, s1, p, q) = bind-eq_ok read_journal view s body in
    (lift-eq_ok (stop_obligation_views j symbol) s1 q).1 ∙ (read_journal-eq_ok s p).1

candidate-eq_ok :
    (symbol : Key) (s : Store) {c : ProtectionDecision} {s' : Store}
    → latched_stop_candidate symbol s ≡ ok (c, s')
    → c.status ≡ ProtectionStatus.candidate
    → IsCovered (journal_of s) symbol c.unreserved_qty × (s' ≡ s)
unfolding latched_stop_candidate
candidate-eq_ok symbol s {c} {s'} h status = elim (Result-cases (snapshot s)) [
  | inl ((j, t), p) ↦
      let (e1, e2) = snapshot-eq_ok s p in
      let (a, e3) =
        lift-eq_ok (virtual_latched_stop_candidate j (lease_ready t.lease t.process) symbol) t
          (rw (p, latched_stop_candidate) at h) in
      let (on, covered) =
        virtual_latched_stop_candidate-IsCovered j (lease_ready t.lease t.process) symbol a
          status in
      (rw (sym e1) covered, e3 ∙ e2)
  | inr (x, p) ↦ absurd (ground (arith, rw (p, latched_stop_candidate) at h))
]

candidate_status : (s : ProtectionStatus) → is_candidate s ≡ true → s ≡ ProtectionStatus.candidate
candidate_status ProtectionStatus.candidate h = refl
candidate_status ProtectionStatus.blocked h = absurd (ground arith)
candidate_status ProtectionStatus.none_left h = absurd (ground arith)

module _ (ext : External) where
  try_submit-eq_ok :
      (c : OrderCommand) (now : Datetime) (o i : Uuid) (d : Dispatcher) {r : Request}
      {d' : Dispatcher}
      → try_submit ext c now o i d ≡ (ok (some r), d')
      → r.command ≡ c
  unfolding try_submit
  try_submit-eq_ok c now o i d {r} {d'} h = elim (Result-cases (submit ext c now o i d.store)) [
    | inl ((x, s), p) ↦
        let (found, same) = submit-recorded ext c now o i d.store p in
        let e : x.request ≡ r = ground (arith, rw (p, try_submit) at h) in rw (sym e) same
    | inr (x, p) ↦ elim (Bool-cases (is_caught x)) [
      | inl expected ↦ absurd (ground (arith, rw (p, expected, try_submit) at h))
      | inr other ↦ absurd (ground (arith, rw (p, other, try_submit) at h))
    ]
  ]

  sell_candidate-eq_ok :
      (j : Journal) (symbol : Key) (l : StopLatch) (c : ProtectionDecision) (now : Datetime)
      (ids : ℕ → Uuid) (d : Dispatcher) {r : Request} {d' : Dispatcher}
      → sell_candidate ext j symbol l c now ids d ≡ (ok (some r), d')
      → r.command ≡ stop_command ext j symbol l c.unreserved_qty
  unfolding sell_candidate
  sell_candidate-eq_ok j symbol l c now ids d {r} {d'} h =
      let again : Request → Unit {0} → Action (Option Request) = λ y u. return (some y) in
      let sending : Option Request → Action (Option Request) = λ x. elim x [
        | none ↦ return none
        | some y ↦ send_and_acknowledge ext y (some Session.regular) now ids >>= again y
      ] in
      let (x, d1, p, q) =
        action-eq_ok
          (try_submit ext (stop_command ext j symbol l c.unreserved_qty) now (ids 0) (ids 1))
          sending d h in
      elim (Option-cases x) [
        | inl e ↦ absurd (ground (arith, rw e at q))
        | inr (y, e) ↦
            let (u, d2, p2, q2) =
              action-eq_ok (send_and_acknowledge ext y (some Session.regular) now ids) (again y) d1
                (rw e at q) in
            let same : y ≡ r = ground arith in
            rw (sym same) (try_submit-eq_ok _ now (ids 0) (ids 1) d (rw e at p))
      ]

  drain_candidate-eq_ok :
      (j : Journal) (symbol : Key) (l : StopLatch) (now : Datetime) (ids : ℕ → Uuid)
      (d : Dispatcher) {r : Request} {d' : Dispatcher}
      → drain_candidate ext j symbol l now ids d ≡ (ok (some r), d')
      → (c : ProtectionDecision) × (r.command ≡ stop_command ext j symbol l c.unreserved_qty)
        × IsCovered (journal_of d.store) symbol c.unreserved_qty
  drain_candidate-eq_ok j symbol l now ids d {r} {d'} h =
      elim (Bool-cases (any (failed_sell j symbol) j.requests)) [
        | inl failed ↦ absurd (ground (arith, rw (failed, drain_candidate) at h))
        | inr none_failed ↦
            let selling : ProtectionDecision → Action (Option Request) = λ c.
              if is_candidate c.status
              then sell_candidate ext j symbol l c now ids
              else return none in
            let (c, d1, p, q) =
              action-eq_ok (run (latched_stop_candidate symbol)) selling d
                (rw (none_failed, drain_candidate) at h) in
            let (s, p1, e1) = run-eq_ok (latched_stop_candidate symbol) d p in
            elim (Bool-cases (is_candidate c.status)) [
              | inr other ↦ absurd (ground (arith, rw other at q))
              | inl chosen ↦ (
                c,
                sell_candidate-eq_ok j symbol l c now ids d1 (rw chosen at q),
                (candidate-eq_ok symbol d.store p1 (candidate_status c.status chosen)).0,
              )
            ]
      ]

  drain_latched-eq_ok :
      (j : Journal) (symbol : Key) (l : StopLatch) (now : Datetime) (ids : ℕ → Uuid)
      (d : Dispatcher) {r : Request} {d' : Dispatcher}
      → drain_latched ext j symbol l now ids d ≡ (ok (some r), d')
      → (c : ProtectionDecision) × (r.command ≡ stop_command ext j symbol l c.unreserved_qty)
        × IsCovered (journal_of d.store) symbol c.unreserved_qty
  unfolding drain_latched
  drain_latched-eq_ok j symbol l now ids d {r} {d'} h =
      let viewed : List StopObligationView → Action (Option Request) = λ views.
        if any is_open views then return none else drain_candidate ext j symbol l now ids in
      let projected : Portfolio → Action (Option Request) = λ p.
        if p.liquidating then return none else run (virtual_stop_obligations symbol) >>= viewed in
      let (p, d1, a1, h1) = action-eq_ok (run (lift (portfolio j symbol))) projected d h in
      let (s1, b1, e1) = run-eq_ok (lift (portfolio j symbol)) d a1 in
      let t1 : s1 ≡ d.store = (lift-eq_ok (portfolio j symbol) d.store b1).1 in
      elim (Bool-cases p.liquidating) [
        | inl busy ↦ absurd (ground (arith, rw busy at h1))
        | inr idle ↦
            let (views, d2, a2, h2) =
              action-eq_ok (run (virtual_stop_obligations symbol)) viewed d1 (rw idle at h1) in
            let (s2, b2, e2) = run-eq_ok (virtual_stop_obligations symbol) d1 a2 in
            let t2 : s2 ≡ d1.store = obligations-eq_ok symbol d1.store b2 in
            elim (Bool-cases (any is_open views)) [
              | inl review ↦ absurd (ground (arith, rw review at h2))
              | inr none_open ↦
                  let (c, same, covered) =
                    drain_candidate-eq_ok j symbol l now ids d2 (rw none_open at h2) in
                  let back : d2.store ≡ d.store =
                    ap (λ x. x.store) e2 ∙ t2 ∙ ap (λ x. x.store) e1 ∙ t1 in
                  (
                    c,
                    same,
                    subst (λ s. IsCovered (journal_of s) symbol c.unreserved_qty) back covered,
                  )
            ]
      ]

  -- When draining a stop answers with a request, the symbol has a latch in the journal, and the
  -- request's command is the market sale that is linked to this latch, of all that the portfolio
  -- has available, which is a positive quantity, under no uncertainty about the holdings; the
  -- journal is the one that the drain began with.
  pub drain_virtual_stop-IsCovered :
      (symbol : Key) (session : Session) (now : Datetime) (ids : ℕ → Uuid) (d : Dispatcher)
      {r : Request} {d' : Dispatcher}
      → drain_virtual_stop ext symbol session now ids d ≡ (ok (some r), d')
      → (l : StopLatch) × (c : ProtectionDecision) × (latch_for symbol (journal_of d.store)
          ≡ some l)
        × IsCovered (journal_of d.store) symbol c.unreserved_qty
        × (r.command ≡ stop_command ext (journal_of d.store) symbol l c.unreserved_qty)
  unfolding drain_virtual_stop
  drain_virtual_stop-IsCovered symbol Session.closed now ids d h = absurd (ground arith)
  drain_virtual_stop-IsCovered symbol Session.regular now ids d {r} {d'} h =
      let draining : Journal → Action (Option Request) = λ j. elim (latch_for symbol j) [
        | none ↦ return none
        | some l ↦ drain_latched ext j symbol l now ids
      ] in
      let (j, d1, a1, h1) = action-eq_ok (run snapshot) draining d h in
      let (s1, b1, e1) = run-eq_ok snapshot d a1 in
      let (ej, es) = snapshot-eq_ok d.store b1 in
      let back : d1.store ≡ d.store = ap (λ x. x.store) e1 ∙ es in
      elim (Option-cases (latch_for symbol j)) [
        | inl unlatched ↦ absurd (ground (arith, rw unlatched at h1))
        | inr (l, found) ↦
            let (c, same, covered) = drain_latched-eq_ok j symbol l now ids d1 (rw found at h1) in
            (
              l,
              c,
              subst (λ k. latch_for symbol k ≡ some l) ej found,
              subst (λ s. IsCovered (journal_of s) symbol c.unreserved_qty) back covered,
              subst (λ k. r.command ≡ stop_command ext k symbol l c.unreserved_qty) ej same,
            )
      ]
