-- ===== src/Execution/StoppedBuys.antt =====
-- When `Ledger.submit` of execution/ledger.py refuses every buy of a symbol, said of the entries of
-- the journal.
use cherry_pulse_kr.Prelude.{
  ◌≡◌, refl, sym, ap, ◌∙◌, ◌≢◌, inl, inr, true, false, none, List, [], ◌∷◌, arith, ◌==◌, nat_eq,
  string_eq, find?, Bool-cases, Result-cases, IsLast, get_last?-IsLast, Has, any-Has, any-none, ok,
  err,
}
use cherry_pulse_kr.Execution.Models.{
  Uuid, Key, Datetime, Side, LedgerError, side_eq, environment_eq, StopLatch, Control, New,
  OrderCommand, Request,
}
use cherry_pulse_kr.Execution.Facts.{
  Fact, Discrepancy, Reconciled, QuarantinedFill, QuarantineReleased,
}
use cherry_pulse_kr.Execution.Journal.{Journal}
use cherry_pulse_kr.Execution.Portfolio.{
  Portfolio, Tally, tally_new, tally_sell, tally, scan, portfolio, start, report, last_control,
  resolves, releases, blocks,
}
use cherry_pulse_kr.Execution.Reservation.{scan-cons}
use cherry_pulse_kr.Execution.External.{External}
use cherry_pulse_kr.Execution.Transaction.{Store}
use cherry_pulse_kr.Execution.Submit.{submit, has_key, is_latched}
use cherry_pulse_kr.Execution.Replay.{submit-eq_ok, create-eq_ok}
use cherry_pulse_kr.Execution.Admission.{created-buy}
use cherry_pulse_kr.Execution.History.{journal_of}

-- Buys of the symbol are stopped: a stop is latched, the last control stops entries, or there is
-- evidence that nobody resolved.
pub data IsStopped (j : Journal) (symbol : Key) : Type 0 where
  latched : (l : StopLatch) → Has l j.stop_latches → l.symbol ≡ symbol → IsStopped j symbol
  controlled :
      (k : Control)
      → IsLast (λ d. d.symbol == symbol) k j.controls
      → k.entry_stopped ≡ true
      → IsStopped j symbol
  disputed :
      (f : Discrepancy)
      → Has (Fact.discrepancy f) j.facts
      → f.symbol ≡ symbol
      → ((g : Reconciled)
          → Has (Fact.reconciled g) j.facts
          → g.symbol ≡ symbol
          → g.discrepancy_id ≢ f.event_id)
      → IsStopped j symbol
  quarantined :
      (f : QuarantinedFill)
      → Has (Fact.quarantined_fill f) j.facts
      → f.symbol ≡ symbol
      → ((g : QuarantineReleased)
          → Has (Fact.quarantine_released g) j.facts
          → g.quarantine_id ≢ f.event_id)
      → IsStopped j symbol

latched-is_latched :
    (symbol : Key) (ls : List StopLatch) (l : StopLatch)
    → Has l ls
    → l.symbol ≡ symbol
    → is_latched symbol ls ≡ true
latched-is_latched symbol ls l h e =
    any-Has (λ x. x.symbol == symbol) ls h ((string_eq.equal_iff _ _).1 e)

-- no fact resolves the discrepancy
unresolved_fact :
    (symbol : Key) (id : Uuid) (fs : List Fact)
    → ((g : Reconciled) → Has (Fact.reconciled g) fs → g.symbol ≡ symbol → g.discrepancy_id ≢ id)
    → (x : Fact) → Has x fs
    → resolves symbol id x ≡ false
unresolved_fact symbol id fs h (Fact.reconciled g) p = elim (Bool-cases (g.symbol == symbol)) [
  | inr other ↦ ground (arith, other)
  | inl here ↦ elim (Bool-cases (g.discrepancy_id == id)) [
    | inl same ↦ absurd (
        h g p ((string_eq.equal_iff g.symbol symbol).0 here)
          ((nat_eq.equal_iff g.discrepancy_id id).0 same))
    | inr other ↦ ground (arith, other)
  ]
]
unresolved_fact symbol id fs h _ p = refl

unreleased_fact :
    (id : Uuid) (fs : List Fact)
    → ((g : QuarantineReleased) → Has (Fact.quarantine_released g) fs → g.quarantine_id ≢ id)
    → (x : Fact) → Has x fs
    → releases id x ≡ false
unreleased_fact id fs h (Fact.quarantine_released g) p = elim (Bool-cases (g.quarantine_id == id)) [
  | inl same ↦ absurd (h g p ((nat_eq.equal_iff g.quarantine_id id).0 same))
  | inr other ↦ other
]
unreleased_fact id fs h _ p = refl

-- A discrepancy that the loop over the requests begins with stays.
tally-discrepancy :
    (j : Journal) (r : Request) (t : Tally) {u : Tally}
    → t.discrepancy ≡ true
    → tally j r t ≡ ok u
    → u.discrepancy ≡ true
unfolding tally tally_new tally_sell
tally-discrepancy j r t d h = ground arith

scan-discrepancy :
    (j : Journal) (symbol : Key) (rs : List Request) (t : Tally) {u : Tally}
    → t.discrepancy ≡ true
    → scan j symbol rs t ≡ ok u
    → u.discrepancy ≡ true
unfolding scan
scan-discrepancy j symbol [] t d h = ground (arith, d, h)
scan-discrepancy j symbol (r ∷ rs) t {u} d h = elim (scan-cons j symbol r rs t h) [
  | inl (other, rest) ↦ scan-discrepancy j symbol rs t d rest
  | inr (v, same, one, rest) ↦ scan-discrepancy j symbol rs v (tally-discrepancy j r t d one) rest
]

-- An unresolved fact of the symbol shows in the portfolio.
portfolio-blocked :
    (j : Journal) (symbol : Key) (x : Fact) {p : Portfolio}
    → Has x j.facts
    → blocks symbol j.facts x ≡ true
    → portfolio j symbol ≡ ok p
    → p.reconciliation_required ≡ true
unfolding portfolio start report
portfolio-blocked j symbol x {p} has hit h =
    elim (Result-cases (scan j symbol j.requests (start j symbol))) [
      | inr (e, q) ↦ absurd (ground (arith, rw (q, portfolio) at h))
      | inl (t, q) ↦
          let e : report j symbol t ≡ p = ground (arith, rw (q, portfolio) at h) in
          let begun : (start j symbol).discrepancy ≡ true =
            any-Has (blocks symbol j.facts) j.facts has hit in
          let kept = scan-discrepancy j symbol j.requests (start j symbol) begun q in
          ap (λ y. y.reconciliation_required) (sym e) ∙ rw (report, kept) refl
    ]

portfolio-controlled :
    (j : Journal) (symbol : Key) (k : Control) {p : Portfolio}
    → IsLast (λ d. d.symbol == symbol) k j.controls
    → k.entry_stopped ≡ true
    → portfolio j symbol ≡ ok p
    → p.entry_stopped ≡ true
unfolding portfolio report
portfolio-controlled j symbol k {p} last stops h =
    elim (Result-cases (scan j symbol j.requests (start j symbol))) [
      | inr (e, q) ↦ absurd (ground (arith, rw (q, portfolio) at h))
      | inl (t, q) ↦
          let e : report j symbol t ≡ p = ground (arith, rw (q, portfolio) at h) in
          ap (λ y. y.entry_stopped) (sym e)
          ∙ rw (report, last_control, get_last?-IsLast (λ d. d.symbol == symbol) j.controls last)
              stops
    ]

-- No buy of the symbol passes the checks.
IsStopped-blocks :
    (j : Journal) (symbol : Key) (p : Portfolio)
    → IsStopped j symbol
    → portfolio j symbol ≡ ok p
    → p.entry_stopped ≡ false
    → p.reconciliation_required ≡ false
    → is_latched symbol j.stop_latches ≡ true
IsStopped-blocks j symbol p (IsStopped.latched l has e) h a b =
    latched-is_latched symbol j.stop_latches l has e
IsStopped-blocks j symbol p (IsStopped.controlled k last stops) h a b =
    absurd (ground (arith, a, portfolio-controlled j symbol k last stops h))
IsStopped-blocks j symbol p (IsStopped.disputed f has e open_f) h a b =
    let none_resolves =
      any-none (resolves symbol f.event_id) j.facts
        (unresolved_fact symbol f.event_id j.facts open_f) in
    let hit : blocks symbol j.facts (Fact.discrepancy f) ≡ true =
      rw (none_resolves, (string_eq.equal_iff f.symbol symbol).1 e) refl in
    absurd (ground (arith, b, portfolio-blocked j symbol (Fact.discrepancy f) has hit h))
IsStopped-blocks j symbol p (IsStopped.quarantined f has e held) h a b =
    let none_releases =
      any-none (releases f.event_id) j.facts (unreleased_fact f.event_id j.facts held) in
    let hit : blocks symbol j.facts (Fact.quarantined_fill f) ≡ true =
      rw (none_releases, (string_eq.equal_iff f.symbol symbol).1 e) refl in
    absurd (ground (arith, b, portfolio-blocked j symbol (Fact.quarantined_fill f) has hit h))

module _ (ext : External) where
  -- While buys of a symbol are stopped, that is while the journal has a latch of the symbol, or
  -- the last control of the symbol stops entries, or a discrepancy of the symbol that no
  -- reconciliation of the symbol resolves, or a quarantined fill of the symbol that no release
  -- names, every buy of the symbol under a key that the journal does not have is refused with an
  -- error.
  pub stopped_buy_refused :
      (c : New) (now : Datetime) (o r : Uuid) (s : Store)
      → c.side ≡ Side.buy
      → IsStopped (journal_of s) c.symbol
      → find? (has_key (OrderCommand.new c)) (journal_of s).requests ≡ none
      → (e : LedgerError) × (submit ext (OrderCommand.new c) now o r s ≡ err e)
  stopped_buy_refused c now o r s buys stopped fresh =
      elim (Result-cases (submit ext (OrderCommand.new c) now o r s)) [
        | inr (e, h) ↦ (e, h)
        | inl ((x, s'), h) ↦ elim (submit-eq_ok ext (OrderCommand.new c) now o r s h) [
          | inl (y, known, b, d, q) ↦ absurd (ground (arith, fresh, known))
          | inr (unknown, made) ↦
              let (u, t, a, e, b, d, q) =
                create-eq_ok ext (journal_of s) (OrderCommand.new c) now o r s made in
              let (p, found, entries, clear, unlatched) =
                created-buy ext c now o r s buys h (ap (λ y. y.created) e) in
              absurd (
                ground (
                  arith,
                  unlatched,
                  IsStopped-blocks (journal_of s) c.symbol p stopped found entries clear,
                ))
        ]
      ]
