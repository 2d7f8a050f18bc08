-- ===== src/Execution/SellSafety.antt =====
-- `Ledger.submit` of execution/ledger.py for sells, and the portfolio of
-- execution/projection.py.
use cherry_pulse_kr.Prelude.{
  ℕ, ◌+◌, ◌≤◌, ◌<◌, ◌≡◌, refl, ap, ◌∙◌, inl, inr, true, false, arith, nat_eq, string_eq, ok,
  Result-cases,
}
use cherry_pulse_kr.Prelude.Int.{pos, ◌-ℤ◌, ◌≤ℤ◌}
use cherry_pulse_kr.Execution.Models.{
  Uuid, Key, Datetime, Side, side_eq, environment_eq, New, OrderCommand, Request,
}
use cherry_pulse_kr.Execution.Journal.{Journal}
use cherry_pulse_kr.Execution.Portfolio.{Portfolio, available, Tally, report, portfolio}
use cherry_pulse_kr.Execution.External.{External}
use cherry_pulse_kr.Execution.Freshness.{check_freshness}
use cherry_pulse_kr.Execution.Validation.{check_new, check_command}
use cherry_pulse_kr.Execution.Storage.Extend.{extend}
use cherry_pulse_kr.Execution.Storage.{Payload}
use cherry_pulse_kr.Execution.Transaction.{Store}
use cherry_pulse_kr.Execution.Submit.{
  Submission, submit, admit, request_for, entry_latched, check_virtual_stop_link,
}
use cherry_pulse_kr.Execution.History.{journal_of}
use cherry_pulse_kr.Execution.Replay.{submit-eq_ok, create-eq_ok, MayOblige}
use cherry_pulse_kr.Execution.FreshOrder.{IsFresh}
use cherry_pulse_kr.Execution.Reservation.{portfolio-fresh, portfolio-obligation, reserving}

-- What `admit` has checked when it returns.
pub admit-checked :
    (j : Journal) (c : OrderCommand) (now : Datetime) {u : Unit {0}}
    → admit j c now ≡ ok u
    → (check_freshness j c now ≡ ok tt)
      × (entry_latched j c ≡ false)
      × (check_virtual_stop_link j c ≡ ok tt)
      × (check_command j c ≡ ok tt)
unfolding admit
admit-checked j c now h = ground arith

-- A sell that passed its check is covered by what is available.
check_new-sell :
    (j : Journal) (c : New)
    → c.side ≡ Side.sell
    → check_new j c ≡ ok tt
    → (p : Portfolio) × (portfolio j c.symbol ≡ ok p) × (c.qty ≤ available p)
unfolding check_new
check_new-sell j c e h = elim (Result-cases (portfolio j c.symbol)) [
  | inl (p, q) ↦ (p, q, ground (arith, rw (q, e) at h))
  | inr (x, q) ↦ absurd (ground (arith, rw q at h))
]

available_bound :
    (p : Portfolio) (n : ℕ)
    → 0 < n
    → n ≤ available p
    → (p.reconciliation_required ≡ false)
      × (p.sell_uncertain ≡ false)
      × (pos (p.reserved + n) ≤ℤ p.managed)
unfolding available ◌-ℤ◌
available_bound p n pos_n h = ground arith

-- The flags stay clear when the tally reserves more, within what is managed.
report-reserved :
    (j : Journal) (symbol : Key) (t : Tally) (n : ℕ)
    → (report j symbol t).reconciliation_required ≡ false
    → pos (t.reserved + n) ≤ℤ t.managed
    → report j symbol (record t { reserved = t.reserved + n })
      ≡ record (report j symbol t) { reserved = t.reserved + n }
unfolding report
report-reserved j symbol t n clear within = ground arith

-- The same for a portfolio that is known to be the report.
report-sell :
    (j : Journal) (c : New) (t : Tally) (p : Portfolio)
    → c.side ≡ Side.sell
    → p ≡ report j c.symbol t
    → p.reconciliation_required ≡ false
    → pos (p.reserved + c.qty) ≤ℤ p.managed
    → report j c.symbol (record t { reserved = t.reserved + reserving c.side c.qty })
      ≡ record p { reserved = p.reserved + c.qty }
unfolding report
report-sell j c t p side e clear within =
    rw (side, e) (report-reserved j c.symbol t c.qty (rw e at clear) (rw e at within))

-- The portfolio after a sell that is fresh and was checked.
portfolio-sell :
    (j : Journal) (r : Request) (c : New)
    → c.side ≡ Side.sell
    → 0 < c.qty
    → IsFresh j r.order_id r.request_id
    → r.command ≡ OrderCommand.new c
    → check_new j c ≡ ok tt
    → (p : Portfolio) × (q : Portfolio) × (portfolio j c.symbol ≡ ok p)
      × (portfolio (extend j (Payload.request r)) c.symbol ≡ ok q)
      × (q ≡ record p { reserved = p.reserved + c.qty })
      × (pos q.reserved ≤ℤ q.managed)
      × (q.sell_uncertain ≡ false)
      × (q.reconciliation_required ≡ false)
portfolio-sell j r c side pos_qty f e h =
    let (p, a, b) = check_new-sell j c side h in
    let (clear, certain, within) = available_bound p c.qty pos_qty b in
    let (t, d, g) = portfolio-fresh j r c f e a in
    let q : Portfolio = record p { reserved = p.reserved + c.qty } in
    (p, q, a, g ∙ ap ok (report-sell j c t p side d clear within), refl, within, certain, clear)

same_portfolio :
    (symbol : Key) {j k : Journal} → MayOblige j k → portfolio k symbol ≡ portfolio j symbol
same_portfolio symbol (inl e) = ap (λ k. portfolio k symbol) e
same_portfolio symbol (inr (b, e)) =
    ap (λ k. portfolio k symbol) e ∙ portfolio-obligation _ b symbol

module _ (ext : External) where
  -- A sell of a positive quantity that is created under fresh identities leaves what is reserved
  -- within what is managed: the symbol's portfolio can be computed before and after, the two
  -- differ by the reserved quantity alone, and neither flag that blocks sells is set.
  pub no_oversell :
      (c : New) (now : Datetime) (o r : Uuid) (s : Store) {x : Submission} {s' : Store}
      → c.side ≡ Side.sell
      → 0 < c.qty
      → IsFresh (journal_of s) o r
      → submit ext (OrderCommand.new c) now o r s ≡ ok (x, s')
      → x.created ≡ true
      → (p : Portfolio) × (q : Portfolio) × (portfolio (journal_of s) c.symbol ≡ ok p)
        × (portfolio (journal_of s') c.symbol ≡ ok q)
        × (q ≡ record p { reserved = p.reserved + c.qty })
        × (pos q.reserved ≤ℤ q.managed)
        × (q.sell_uncertain ≡ false)
        × (q.reconciliation_required ≡ false)
  unfolding check_command request_for
  no_oversell c now o r s {x} {s'} side pos_qty fresh h made =
      elim (submit-eq_ok ext (OrderCommand.new c) now o r s h) [
        | inl (y, a, b, e, d) ↦ absurd (ground (arith, rw e at made))
        | inr (unknown, h') ↦
            let (u, t, a, e, j, g, m) =
              create-eq_ok ext (journal_of s) (OrderCommand.new c) now o r s h' in
            let y = request_for ext (OrderCommand.new c) o r in
            let (p, q, before, after, grown, within, certain, clear) =
              portfolio-sell (journal_of s) y c side pos_qty fresh refl
                (admit-checked (journal_of s) (OrderCommand.new c) now a).3 in
            (
              p,
              q,
              before,
              same_portfolio c.symbol m ∙ ap (λ k. portfolio k c.symbol) j ∙ after,
              grown,
              within,
              certain,
              clear,
            )
      ]
