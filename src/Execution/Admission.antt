-- ===== src/Execution/Admission.antt =====
-- The checks of `Ledger.submit` of execution/ledger.py on a command that it creates.
use cherry_pulse_kr.Execution.Ready.{IsReady}
use cherry_pulse_kr.Execution.InForce.{IsFreshAt, IsStaleAt, check_freshness-cases}
use cherry_pulse_kr.Prelude.{
  ◌≡◌, refl, inl, inr, true, false, arith, nat_eq, string_eq, ok, Result-cases, ◌⊎◌, err, none,
  find?, ◌∙◌,
}
use cherry_pulse_kr.Execution.Models.{
  Uuid, Datetime, Side, side_eq, environment_eq, New, OrderCommand, LedgerError,
}
use cherry_pulse_kr.Execution.Journal.{Journal}
use cherry_pulse_kr.Execution.External.{External}
use cherry_pulse_kr.Execution.Validation.{check_new, check_command}
use cherry_pulse_kr.Execution.Transaction.{Store, ensure_ready}
use cherry_pulse_kr.Execution.Portfolio.{Portfolio, portfolio}
use cherry_pulse_kr.Execution.Submit.{
  Submission, submit, admit, is_latched, create, has_key, answer,
}
use cherry_pulse_kr.Execution.External.{External}
use cherry_pulse_kr.Execution.History.{journal_of, bind-ok, ensure_ready-ok}
use cherry_pulse_kr.Execution.Replay.{create-eq_ok, submit-eq_ok, submit-answer}
use cherry_pulse_kr.Execution.SellSafety.{admit-checked}

check_new-buy :
    (j : Journal) (c : New)
    → c.side ≡ Side.buy
    → check_new j c ≡ ok tt
    → (p : Portfolio) × (portfolio j c.symbol ≡ ok p)
      × (p.entry_stopped ≡ false)
      × (p.reconciliation_required ≡ false)
unfolding check_new
check_new-buy j c e h = elim (Result-cases (portfolio j c.symbol)) [
  | inl (p, q) ↦ (p, q, ground (arith, rw (q, e) at h), ground (arith, rw (q, e) at h))
  | inr (x, q) ↦ absurd (ground (arith, rw q at h))
]

module _ (ext : External) where
  -- A submission that made a request was admitted.
  created-admitted :
      (c : OrderCommand) (now : Datetime) (o r : Uuid) (s : Store) {x : Submission} {s' : Store}
      → submit ext c now o r s ≡ ok (x, s')
      → x.created ≡ true
      → admit (journal_of s) c now ≡ ok tt
  created-admitted c now o r s {x} {s'} h made = elim (submit-eq_ok ext c now o r s h) [
    | inl (y, a, b, e, d) ↦ absurd (ground (arith, rw e at made))
    | inr (unknown, h') ↦ (create-eq_ok ext (journal_of s) c now o r s {x = x} {s' = s'} h').2
  ]

  -- In a session that is ready, a command under a key that the journal does not have is either
  -- fresh (the clock has a time zone, its reading is before the deadline if there is one, and
  -- the command has the version of the last configuration of its symbol, or version 1 where
  -- there is none), or it is refused: for a clock without a time zone, else for a deadline that
  -- is reached or past, else for another version, each with its own error code.
  pub stale_refused :
      (c : OrderCommand) (now : Datetime) (o r : Uuid) (s : Store)
      → IsReady s
      → find? (has_key c) (journal_of s).requests ≡ none
      → IsFreshAt (journal_of s) c now
        ⊎ ((e : LedgerError) × IsStaleAt (journal_of s) c now e × (submit ext c now o r s ≡ err e))
  unfolding create admit answer ensure_ready
  stale_refused c now o r s ready unknown = elim (check_freshness-cases (journal_of s) c now) [
    | inl (passed, fresh) ↦ inl fresh
    | inr (e, refused, stale) ↦
        let called : submit ext c now o r s ≡ create ext (journal_of s) c now o r s =
          submit-answer ext c now o r s ready.operating ∙ rw unknown refl in
        let admitted : admit (journal_of s) c now ≡ err e = rw (admit, refused) refl in
        inr (
          e,
          stale,
          called ∙ bind-ok ensure_ready _ s (ensure_ready-ok s ready.ready) ∙ rw admitted refl,
        )
  ]

  -- A buy that was created was admitted with its symbol neither stopped for entry nor in need of
  -- reconciliation, and with no stop of the symbol latched.
  pub created-buy :
      (c : New) (now : Datetime) (o r : Uuid) (s : Store) {x : Submission} {s' : Store}
      → c.side ≡ Side.buy
      → submit ext (OrderCommand.new c) now o r s ≡ ok (x, s')
      → x.created ≡ true
      → (p : Portfolio) × (portfolio (journal_of s) c.symbol ≡ ok p)
        × (p.entry_stopped ≡ false)
        × (p.reconciliation_required ≡ false)
        × (is_latched c.symbol (journal_of s).stop_latches ≡ false)
  unfolding check_command
  created-buy c now o r s e h made =
      let a =
        admit-checked (journal_of s) (OrderCommand.new c) now
          (created-admitted (OrderCommand.new c) now o r s h made) in
      let (p, q, b, d) = check_new-buy (journal_of s) c e a.3 in
      (p, q, b, d, ground (arith, rw e at (a.1)))
