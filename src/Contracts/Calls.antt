-- ===== src/Contracts/Calls.antt =====
-- contracts/inbox.py: sequences of calls of the inbox, and what they do to its table.
use cherry_pulse_kr.Prelude.{
  ℕ, ◌≡◌, refl, ◌≢◌, ◌⊎◌, inl, inr, Bool, true, Option, none, some, List, arith, ◌==◌, nat_eq,
  string_eq, Bool-cases, ok, Result-cases,
}
use cherry_pulse_kr.Execution.Models.{Uuid, Key, Environment, environment_eq}
use cherry_pulse_kr.Contracts.Settings.{ConfigCommand}
use cherry_pulse_kr.Contracts.Inbox.{
  ApplyState, ApplyReason, InboxApplication, ConfigRow, row_accepted,
}
use cherry_pulse_kr.Contracts.Application.{
  set_state, set_applied, starts, update_id, accepted_row, begin_apply, begin_row, block_apply,
  block_row, mark_applied, mark_row,
}
use cherry_pulse_kr.Contracts.Moves.{Moves, Evolves-refl, starts-Startable}
use cherry_pulse_kr.Contracts.Sound.{
  RowSound, IsSound, Progress, Inert, update-Progress, accepted_row-eq_ok,
}

-- whether a row is being applied
pub State-cases : (q : ApplyState) → (q ≡ ApplyState.applying) ⊎ (q ≢ ApplyState.applying)
State-cases ApplyState.applying = inl refl
State-cases ApplyState.not_applied = inr (λ e. cc)
State-cases ApplyState.applied = inr (λ e. cc)
State-cases ApplyState.apply_blocked = inr (λ e. cc)

module _ (digest : ConfigCommand → ℕ) (account_of : Uuid → Key × Environment) where
  abbrev Sound : List ConfigRow → Type 0
  Sound = IsSound digest account_of

  abbrev Moved : List ConfigRow → List ConfigRow → Type 0
  Moved = Progress digest account_of

  Moved-refl : (rows : List ConfigRow) → Sound rows → Moved rows rows
  Moved-refl rows s = record { evolves = Evolves-refl rows; sound = s }

  set_state-Inert :
      (state : ApplyState) (reason : Option ApplyReason)
      → Inert digest account_of (set_state state reason)
  set_state-Inert state reason = record { right = λ x y. refl; left = λ x y. refl }

  set_applied-Inert : (n : ℕ) → Inert digest account_of (set_applied n)
  set_applied-Inert n = record { right = λ x y. refl; left = λ x y. refl }

  set_state-RowSound :
      (state : ApplyState) (reason : Option ApplyReason) (r : ConfigRow)
      → row_accepted r ≡ true
      → state ≢ ApplyState.applied
      → RowSound digest account_of r
      → RowSound digest account_of (set_state state reason r)
  set_state-RowSound state reason r a ne s = record {
    account = s.account;
    environment = s.environment;
    symbol = s.symbol;
    key = s.key;
    id = s.id;
    fingerprint = s.fingerprint;
    owner = s.owner;
    version = s.version;
    unapplied = λ h. absurd (ground (arith, a, h));
    applied = λ h. absurd (ne h);
  }

  set_applied-RowSound :
      (r : ConfigRow)
      → row_accepted r ≡ true
      → RowSound digest account_of r
      → RowSound digest account_of (set_applied r.payload.settings.version r)
  set_applied-RowSound r a s = record {
    account = s.account;
    environment = s.environment;
    symbol = s.symbol;
    key = s.key;
    id = s.id;
    fingerprint = s.fingerprint;
    owner = s.owner;
    version = s.version;
    unapplied = λ h. absurd (ground (arith, a, h));
    applied = λ h. refl;
  }

  -- a step from the state that is being applied
  applying-Progress :
      (id : Uuid) (f : ConfigRow → ConfigRow) (rows : List ConfigRow) {r : ConfigRow}
      {rows' : List ConfigRow}
      → Sound rows
      → accepted_row id rows ≡ ok r
      → Inert digest account_of f
      → Moves r (f r)
      → (row_accepted r ≡ true → RowSound digest account_of r → RowSound digest account_of (f r))
      → rows' ≡ update_id id f rows
      → Moved rows rows'
  applying-Progress id f rows s p n m g e =
      rw e
        (update-Progress digest account_of id f rows s p n m (g (accepted_row-eq_ok id rows p).1))

  begin_row-Progress :
      (id : Uuid) (retry : Bool) (r : ConfigRow) (rows : List ConfigRow) {a : InboxApplication}
      {rows' : List ConfigRow}
      → Sound rows
      → accepted_row id rows ≡ ok r
      → begin_row id retry r rows ≡ ok (a, rows')
      → Moved rows rows'
  begin_row-Progress id retry r rows {a} {rows'} s p h = elim (Bool-cases (starts retry r)) [
    | inr idle ↦
        let e : rows' ≡ rows = ground (arith, rw (idle, begin_row) at h) in rw e (Moved-refl rows s)
    | inl starting ↦
        applying-Progress id (set_state ApplyState.applying none) rows s p (set_state-Inert _ _)
          (Moves.begins retry (starts-Startable retry r starting) refl)
          (λ acc. set_state-RowSound ApplyState.applying none r acc (λ q. cc))
          (ground (arith, rw (starting, begin_row) at h))
  ]

  block_row-Progress :
      (id : Uuid) (reason : ApplyReason) (r : ConfigRow) (rows : List ConfigRow)
      {a : InboxApplication} {rows' : List ConfigRow}
      → Sound rows
      → accepted_row id rows ≡ ok r
      → block_row id reason r rows ≡ ok (a, rows')
      → Moved rows rows'
  block_row-Progress id reason r rows {a} {rows'} s p h = elim (State-cases r.apply_state) [
    | inl going ↦
        applying-Progress id (set_state ApplyState.apply_blocked (some reason)) rows s p
          (set_state-Inert _ _) (Moves.halts reason going refl)
          (λ acc. set_state-RowSound ApplyState.apply_blocked (some reason) r acc (λ q. cc))
          (ground (arith, rw (block_row, going) at h))
    | inr other ↦ let e : rows' ≡ rows = ground (arith, h, other) in rw e (Moved-refl rows s)
  ]

  mark_row-Progress :
      (id : Uuid) (n : ℕ) (r : ConfigRow) (rows : List ConfigRow) {a : InboxApplication}
      {rows' : List ConfigRow}
      → Sound rows
      → accepted_row id rows ≡ ok r
      → n ≡ r.payload.settings.version
      → mark_row id n r rows ≡ ok (a, rows')
      → Moved rows rows'
  mark_row-Progress id n r rows {a} {rows'} s p v h = elim (State-cases r.apply_state) [
    | inl going ↦
        applying-Progress id (set_applied r.payload.settings.version) rows s p (set_applied-Inert _)
          (Moves.completes going refl) (set_applied-RowSound r)
          (ground (arith, rw (mark_row, going, v) at h))
    | inr other ↦ let e : rows' ≡ rows = ground (arith, h, other) in rw e (Moved-refl rows s)
  ]

  pub begin_apply-Progress :
      (id : Uuid) (retry : Bool) (rows : List ConfigRow) {a : InboxApplication}
      {rows' : List ConfigRow}
      → Sound rows
      → begin_apply id retry rows ≡ ok (a, rows')
      → Moved rows rows'
  unfolding begin_apply
  begin_apply-Progress id retry rows s h = elim (Result-cases (accepted_row id rows)) [
    | inr (e, p) ↦ absurd (ground (arith, rw (p, begin_apply) at h))
    | inl (r, p) ↦ begin_row-Progress id retry r rows s p (rw (p, begin_apply) at h)
  ]

  pub block_apply-Progress :
      (id : Uuid) (reason : ApplyReason) (rows : List ConfigRow) {a : InboxApplication}
      {rows' : List ConfigRow}
      → Sound rows
      → block_apply id reason rows ≡ ok (a, rows')
      → Moved rows rows'
  unfolding block_apply
  block_apply-Progress id reason rows s h = elim (Result-cases (accepted_row id rows)) [
    | inr (e, p) ↦ absurd (ground (arith, rw (p, block_apply) at h))
    | inl (r, p) ↦ block_row-Progress id reason r rows s p (rw (p, block_apply) at h)
  ]

  pub mark_applied-Progress :
      (id : Uuid) (fingerprint n : ℕ) (rows : List ConfigRow) {a : InboxApplication}
      {rows' : List ConfigRow}
      → Sound rows
      → mark_applied id fingerprint n rows ≡ ok (a, rows')
      → Moved rows rows'
  unfolding mark_applied
  mark_applied-Progress id fingerprint n rows s h = elim (Result-cases (accepted_row id rows)) [
    | inr (e, p) ↦ absurd (ground (arith, rw (p, mark_applied) at h))
    | inl (r, p) ↦
        let k = rw (p, mark_applied) at h in
        elim (Bool-cases (r.digest == fingerprint)) [
          | inr differs ↦ absurd (ground (arith, rw (differs) at k))
          | inl same ↦ elim (Bool-cases (n == r.payload.settings.version)) [
            | inr differs ↦ absurd (ground (arith, rw (same, differs) at k))
            | inl v ↦
                mark_row-Progress id n r rows s p ((nat_eq.equal_iff _ _).0 v) (rw (same, v) at k)
          ]
        ]
  ]
