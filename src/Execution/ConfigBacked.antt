-- ===== src/Execution/ConfigBacked.antt =====
-- execution/config_apply.py: what the inbox calls applied stands in the ledger.
use cherry_pulse_kr.Contracts.Recorded.{receive-eq_ok}
use cherry_pulse_kr.Contracts.Table.{receive-Progress}
use cherry_pulse_kr.Prelude.{
  ℕ, ◌≡◌, refl, ◌⊎◌, inl, inr, Bool, Option, none, some, List, arith, ◌==◌, nat_eq, string_eq,
  Bool-cases, ok, Result-cases,
}
use cherry_pulse_kr.Execution.Models.{
  Uuid, Key, Environment, Datetime, side_eq, environment_eq, AppliedConfig,
}
use cherry_pulse_kr.Execution.Journal.{Journal}
use cherry_pulse_kr.Execution.Transaction.{Store}
use cherry_pulse_kr.Execution.History.{journal_of, Grown}
use cherry_pulse_kr.Execution.InboxConfig.{binding_of}
use cherry_pulse_kr.Execution.InboxApplied.{IsRecorded, IsRecorded-Extends}
use cherry_pulse_kr.Execution.ConfigApply.{Stores}
use cherry_pulse_kr.Execution.ConfigResumed.{accepted_row-update_id}
use cherry_pulse_kr.Contracts.Settings.{ConfigCommand, Actor, ConfigDecision}
use cherry_pulse_kr.Contracts.Inbox.{ApplyState, ApplyReason, ConfigRow, InboxApplication, receive}
use cherry_pulse_kr.Contracts.Application.{
  set_state, set_applied, starts, update_id, application_of, accepted_row, begin_row, begin_apply,
  block_row, block_apply, mark_row, mark_applied,
}
use cherry_pulse_kr.Contracts.Moves.{All, All-map, update_id-All, All-append}
use cherry_pulse_kr.Contracts.Sound.{IsSound, accepted_row-eq_ok, IsSound-IsDistinct}
use cherry_pulse_kr.Contracts.Calls.{
  begin_apply-Progress, block_apply-Progress, mark_applied-Progress, State-cases,
}

-- The row is applied only if the journal has its configuration and binding.
abbrev pub RowBacked : Journal → ConfigRow → Type 0
RowBacked j r =
    r.apply_state ≡ ApplyState.applied
    → (a : AppliedConfig) × IsRecorded j r.payload r.digest (binding_of r.payload.settings) a

begin_apply-eq_ok :
    (id : Uuid) (retry : Bool) (rows : List ConfigRow) {a : InboxApplication}
    {rows' : List ConfigRow}
    → begin_apply id retry rows ≡ ok (a, rows')
    → (r : ConfigRow) × (accepted_row id rows ≡ ok r)
      × (((rows' ≡ rows) × (a ≡ application_of r))
          ⊎ ((rows' ≡ update_id id (set_state ApplyState.applying none) rows)
              × (a ≡ application_of (set_state ApplyState.applying none r))))
unfolding begin_apply
begin_apply-eq_ok id retry rows {a} {rows'} h = elim (Result-cases (accepted_row id rows)) [
  | inr (e, p) ↦ absurd (ground (arith, rw (begin_apply, p) at h))
  | inl (r, p) ↦
      let k : begin_row id retry r rows ≡ ok (a, rows') = rw (begin_apply, p) at h in
      (
        r,
        p,
        elim (Bool-cases (starts retry r)) [
          | inl s ↦ let l = rw (begin_row, s) at k in inr (ground (arith, l), ground (arith, l))
          | inr s ↦ let l = rw (begin_row, s) at k in inl (ground (arith, l), ground (arith, l))
        ],
      )
]

-- the row that is seen stands in the table
pub begin_apply-row :
    (id : Uuid) (retry : Bool) (rows : List ConfigRow) {a : InboxApplication}
    {rows' : List ConfigRow}
    → begin_apply id retry rows ≡ ok (a, rows')
    → (r : ConfigRow) × (accepted_row id rows' ≡ ok r) × (a ≡ application_of r)
begin_apply-row id retry rows h =
    let (r, p, k) = begin_apply-eq_ok id retry rows h in
    elim k [
      | inl (e, a_r) ↦ (r, rw e p, a_r)
      | inr (e, a_r) ↦ (
        set_state ApplyState.applying none r,
        rw e (
            accepted_row-update_id id (set_state ApplyState.applying none) rows (λ x. refl)
              (λ x. refl) p),
        a_r,
      )
    ]

block_apply-eq_ok :
    (id : Uuid) (reason : ApplyReason) (rows : List ConfigRow) {a : InboxApplication}
    {rows' : List ConfigRow}
    → block_apply id reason rows ≡ ok (a, rows')
    → (rows' ≡ rows)
      ⊎ ((r : ConfigRow) × (accepted_row id rows ≡ ok r)
          × (rows' ≡ update_id id (set_state ApplyState.apply_blocked (some reason)) rows))
unfolding block_apply
block_apply-eq_ok id reason rows {a} {rows'} h = elim (Result-cases (accepted_row id rows)) [
  | inr (e, p) ↦ absurd (ground (arith, rw (block_apply, p) at h))
  | inl (r, p) ↦
      let k : block_row id reason r rows ≡ ok (a, rows') = rw (block_apply, p) at h in
      elim (State-cases r.apply_state) [
        | inl going ↦ inr (r, p, ground (arith, rw (block_row, going) at k))
        | inr other ↦ inl (ground (arith, k, other))
      ]
]

mark_applied-eq_ok :
    (id : Uuid) (fingerprint n : ℕ) (rows : List ConfigRow) {a : InboxApplication}
    {rows' : List ConfigRow}
    → mark_applied id fingerprint n rows ≡ ok (a, rows')
    → (rows' ≡ rows)
      ⊎ ((r : ConfigRow) × (accepted_row id rows ≡ ok r)
          × (rows' ≡ update_id id (set_applied n) rows))
unfolding mark_applied
mark_applied-eq_ok id fingerprint n rows {a} {rows'} h =
    elim (Result-cases (accepted_row id rows)) [
      | inr (e, p) ↦ absurd (ground (arith, rw (mark_applied, p) at h))
      | inl (r, p) ↦
          let k = rw (mark_applied, p) at h in
          elim (Bool-cases (r.digest == fingerprint)) [
            | inr differs ↦ absurd (ground (arith, rw differs at k))
            | inl same ↦ elim (Bool-cases (n == r.payload.settings.version)) [
              | inr differs ↦ absurd (ground (arith, rw (same, differs) at k))
              | inl v ↦
                  let l : mark_row id n r rows ≡ ok (a, rows') = rw (same, v) at k in
                  elim (State-cases r.apply_state) [
                    | inl going ↦ inr (r, p, ground (arith, rw (mark_row, going) at l))
                    | inr other ↦ inl (ground (arith, l, other))
                  ]
            ]
          ]
    ]

module _ (digest : ConfigCommand → ℕ) (account_of : Uuid → Key × Environment) where
  -- The table is sound, and backed by the ledger.
  pub record WorldSound (w : Stores) : Type 0 where
    pub sound : IsSound digest account_of w.inbox
    pub backed : All (RowBacked (journal_of w.ledger)) w.inbox

  update_id-Backed :
      (j : Journal) (id : Uuid) (f : ConfigRow → ConfigRow) (rows : List ConfigRow) {r : ConfigRow}
      {rows' : List ConfigRow}
      → IsSound digest account_of rows
      → All (RowBacked j) rows
      → accepted_row id rows ≡ ok r
      → RowBacked j (f r)
      → rows' ≡ update_id id f rows
      → All (RowBacked j) rows'
  update_id-Backed j id f rows s b p g e = rw e (
      update_id-All (RowBacked j) id f rows
        (IsSound-IsDistinct digest account_of rows s.each s.separate)
        (accepted_row-eq_ok id rows p).0 (λ h. g) b)

  pub begin_apply-WorldSound :
      (id : Uuid) (retry : Bool) (w : Stores) {a : InboxApplication} {rows : List ConfigRow}
      → WorldSound w
      → begin_apply id retry w.inbox ≡ ok (a, rows)
      → WorldSound (record w { inbox = rows })
  begin_apply-WorldSound id retry w {a} {rows} s h = record {
    sound = (begin_apply-Progress digest account_of id retry w.inbox s.sound h).sound;
    backed =
        let (r, p, k) = begin_apply-eq_ok id retry w.inbox h in
        elim k [
          | inl (e, a_r) ↦ rw e s.backed
          | inr (e, a_r) ↦
              update_id-Backed (journal_of w.ledger) id (set_state ApplyState.applying none) w.inbox
                s.sound s.backed p (λ q. cc) e
        ];
  }

  pub block_apply-WorldSound :
      (id : Uuid) (reason : ApplyReason) (w : Stores) {a : InboxApplication} {rows : List ConfigRow}
      → WorldSound w
      → block_apply id reason w.inbox ≡ ok (a, rows)
      → WorldSound (record w { inbox = rows })
  block_apply-WorldSound id reason w s h = record {
    sound = (block_apply-Progress digest account_of id reason w.inbox s.sound h).sound;
    backed = elim (block_apply-eq_ok id reason w.inbox h) [
      | inl e ↦ rw e s.backed
      | inr (r, p, e) ↦
          update_id-Backed (journal_of w.ledger) id
            (set_state ApplyState.apply_blocked (some reason)) w.inbox s.sound s.backed p (λ q. cc)
            e
    ];
  }

  pub mark_applied-WorldSound :
      (id : Uuid) (fingerprint n : ℕ) (w : Stores) (r : ConfigRow) {c : AppliedConfig}
      {a : InboxApplication} {rows : List ConfigRow}
      → WorldSound w
      → accepted_row id w.inbox ≡ ok r
      → IsRecorded (journal_of w.ledger) r.payload r.digest (binding_of r.payload.settings) c
      → mark_applied id fingerprint n w.inbox ≡ ok (a, rows)
      → WorldSound (record w { inbox = rows })
  mark_applied-WorldSound id fingerprint n w r {c} s p recorded h = record {
    sound = (mark_applied-Progress digest account_of id fingerprint n w.inbox s.sound h).sound;
    backed = elim (mark_applied-eq_ok id fingerprint n w.inbox h) [
      | inl e ↦ rw e s.backed
      | inr (r', p', e) ↦
          update_id-Backed (journal_of w.ledger) id (set_applied n) w.inbox s.sound s.backed p
            (λ q. (c, recorded)) e
    ];
  }

  pub ledger-WorldSound :
      (w : Stores) (s' : Store)
      → Grown w.ledger s'
      → WorldSound w
      → WorldSound (record w { ledger = s' })
  ledger-WorldSound w s' g s = record {
    sound = s.sound;
    backed =
        All-map (RowBacked (journal_of w.ledger)) (RowBacked (journal_of s')) w.inbox
          (λ r h q.
            let (a, k) = h q in
            (a, IsRecorded-Extends r.payload r.digest (binding_of r.payload.settings) g.entries k))
          s.backed;
  }

  pub receive-WorldSound :
      {Context : Type 0} (authenticator : Option (ConfigCommand → Context → Option Actor))
      (c : ConfigCommand) (now : Datetime) (context : Option Context) (w : Stores)
      {d : ConfigDecision} {rows : List ConfigRow}
      → account_of c.command_id ≡ (c.settings.account_id, c.settings.environment)
      → WorldSound w
      → receive digest authenticator c now context w.inbox ≡ ok (d, rows)
      → WorldSound (record w { inbox = rows })
  receive-WorldSound authenticator c now context w o s h = record {
    sound =
        (receive-Progress digest authenticator account_of c now context w.inbox o s.sound h).sound;
    backed = elim (receive-eq_ok digest authenticator c now context w.inbox h) [
      | inl e ↦ rw e s.backed
      | inr r ↦
          rw r.appended (All-append (RowBacked (journal_of w.ledger)) w.inbox _ s.backed (λ q. cc))
    ];
  }
