-- ===== src/Execution/ConfigKept.antt =====
-- execution/config_apply.py: each call of the coordinator keeps what the inbox calls applied in the ledger.
use cherry_pulse_kr.Execution.ConfigResumed.{then-ok, on_inbox-ok}
use cherry_pulse_kr.Prelude.{
  ℕ, ◌≡◌, refl, ap, inl, inr, Bool, false, List, [], ◌∷◌, if◌then◌else◌, nat_eq, string_eq,
  Bool-cases, ok, err, Result-cases, Result,
}
use cherry_pulse_kr.Execution.Models.{Uuid, Key, Environment, LedgerError, side_eq, environment_eq}
use cherry_pulse_kr.Execution.External.{External}
use cherry_pulse_kr.Execution.Lease.{lease_ready}
use cherry_pulse_kr.Execution.InboxConfig.{apply_inbox_config}
use cherry_pulse_kr.Execution.InboxOnce.{apply_inbox_config-Grows}
use cherry_pulse_kr.Execution.InboxLedger.{apply_inbox_config-records}
use cherry_pulse_kr.Execution.ConfigApply.{
  Stores, ApplyError, Step, ◌then◌, give, on_inbox, result, block, in_scope, is_foreign,
  is_applying_state, apply_ledger, apply_begun, apply, apply_each, resume_pending,
}
use cherry_pulse_kr.Execution.ConfigBacked.{
  WorldSound, begin_apply-row, begin_apply-WorldSound, block_apply-WorldSound,
  mark_applied-WorldSound, ledger-WorldSound,
}
use cherry_pulse_kr.Contracts.Settings.{ConfigCommand}
use cherry_pulse_kr.Contracts.Inbox.{
  ApplyReason, ConfigRow, InboxError, InboxApplication, InboxMethod,
}
use cherry_pulse_kr.Contracts.Application.{
  application_of, accepted_row, begin_apply, block_apply, mark_applied, pending_application_ids,
}

give_snd :
    {A B : Type 0} (m : Step A) (g : A → B) (w : Stores) → ((m then λ a. give (g a)) w).1 ≡ (m w).1
give_snd m g w = elim (Result-cases (m w).0) [
  | inl (a, p) ↦ rw (◌then◌, p) refl
  | inr (e, p) ↦ rw (◌then◌, p) refl
]

-- a step that raises ends the sequence
then_snd :
    {A B : Type 0} (m : Step A) (f : A → Step B) (w : Stores) {e : ApplyError} {w' : Stores}
    → m w ≡ (err e, w')
    → ((m then f) w).1 ≡ w'
then_snd {A} {B} m f w h =
    let g : Result ApplyError A × Stores → Result ApplyError B × Stores =
      λ p. elim p.0 [ ok a ↦ f a p.1 | err e ↦ (err e, p.1) ] in
    ap (λ p. (g p).1) h

on_inbox_err :
    {A : Type 0} (m : InboxMethod A) (w : Stores) {e : InboxError}
    → m w.inbox ≡ err e
    → on_inbox m w ≡ (err (ApplyError.inbox_error e), w)
on_inbox_err m w h = rw (on_inbox, h) refl

module _ (ext : External) (digest : ConfigCommand → ℕ) (account_of : Uuid → Key × Environment) where
  abbrev Sound : Stores → Type 0
  Sound = WorldSound digest account_of

  pub on_inbox-Sound :
      {A : Type 0} (m : InboxMethod A) (w : Stores)
      → Sound w
      → ((a : A) (rows : List ConfigRow)
          → m w.inbox ≡ ok (a, rows)
          → Sound (record w { inbox = rows }))
      → Sound (on_inbox m w).1
  on_inbox-Sound m w s f = elim (Result-cases (m w.inbox)) [
    | inl ((a, rows), p) ↦ rw (on_inbox, p) (f a rows p)
    | inr (e, p) ↦ rw (on_inbox, p) s
  ]

  block-Sound :
      (a : InboxApplication) (e : LedgerError) (w : Stores) → Sound w → Sound (block a e w).1
  block-Sound a e w s =
      rw
        (
          block,
          give_snd (on_inbox (block_apply a.command.command_id (ApplyReason.code e))) result w,
        )
        (on_inbox-Sound (block_apply a.command.command_id (ApplyReason.code e)) w s
          (λ b rows p. block_apply-WorldSound digest account_of _ _ w s p))

  apply_ledger-Sound :
      (id : Uuid) (r : ConfigRow) (w : Stores)
      → Sound w
      → accepted_row id w.inbox ≡ ok r
      → Sound (apply_ledger ext digest id (application_of r) w).1
  unfolding apply_ledger
  apply_ledger-Sound id r w s h =
      elim (Result-cases (apply_inbox_config ext digest r.payload r.digest w.ledger)) [
        | inl ((c, s'), p) ↦
            let m = mark_applied id r.digest c.version in
            let w' : Stores = record w { ledger = s' } in
            rw (apply_ledger, p, give_snd (on_inbox m) result w')
              (on_inbox-Sound m w'
                (ledger-WorldSound digest account_of w s'
                  ((apply_inbox_config-Grows ext digest r.payload r.digest).at w.ledger p) s)
                (λ b rows q.
                  mark_applied-WorldSound digest account_of id r.digest c.version w' r
                    (ledger-WorldSound digest account_of w s'
                      ((apply_inbox_config-Grows ext digest r.payload r.digest).at w.ledger p) s)
                    h (apply_inbox_config-records ext digest r.payload r.digest w.ledger p).0 q))
        | inr (e, p) ↦
            rw (apply_ledger, p)
              (elim (Bool-cases (is_foreign e)) [
                | inl f ↦ rw f s
                | inr f ↦ rw f (block-Sound (application_of r) e w s)
              ])
      ]

  apply_begun-Sound :
      (id : Uuid) (r : ConfigRow) (w : Stores)
      → Sound w
      → accepted_row id w.inbox ≡ ok r
      → Sound (apply_begun ext digest id (application_of r) w).1
  apply_begun-Sound id r w s h = elim (Bool-cases (is_applying_state r.apply_state)) [
    | inr idle ↦ rw (apply_begun, idle) s
    | inl going ↦ elim (Bool-cases (in_scope r.payload.settings w.ledger.lease.scope)) [
      | inr outside ↦
          rw (apply_begun, going, outside)
            (block-Sound (application_of r) LedgerError.config_execution_scope_mismatch w s)
      | inl inside ↦ rw (apply_begun, going, inside) (apply_ledger-Sound id r w s h)
    ]
  ]

  pub apply-Sound :
      (id : Uuid) (retry : Bool) (w : Stores) → Sound w → Sound (apply ext digest id retry w).1
  unfolding apply
  apply-Sound id retry w s = elim (Bool-cases (lease_ready w.ledger.lease w.ledger.process)) [
    | inr closed ↦ rw (apply, closed) s
    | inl open_lease ↦ elim (Result-cases (begin_apply id retry w.inbox)) [
      | inr (e, p) ↦
          rw (apply, open_lease)
            (rw
              (then_snd (on_inbox (begin_apply id retry)) (λ b. apply_begun ext digest id b) w
                (on_inbox_err (begin_apply id retry) w p))
              s)
      | inl ((a, rows), p) ↦
          let (r, h, a_r) = begin_apply-row id retry w.inbox p in
          let w' : Stores = record w { inbox = rows } in
          let ran =
            then-ok (on_inbox (begin_apply id retry)) (λ b. apply_begun ext digest id b) w
              (on_inbox-ok (begin_apply id retry) w p) in
          rw (apply, open_lease)
            (rw (ap (λ x. x.1) ran) (
              rw a_r (
                apply_begun-Sound id r w' (begin_apply-WorldSound digest account_of id retry w s p)
                  h)))
    ]
  ]

  pub apply_each-Sound :
      (ids : List Uuid) (w : Stores) → Sound w → Sound (apply_each ext digest ids w).1
  unfolding apply_each
  apply_each-Sound [] w s = s
  apply_each-Sound (id ∷ ids) w s = elim (Result-cases (apply ext digest id false w).0) [
    | inr (e, p) ↦ rw (apply_each, ◌then◌, p) (apply-Sound id false w s)
    | inl (r, p) ↦
        rw
          (
            apply_each,
            ◌then◌,
            p,
            give_snd (apply_each ext digest ids) (λ rs. r ∷ rs) (apply ext digest id false w).1,
          )
          (apply_each-Sound ids (apply ext digest id false w).1 (apply-Sound id false w s))
  ]

  pub resume_pending-Sound : (w : Stores) → Sound w → Sound (resume_pending ext digest w).1
  unfolding resume_pending
  resume_pending-Sound w s = elim (Bool-cases (lease_ready w.ledger.lease w.ledger.process)) [
    | inr closed ↦ rw (resume_pending, closed) s
    | inl open_lease ↦
        rw (resume_pending, open_lease) (apply_each-Sound (pending_application_ids w.inbox) w s)
  ]
