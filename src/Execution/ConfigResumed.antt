-- ===== src/Execution/ConfigResumed.antt =====
-- execution/config_apply.py: `apply` carries an accepted command through, also after an interruption.
use cherry_pulse_kr.Contracts.Moves.{Startable, Startable-starts}
use cherry_pulse_kr.Execution.InboxOnce.{apply_inbox_config-Grows}
use cherry_pulse_kr.Execution.History.{Grown-trans}
use cherry_pulse_kr.Execution.Transaction.{Store}
use cherry_pulse_kr.Execution.Calls.{Operation, run_all, run_all-Grown}
use cherry_pulse_kr.Contracts.Settings.{ConfigCommand}
use cherry_pulse_kr.Execution.ConfigApply.{
  Stores, ConfigApplyResult, ◌then◌, on_inbox, result, in_scope, apply_ledger, apply_begun, apply,
  Step, give,
}
use cherry_pulse_kr.Execution.InboxLedger.{apply_inbox_config-records, apply_inbox_config_again}
use cherry_pulse_kr.Execution.InboxConfig.{binding_of, is_number, apply_inbox_config}
use cherry_pulse_kr.Execution.Lease.{lease_ready}
use cherry_pulse_kr.Execution.External.{External}
use cherry_pulse_kr.Prelude.{
  ◌≡◌, refl, ◌∙◌, inl, inr, Bool, true, none, some, List, [], ◌∷◌, arith, nat_eq, string_eq,
  Bool-cases, find?, ok, ◌&&◌, ap, ℕ, ◌==◌, err, false,
}
use cherry_pulse_kr.Execution.Models.{
  Uuid, side_eq, environment_eq, AppliedConfig, VirtualStopBinding,
}
use cherry_pulse_kr.Contracts.Inbox.{
  ApplyState, ConfigRow, row_accepted, has_id, InboxMethod, InboxApplication,
}
use cherry_pulse_kr.Contracts.Application.{
  set_state, set_applied, starts, update_id, application_of, accepted_row, begin_row, begin_apply,
  mark_row, mark_applied,
}
use cherry_pulse_kr.Contracts.Sound.{accepted_row-eq_ok, accepted_row-found}

find?-update_id :
    (id : Uuid) (f : ConfigRow → ConfigRow) (rows : List ConfigRow) {r : ConfigRow}
    → ((x : ConfigRow) → (f x).command_id ≡ x.command_id)
    → find? (has_id id) rows ≡ some r
    → find? (has_id id) (update_id id f rows) ≡ some (f r)
find?-update_id id f [] k h = cc
find?-update_id id f (x ∷ rows) {r} k h = elim (Bool-cases (has_id id x)) [
  | inl same ↦
      let x_r : x ≡ r = ground (arith, rw same at h) in
      let hit : has_id id (f x) ≡ true = rw (k x) same in rw (same, hit) (rw x_r refl)
  | inr differs ↦ rw (differs, differs) (find?-update_id id f rows k (rw differs at h))
]

-- the accepted row after an update of it
pub accepted_row-update_id :
    (id : Uuid) (f : ConfigRow → ConfigRow) (rows : List ConfigRow) {r : ConfigRow}
    → ((x : ConfigRow) → (f x).command_id ≡ x.command_id)
    → ((x : ConfigRow) → row_accepted (f x) ≡ row_accepted x)
    → accepted_row id rows ≡ ok r
    → accepted_row id (update_id id f rows) ≡ ok (f r)
accepted_row-update_id id f rows {r} k a h =
    let (found, acc) = accepted_row-eq_ok id rows h in
    accepted_row-found id (update_id id f rows) (find?-update_id id f rows k found) (a r ∙ acc)

-- The row of an application that is under way, or may begin.
pub data Pending (retry : Bool) (r : ConfigRow) : Type 0 where
  begins : Startable retry r → Pending retry r
  goes_on : r.apply_state ≡ ApplyState.applying → Pending retry r

begin_apply-Pending :
    (id : Uuid) (retry : Bool) (rows : List ConfigRow) (r : ConfigRow)
    → accepted_row id rows ≡ ok r
    → Pending retry r
    → (r' : ConfigRow) × (rows' : List ConfigRow) × (begin_apply id retry rows
        ≡ ok (application_of r', rows'))
      × (accepted_row id rows' ≡ ok r')
      × (r'.apply_state ≡ ApplyState.applying)
      × (r'.payload ≡ r.payload)
      × (r'.digest ≡ r.digest)
      × ((n : ℕ) → set_applied n r' ≡ set_applied n r)
unfolding begin_apply
begin_apply-Pending id retry rows r h (Pending.begins s) = (
  set_state ApplyState.applying none r,
  update_id id (set_state ApplyState.applying none) rows,
  rw (begin_apply, h) (rw (begin_row, Startable-starts retry r s) refl),
  accepted_row-update_id id (set_state ApplyState.applying none) rows (λ x. refl) (λ x. refl) h,
  refl,
  refl,
  refl,
  λ n. refl,
)
begin_apply-Pending id retry rows r h (Pending.goes_on s) =
    (r, rows, rw (begin_apply, h) (rw (begin_row, starts, s) refl), h, s, refl, refl, λ n. refl)

mark_applied-applying :
    (id : Uuid) (rows : List ConfigRow) (r : ConfigRow)
    → accepted_row id rows ≡ ok r
    → r.apply_state ≡ ApplyState.applying
    → mark_applied id r.digest r.payload.settings.version rows
      ≡ ok (
        application_of (set_applied r.payload.settings.version r),
        update_id id (set_applied r.payload.settings.version) rows,
      )
unfolding mark_applied
mark_applied-applying id rows r h s =
    rw (mark_applied, h)
      (rw
        (
          (nat_eq.equal_iff r.digest _).1 refl,
          (nat_eq.equal_iff r.payload.settings.version _).1 refl,
        )
        (rw (mark_row, s) refl))

IsRecorded-version :
    (a : AppliedConfig) (b : VirtualStopBinding) (p q r : Bool)
    → (p && a.version == b.version && q && r) ≡ true
    → a.version ≡ b.version
IsRecorded-version a b p q r h = (nat_eq.equal_iff a.version b.version).0 (ground (arith, h))

pub on_inbox-ok :
    {A : Type 0} (m : InboxMethod A) (w : Stores) {a : A} {rows : List ConfigRow}
    → m w.inbox ≡ ok (a, rows)
    → on_inbox m w ≡ (ok a, record w { inbox = rows })
on_inbox-ok m w h = rw (on_inbox, h) refl

pub then-ok :
    {A B : Type 0} (m : Step A) (f : A → Step B) (w : Stores) {a : A} {w' : Stores}
    → m w ≡ (ok a, w')
    → (m then f) w ≡ f a w'
then-ok m f w h = ap (λ p. elim p.0 [ ok a ↦ f a p.1 | err e ↦ (err e, p.1) ]) h

module _ (ext : External) (digest : ConfigCommand → ℕ) where
  abbrev pub done : ConfigRow → ConfigApplyResult
  done r = result (application_of (set_applied r.payload.settings.version r))

  apply_inbox_config-version :
      (c : ConfigCommand) (n : ℕ) (s : Store) {a : AppliedConfig} {s' : Store}
      → apply_inbox_config ext digest c n s ≡ ok (a, s')
      → a.version ≡ c.settings.version
  unfolding binding_of
  apply_inbox_config-version c n s {a} h =
      IsRecorded-version a (binding_of c.settings) (a.symbol == c.settings.symbol)
        (is_number a.command_digest n) _ (apply_inbox_config-records ext digest c n s h).0.same

  apply_ledger-done :
      (id : Uuid) (r : ConfigRow) (w : Stores) {a : AppliedConfig} {s' : Store}
      → accepted_row id w.inbox ≡ ok r
      → r.apply_state ≡ ApplyState.applying
      → apply_inbox_config ext digest r.payload r.digest w.ledger ≡ ok (a, s')
      → apply_ledger ext digest id (application_of r) w ≡ (
        ok (done r),
        record {
          inbox = update_id id (set_applied r.payload.settings.version) w.inbox;
          ledger = s';
        },
      )
  unfolding apply_ledger
  apply_ledger-done id r w {a} {s'} h s k =
      let w' : Stores = record w { ledger = s' } in
      rw (apply_ledger, k)
        (rw (apply_inbox_config-version r.payload r.digest w.ledger k) (
          then-ok (on_inbox (mark_applied id r.digest r.payload.settings.version))
            (λ b. give (result b)) w'
            (on_inbox-ok (mark_applied id r.digest r.payload.settings.version) w'
              (mark_applied-applying id w.inbox r h s))))

  apply_begun-scoped :
      (id : Uuid) (a : InboxApplication) (w : Stores)
      → a.state ≡ ApplyState.applying
      → in_scope a.command.settings w.ledger.lease.scope ≡ true
      → apply_begun ext digest id a w ≡ apply_ledger ext digest id a w
  apply_begun-scoped id a w s i = rw (apply_begun, s, i) refl

  -- In an owned and reviewed session an accepted command of the ledger's account that is not
  -- applied yet, or being applied, or blocked for a reason other than
  -- LEGACY_AUTHENTICATION_UNVERIFIED and retried, and that the ledger takes, is returned as
  -- applied; the ledger is then what its transaction made of it, and the row is applied at the
  -- version of the settings.
  pub apply_completes :
      (id : Uuid) (retry : Bool) (w : Stores) (r : ConfigRow) {a : AppliedConfig} {s' : Store}
      → lease_ready w.ledger.lease w.ledger.process ≡ true
      → accepted_row id w.inbox ≡ ok r
      → Pending retry r
      → in_scope r.payload.settings w.ledger.lease.scope ≡ true
      → apply_inbox_config ext digest r.payload r.digest w.ledger ≡ ok (a, s')
      → (v : Stores) × (apply ext digest id retry w ≡ (ok (done r), v))
        × (v.ledger ≡ s')
        × (accepted_row id v.inbox
            ≡ ok (set_applied r.payload.settings.version (set_state ApplyState.applying none r)))
  unfolding apply
  apply_completes id retry w r {a} {s'} ready h p scope k =
      let (r', rows', begun, h', going, payload, fingerprint, same) =
        begin_apply-Pending id retry w.inbox r h p in
      let n : ℕ = r'.payload.settings.version in
      let w' : Stores = record w { inbox = rows' } in
      let k' : apply_inbox_config ext digest r'.payload r'.digest w.ledger ≡ ok (a, s') =
        rw (payload, fingerprint) k in
      let ran = apply_ledger-done id r' w' h' going k' in
      let n_n : n ≡ r.payload.settings.version = ap (λ c. c.settings.version) payload in
      let end : set_applied n r' ≡ set_applied r.payload.settings.version r =
        same n ∙ ap (λ m. set_applied m r) n_n in
      let inside : in_scope r'.payload.settings w.ledger.lease.scope ≡ true = rw payload scope in
      (
        record { inbox = update_id id (set_applied n) rows'; ledger = s' },
        rw (apply, ready)
            (then-ok (on_inbox (begin_apply id retry)) (λ b. apply_begun ext digest id b) w
                (on_inbox-ok (begin_apply id retry) w begun)
              ∙ apply_begun-scoped id (application_of r') w' going inside
              ∙ ran
              ∙ ap
                  (λ x. (
                    ok (result (application_of x)),
                    record { inbox = update_id id (set_applied n) rows'; ledger = s' },
                  ))
                  end),
        refl,
        accepted_row-update_id id (set_applied n) rows' (λ x. refl) (λ x. refl) h' ∙ ap ok end,
      )

  -- When the coordinator was interrupted after the ledger committed and before the inbox did,
  -- and other transactions of the ledger came in between, applying the command again in an owned
  -- and reviewed session returns it as applied, leaves the ledger as it is and marks the row
  -- applied.
  pub apply_resumes :
      (id : Uuid) (w : Stores) (r : ConfigRow) (ops : List Operation) {a : AppliedConfig}
      {s' : Store}
      → lease_ready w.ledger.lease w.ledger.process ≡ true
      → accepted_row id w.inbox ≡ ok r
      → r.apply_state ≡ ApplyState.applying
      → in_scope r.payload.settings w.ledger.lease.scope ≡ true
      → apply_inbox_config ext digest r.payload r.digest w.ledger ≡ ok (a, s')
      → (v : Stores) × (apply ext digest id false (record w { ledger = run_all ext ops s' })
          ≡ (ok (done r), v))
        × (v.ledger ≡ run_all ext ops s')
        × (accepted_row id v.inbox ≡ ok (set_applied r.payload.settings.version r))
  apply_resumes id w r ops {a} {s'} ready h going scope k =
      let g =
        Grown-trans ((apply_inbox_config-Grows ext digest r.payload r.digest).at w.ledger k)
          (run_all-Grown ext ops s') in
      apply_completes id false (record w { ledger = run_all ext ops s' }) r
        (rw (g.lease, g.process) ready) h (Pending.goes_on going) (rw g.lease scope)
        (apply_inbox_config_again ext digest r.payload r.digest w.ledger ops k)
