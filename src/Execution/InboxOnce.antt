-- ===== src/Execution/InboxOnce.antt =====
-- `apply_inbox_config` of execution/ledger.py: a command enters the journal once, whatever comes between two calls.
use cherry_pulse_kr.Prelude.{
  ℕ, ◌≡◌, refl, sym, ◌∙◌, inl, inr, Option, none, some, arith, nat_eq, string_eq, ok, Result-cases,
}
use cherry_pulse_kr.Execution.Models.{
  side_eq, environment_eq, AppliedConfig, VirtualStopBinding, validate_binding,
}
use cherry_pulse_kr.Execution.Journal.{Journal}
use cherry_pulse_kr.Execution.External.{External}
use cherry_pulse_kr.Execution.Lease.{operation, require_ready}
use cherry_pulse_kr.Execution.Transaction.{Store, lift, read_journal, ensure_ready}
use cherry_pulse_kr.Execution.History.{
  journal_of, Grown, lift-eq_ok, ensure_ready-eq_ok, transaction-eq_ok, transaction_owned,
  bind-eq_ok, read_journal-eq_ok, lift-ok, ensure_ready-ok, read_journal-ok, bind-ok, Grown-same,
  Grows, grow_rules,
}
use cherry_pulse_kr.Execution.InboxConfig.{
  checked_binding, binding_of, config_of, existing_inbox_application, check_inbox_command,
  check_inbox, append_config, append_unless, inbox_transaction, apply_inbox_config,
}
use cherry_pulse_kr.Execution.InboxApplied.{
  IsRecorded, IsRecorded-existing, existing-eq_some, existing-eq_none,
}
use cherry_pulse_kr.Contracts.Settings.{ConfigCommand}

validate_binding-eq_ok :
    (b : VirtualStopBinding) {b' : VirtualStopBinding} → validate_binding b ≡ ok b' → b' ≡ b
unfolding validate_binding
validate_binding-eq_ok b h = ground (arith, h)

checked_binding-eq_ok :
    (c : ConfigCommand) {b : VirtualStopBinding}
    → checked_binding c.settings ≡ ok b
    → b ≡ binding_of c.settings
unfolding checked_binding
checked_binding-eq_ok c {b} h = elim (Result-cases (validate_binding (binding_of c.settings))) [
  | inr (e, p) ↦ absurd (ground (arith, rw (checked_binding, p) at h))
  | inl (x, p) ↦
      let x_b : x ≡ b = ground (arith, rw (checked_binding, p) at h) in
      sym x_b ∙ validate_binding-eq_ok (binding_of c.settings) p
]

module _ (ext : External) (digest : ConfigCommand → ℕ) where
  check_inbox_command-lease :
      (c : ConfigCommand) (n : ℕ) (s s' : Store)
      → s'.lease ≡ s.lease
      → check_inbox_command ext digest s' c n ≡ check_inbox_command ext digest s c n
  unfolding check_inbox_command
  check_inbox_command-lease c n s s' e = rw (check_inbox_command, e) refl

  -- What the checks of a call need of the command, and of the lease and the process.
  pub record Passes (c : ConfigCommand) (n : ℕ) (s : Store) : Type 0 where
    pub checked : check_inbox_command ext digest s c n ≡ ok tt
    pub binding : checked_binding c.settings ≡ ok (binding_of c.settings)
    pub own : operation s.lease s.process ≡ ok tt
    pub ready : require_ready s.lease s.process ≡ ok tt

  -- The call found the command and changed nothing, or it appended it.
  pub data Applies (c : ConfigCommand) (n : ℕ) (b : VirtualStopBinding) (s : Store)
      (a : AppliedConfig) (s' : Store) : Type 0 where
    found : IsRecorded (journal_of s) c n b a → s' ≡ s → Applies c n b s a s'
    appended :
        config_of c.command_id (journal_of s) ≡ none
        → append_config ext digest (journal_of s) c n b s ≡ ok (a, s')
        → Applies c n b s a s'

  append_unless-Applies :
      (c : ConfigCommand) (n : ℕ) (b : VirtualStopBinding) (s : Store) (x : Option AppliedConfig)
      {a : AppliedConfig} {s' : Store}
      → existing_inbox_application (journal_of s) c.command_id n b ≡ ok x
      → append_unless ext digest (journal_of s) c n b x s ≡ ok (a, s')
      → Applies c n b s a s'
  append_unless-Applies c n b s none e h =
      Applies.appended (existing-eq_none (journal_of s) c.command_id n b e) h
  append_unless-Applies c n b s (some y) {a} {s'} e h =
      let y_a : y ≡ a = ground (arith, h) in
      let s_s : s' ≡ s = ground (arith, h) in
      let (config, same) = existing-eq_some (journal_of s) c.command_id n b e in
      Applies.found (record { config = rw (← y_a) config; same = rw (← y_a) same }) s_s

  inbox_transaction-Applies :
      (c : ConfigCommand) (n : ℕ) (b : VirtualStopBinding) (s : Store) {a : AppliedConfig}
      {s' : Store}
      → inbox_transaction ext digest c n b s ≡ ok (a, s')
      → (operation s.lease s.process ≡ ok tt)
        × (require_ready s.lease s.process ≡ ok tt)
        × Applies c n b s a s'
  inbox_transaction-Applies c n b s {a} {s'} h =
      let (own, run) = transaction-eq_ok _ s h in
      let (u1, s1, p1, q1) = bind-eq_ok ensure_ready _ s run in
      let (c1, e1) = ensure_ready-eq_ok s p1 in
      let (j, s2, p2, q2) = bind-eq_ok read_journal _ s (rw e1 at q1) in
      let (j_s, e2) = read_journal-eq_ok s p2 in
      let (x, s3, p3, q3) =
        bind-eq_ok (lift (existing_inbox_application j c.command_id n b)) _ s (rw e2 at q2) in
      let (c3, e3) = lift-eq_ok (existing_inbox_application j c.command_id n b) s p3 in
      let made : append_unless ext digest j c n b x s ≡ ok (a, s') = rw e3 at q3 in
      (own, c1, append_unless-Applies c n b s x (rw j_s at c3) (rw j_s at made))

  pub apply_inbox_config-eq_ok :
      (c : ConfigCommand) (n : ℕ) (s : Store) {a : AppliedConfig} {s' : Store}
      → apply_inbox_config ext digest c n s ≡ ok (a, s')
      → Passes c n s × Applies c n (binding_of c.settings) s a s'
  unfolding apply_inbox_config
  apply_inbox_config-eq_ok c n s {a} {s'} h =
      let (u1, s1, p1, q1) = bind-eq_ok (check_inbox ext digest c n) _ s h in
      let (c1, e1) = lift-eq_ok (check_inbox_command ext digest s c n) s p1 in
      let (b, s2, p2, q2) = bind-eq_ok (lift (checked_binding c.settings)) _ s (rw e1 at q1) in
      let (c2, e2) = lift-eq_ok (checked_binding c.settings) s p2 in
      let same = checked_binding-eq_ok c c2 in
      let run : inbox_transaction ext digest c n b s ≡ ok (a, s') = rw e2 at q2 in
      let (own, ready, made) =
        inbox_transaction-Applies c n (binding_of c.settings) s (rw same at run) in
      (record { checked = c1; binding = rw same at c2; own = own; ready = ready }, made)

  -- a recorded command is found
  pub apply_inbox_config-recorded :
      (c : ConfigCommand) (n : ℕ) (s : Store) {a : AppliedConfig}
      → Passes c n s
      → IsRecorded (journal_of s) c n (binding_of c.settings) a
      → apply_inbox_config ext digest c n s ≡ ok (a, s)
  unfolding apply_inbox_config
  apply_inbox_config-recorded c n s p r =
      bind-ok (check_inbox ext digest c n) _ s
        (lift-ok (check_inbox_command ext digest s c n) s p.checked)
      ∙ bind-ok (lift (checked_binding c.settings)) _ s
          (lift-ok (checked_binding c.settings) s p.binding)
      ∙ transaction_owned _ s p.own
      ∙ bind-ok ensure_ready _ s (ensure_ready-ok s p.ready)
      ∙ bind-ok read_journal _ s (read_journal-ok s)
      ∙ bind-ok
          (lift (existing_inbox_application (journal_of s) c.command_id n (binding_of c.settings)))
          _ s
          (lift-ok
            (existing_inbox_application (journal_of s) c.command_id n (binding_of c.settings)) s
            (IsRecorded-existing (journal_of s) c n (binding_of c.settings) r))

  pub Passes-Grown :
      (c : ConfigCommand) (n : ℕ) {s s' : Store} → Grown s s' → Passes c n s → Passes c n s'
  Passes-Grown c n {s} {s'} g p = record {
    checked = check_inbox_command-lease c n s s' g.lease ∙ p.checked;
    binding = p.binding;
    own = rw (g.lease, g.process) p.own;
    ready = rw (g.lease, g.process) p.ready;
  }

  append_config-Grows :
      (j : Journal) (c : ConfigCommand) (n : ℕ) (b : VirtualStopBinding)
      → Grows (append_config ext digest j c n b)
  unfolding append_config
  append_config-Grows j c n b = search grow_rules

  Applies-Grown :
      (c : ConfigCommand) (n : ℕ) (b : VirtualStopBinding) (s : Store) {a : AppliedConfig}
      {s' : Store}
      → Applies c n b s a s'
      → Grown s s'
  Applies-Grown c n b s (Applies.found r e) = Grown-same e
  Applies-Grown c n b s (Applies.appended absent h) =
      (append_config-Grows (journal_of s) c n b).at s h

  pub apply_inbox_config-Grows :
      (c : ConfigCommand) (n : ℕ) → Grows (apply_inbox_config ext digest c n)
  apply_inbox_config-Grows c n = record {
    at = λ s h. Applies-Grown c n (binding_of c.settings) s (apply_inbox_config-eq_ok c n s h).1;
  }
