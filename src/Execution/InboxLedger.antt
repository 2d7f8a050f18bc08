-- ===== src/Execution/InboxLedger.antt =====
-- `apply_inbox_config` of execution/ledger.py: what the journal holds after a call, and after a second one.
use cherry_pulse_kr.Execution.InForce.{applied_version-IsLast}
use cherry_pulse_kr.Prelude.{
  ℕ, ◌<◌, ◌≡◌, refl, ap, ◌∙◌, ◌⊎◌, inl, inr, Bool, true, false, none, some, List, [], ◌∷◌, ◌++◌,
  arith, Eq, ◌==◌, nat_eq, string_eq, Bool-cases, any, find?, find?-append_none, ok, raise_if,
  IsLast, IsLast-cases, any-IsLast, sym,
}
use cherry_pulse_kr.Execution.Models.{
  LedgerError, Raises, side_eq, environment_eq, AppliedConfig, VirtualStopBinding, Key,
}
use cherry_pulse_kr.Execution.Journal.{Journal}
use cherry_pulse_kr.Execution.External.{External}
use cherry_pulse_kr.Execution.Freshness.{applied_version}
use cherry_pulse_kr.Execution.Storage.{Payload}
use cherry_pulse_kr.Execution.Storage.Extend.{extend}
use cherry_pulse_kr.Execution.Transaction.{Store, lift, append_entry}
use cherry_pulse_kr.Execution.Configure.{binding_entry}
use cherry_pulse_kr.Execution.History.{
  journal_of, append_entry-extend, lift-eq_ok, bind-eq_ok, raise_if-eq_ok,
}
use cherry_pulse_kr.Execution.Calls.{Operation, run_all, run_all-Grown}
use cherry_pulse_kr.Execution.InboxConfig.{
  binding_of, is_number, config_of, binds_version, is_same_application, check_inbox_apply_version,
  is_current, inbox_config, config_entry, append_config, apply_inbox_config,
}
use cherry_pulse_kr.Execution.InboxApplied.{IsRecorded, IsRecorded-Extends, some-same_binding}
use cherry_pulse_kr.Execution.InboxOnce.{
  Applies, apply_inbox_config-eq_ok, apply_inbox_config-recorded, apply_inbox_config-Grows,
  Passes-Grown,
}
use cherry_pulse_kr.Execution.Versions.{applied_version-extend}
use cherry_pulse_kr.Contracts.Settings.{ConfigCommand}

find?-none : {A : Type 0} (p : A → Bool) (xs : List A) → any p xs ≡ false → find? p xs ≡ none
find?-none p [] h = refl
find?-none p (x ∷ xs) h = ground (arith, h, find?-none p xs)

find?-append_hit :
    {A : Type 0} (p : A → Bool) (xs : List A) (x : A)
    → find? p xs ≡ none
    → p x ≡ true
    → find? p (xs ++ x ∷ []) ≡ some x
find?-append_hit p xs x h e = find?-append_none p xs (x ∷ []) h ∙ rw (find?, e) refl

equal_refl : {T : Type 0} ⦃class : Eq T⦄ (a : T) → (a == a) ≡ true
equal_refl ⦃class⦄ a = (class.equal_iff a a).1 refl

-- the journal after the two entries
abbrev pub with_config : Journal → ConfigCommand → ℕ → Journal
with_config j c n =
    extend (extend j (Payload.config (inbox_config c n)))
      (Payload.stop_binding (binding_of c.settings))

with_config-IsRecorded :
    (j : Journal) (c : ConfigCommand) (n : ℕ)
    → config_of c.command_id j ≡ none
    → any (binds_version c.settings.symbol c.settings.version) j.stop_bindings ≡ false
    → IsRecorded (with_config j c n) c n (binding_of c.settings) (inbox_config c n)
unfolding config_of binding_of
with_config-IsRecorded j c n absent free =
    let b : VirtualStopBinding = binding_of c.settings in
    let hit : binds_version c.settings.symbol c.settings.version b ≡ true =
      rw (binds_version, equal_refl c.settings.symbol, equal_refl c.settings.version) refl in
    let bound =
      find?-append_hit (binds_version c.settings.symbol c.settings.version) j.stop_bindings b
        (find?-none _ j.stop_bindings free) hit in
    record {
      config =
          find?-append_hit (λ d. is_number d.command_id c.command_id) j.configs (inbox_config c n)
            absent (equal_refl c.command_id);
      same =
          rw
            (
              is_same_application,
              equal_refl c.settings.symbol,
              equal_refl c.settings.version,
              equal_refl n,
              bound,
            )
            (some-same_binding b);
    }

check_inbox_apply_version-eq_ok :
    (j : Journal) (c : ConfigCommand) {u : Unit {0}}
    → check_inbox_apply_version j c ≡ ok u
    → (is_current j c.settings.symbol c.expected_version ≡ true)
      × (c.expected_version < c.settings.version)
unfolding check_inbox_apply_version
check_inbox_apply_version-eq_ok j c h =
    elim (Bool-cases (is_current j c.settings.symbol c.expected_version)) [
      | inr stale ↦ absurd (ground (arith, rw (check_inbox_apply_version, stale) at h))
      | inl current ↦ (current, ground (arith, rw (check_inbox_apply_version, current) at h))
    ]

applied_version-with_config :
    (j : Journal) (c : ConfigCommand) (n : ℕ)
    → applied_version (with_config j c n) c.settings.symbol ≡ c.settings.version
unfolding applied_version
applied_version-with_config j c n = applied_version-extend j (inbox_config c n)

-- The expected version is that of the last configuration of the symbol, or zero where there is none.
pub data IsExpected (j : Journal) (symbol : Key) (expected : ℕ) : Type 0 where
  last :
      (d : AppliedConfig)
      → IsLast (λ x. x.symbol == symbol) d j.configs
      → expected ≡ d.version
      → IsExpected j symbol expected
  first :
      any (λ x. x.symbol == symbol) j.configs ≡ false → expected ≡ 0 → IsExpected j symbol expected

is_current-IsExpected :
    (j : Journal) (symbol : Key) (expected : ℕ)
    → is_current j symbol expected ≡ true
    → IsExpected j symbol expected
unfolding is_current
is_current-IsExpected j symbol expected h =
    elim (IsLast-cases (λ x. x.symbol == symbol) j.configs) [
      | inl absent ↦ IsExpected.first absent (ground (arith, rw (is_current, absent) at h))
      | inr (d, found) ↦
          let some_config = any-IsLast (λ x. x.symbol == symbol) j.configs found in
          let same : applied_version j symbol ≡ expected =
            (nat_eq.equal_iff (applied_version j symbol) expected).0
              (rw (is_current, some_config) at h) in
          IsExpected.last d found (sym same ∙ applied_version-IsLast j symbol found)
    ]

module _ (ext : External) (digest : ConfigCommand → ℕ) where
  append_config-eq_ok :
      (j : Journal) (c : ConfigCommand) (n : ℕ) (b : VirtualStopBinding) (s : Store)
      {a : AppliedConfig} {s' : Store}
      → append_config ext digest j c n b s ≡ ok (a, s')
      → (is_current j c.settings.symbol c.expected_version ≡ true)
        × (c.expected_version < c.settings.version)
        × (any (binds_version c.settings.symbol c.settings.version) j.stop_bindings ≡ false)
        × (a ≡ inbox_config c n)
        × (journal_of s'
            ≡ extend
                (extend (journal_of s) (Payload.config (inbox_config c n)))
                (Payload.stop_binding b))
  unfolding append_config
  append_config-eq_ok j c n b s {a} {s'} h =
      let (u1, s1, p1, q1) = bind-eq_ok (lift (check_inbox_apply_version j c)) _ s h in
      let (c1, e1) = lift-eq_ok (check_inbox_apply_version j c) s p1 in
      let free : Raises (Unit {0}) =
        raise_if (any (binds_version c.settings.symbol c.settings.version) j.stop_bindings)
          LedgerError.conflict_config_apply_version in
      let (u2, s2, p2, q2) = bind-eq_ok (lift free) _ s (rw e1 at q1) in
      let (c2, e2) = lift-eq_ok free s p2 in
      let (u3, s3, p3, q3) =
        bind-eq_ok (append_entry (config_entry ext digest c n)) _ s (rw e2 at q2) in
      let (u4, s4, p4, q4) = bind-eq_ok (append_entry (binding_entry ext b)) _ s3 q3 in
      let (current, above) = check_inbox_apply_version-eq_ok j c c1 in
      let s_s : s' ≡ s4 = ground (arith, q4) in
      (
        current,
        above,
        raise_if-eq_ok (any (binds_version c.settings.symbol c.settings.version) j.stop_bindings) _
            c2,
        ground (arith, q4),
        ap journal_of s_s
            ∙ append_entry-extend _ s3 p4
            ∙ ap (λ k. extend k (Payload.stop_binding b)) (append_entry-extend _ s p3),
      )

  -- When the ledger takes a command, its configuration and its binding stand in the journal.
  -- Either nothing changed, or the command was not there, the version that it expects was that
  -- of the last configuration of the symbol, or zero where there was none, and is smaller than
  -- its own, and exactly the two entries were added, after which the version of the symbol is
  -- the command's.
  pub apply_inbox_config-records :
      (c : ConfigCommand) (n : ℕ) (s : Store) {a : AppliedConfig} {s' : Store}
      → apply_inbox_config ext digest c n s ≡ ok (a, s')
      → IsRecorded (journal_of s') c n (binding_of c.settings) a
        × ((s' ≡ s)
            ⊎ ((config_of c.command_id (journal_of s) ≡ none)
                × IsExpected (journal_of s) c.settings.symbol c.expected_version
                × (c.expected_version < c.settings.version)
                × (journal_of s' ≡ with_config (journal_of s) c n)
                × (applied_version (journal_of s') c.settings.symbol ≡ c.settings.version)))
  apply_inbox_config-records c n s h = elim (apply_inbox_config-eq_ok ext digest c n s h).1 [
    | Applies.found r e ↦ (rw e r, inl e)
    | Applies.appended absent made ↦
        let (current, above, free, a_e, j_e) =
          append_config-eq_ok (journal_of s) c n (binding_of c.settings) s made in
        let recorded = with_config-IsRecorded (journal_of s) c n absent free in
        (
          rw (a_e, j_e) recorded,
          inr (
            absent,
            is_current-IsExpected (journal_of s) c.settings.symbol c.expected_version current,
            above,
            j_e,
            ap (λ k. applied_version k c.settings.symbol) j_e
                ∙ applied_version-with_config (journal_of s) c n,
          ),
        )
  ]

  -- Once the ledger took a command of the inbox, whatever transactions come after, taking it
  -- again returns the same configuration and changes nothing, even if a later configuration is
  -- in force by then.
  pub apply_inbox_config_again :
      (c : ConfigCommand) (n : ℕ) (s : Store) (ops : List Operation) {a : AppliedConfig}
      {s' : Store}
      → apply_inbox_config ext digest c n s ≡ ok (a, s')
      → apply_inbox_config ext digest c n (run_all ext ops s') ≡ ok (a, run_all ext ops s')
  apply_inbox_config_again c n s ops {a} {s'} h =
      let passes =
        Passes-Grown ext digest c n ((apply_inbox_config-Grows ext digest c n).at s h)
          (apply_inbox_config-eq_ok ext digest c n s h).0 in
      let g = run_all-Grown ext ops s' in
      apply_inbox_config-recorded ext digest c n (run_all ext ops s')
        (Passes-Grown ext digest c n g passes)
        (IsRecorded-Extends c n (binding_of c.settings) g.entries
          (apply_inbox_config-records c n s h).0)
