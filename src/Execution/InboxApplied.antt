-- ===== src/Execution/InboxApplied.antt =====
-- `apply_inbox_config` of execution/ledger.py: what it records, and what a second call finds.
use cherry_pulse_kr.Prelude.{
  ℕ, ◌≡◌, refl, sym, ap, ◌∙◌, inl, inr, Bool, true, ◌&&◌, Option, none, some, [], ◌∷◌, arith,
  nat_eq, string_eq, decided_iff, Bool-cases, Option-cases, find?, find?-append_some, ok, ◌==◌,
}
use cherry_pulse_kr.Execution.Models.{
  Uuid, side_eq, environment_eq, AppliedConfig, VirtualStopBinding, VirtualStopBinding-discrete,
}
use cherry_pulse_kr.Execution.Journal.{Journal}
use cherry_pulse_kr.Execution.Storage.{Payload}
use cherry_pulse_kr.Execution.Storage.Extend.{extend}
use cherry_pulse_kr.Execution.History.{Extends}
use cherry_pulse_kr.Execution.InboxConfig.{
  is_number, config_of, binds_version, same_binding, is_same_application,
  existing_inbox_application,
}
use cherry_pulse_kr.Contracts.Settings.{ConfigCommand}

-- The journal holds the configuration and the binding of a command.
pub record IsRecorded (j : Journal) (c : ConfigCommand) (command_digest : ℕ)
    (b : VirtualStopBinding) (a : AppliedConfig) : Type 0 where
  pub config : config_of c.command_id j ≡ some a
  pub same : is_same_application j command_digest b a ≡ true

pub existing-eq_some :
    (j : Journal) (id : Uuid) (n : ℕ) (b : VirtualStopBinding) {a : AppliedConfig}
    → existing_inbox_application j id n b ≡ ok (some a)
    → (config_of id j ≡ some a) × (is_same_application j n b a ≡ true)
unfolding existing_inbox_application
existing-eq_some j id n b {a} h = elim (Option-cases (config_of id j)) [
  | inl absent ↦ absurd (ground (arith, rw (existing_inbox_application, absent) at h))
  | inr (x, found) ↦
      let k = rw (existing_inbox_application, found) at h in
      elim (Bool-cases (is_same_application j n b x)) [
        | inr differs ↦ absurd (ground (arith, rw differs at k))
        | inl same ↦
            let e : x ≡ a = ground (arith, rw same at k) in (rw (found, e) refl, rw (← e) same)
      ]
]

pub existing-eq_none :
    (j : Journal) (id : Uuid) (n : ℕ) (b : VirtualStopBinding)
    → existing_inbox_application j id n b ≡ ok none
    → config_of id j ≡ none
unfolding existing_inbox_application
existing-eq_none j id n b h = elim (Option-cases (config_of id j)) [
  | inl absent ↦ absent
  | inr (x, found) ↦ absurd (elim (Bool-cases (is_same_application j n b x)) [
    | inl same ↦ ground (arith, rw (existing_inbox_application, found, same) at h)
    | inr differs ↦ ground (arith, rw (existing_inbox_application, found, differs) at h)
  ])
]

pub IsRecorded-existing :
    (j : Journal) (c : ConfigCommand) (n : ℕ) (b : VirtualStopBinding) {a : AppliedConfig}
    → IsRecorded j c n b a
    → existing_inbox_application j c.command_id n b ≡ ok (some a)
unfolding existing_inbox_application
IsRecorded-existing j c n b r = rw (existing_inbox_application, r.config, r.same) refl

same_binding-some :
    (o : Option VirtualStopBinding) (b : VirtualStopBinding) → same_binding o b ≡ true → o ≡ some b
same_binding-some none b h = cc
same_binding-some (some a) b h = ap some ((decided_iff (VirtualStopBinding-discrete a b)).0 h)

pub some-same_binding : (b : VirtualStopBinding) → same_binding (some b) b ≡ true
some-same_binding b = (decided_iff (VirtualStopBinding-discrete b b)).1 refl

-- what `is_same_application` says of the bindings
same-find? : (p q r s : Bool) → (p && q && r && s) ≡ true → s ≡ true
same-find? p q r s h = ground (arith, h)

module _ (c : ConfigCommand) (n : ℕ) (b : VirtualStopBinding) {a : AppliedConfig} where
  pub IsRecorded-binding :
      (j : Journal)
      → IsRecorded j c n b a
      → find? (binds_version b.symbol b.version) j.stop_bindings ≡ some b
  IsRecorded-binding j r =
      same_binding-some (find? (binds_version b.symbol b.version) j.stop_bindings) b (
        same-find? (a.symbol == b.symbol) (a.version == b.version) (is_number a.command_digest n) _
          r.same)

  IsRecorded-keep :
      {j k : Journal}
      → ((x : AppliedConfig)
          → config_of c.command_id j ≡ some x
          → config_of c.command_id k ≡ some x)
      → find? (binds_version b.symbol b.version) k.stop_bindings
        ≡ find? (binds_version b.symbol b.version) j.stop_bindings
      → IsRecorded j c n b a
      → IsRecorded k c n b a
  IsRecorded-keep f g r = record { config = f a r.config; same = rw g r.same }

  IsRecorded-extend :
      (j : Journal) (p : Payload) → IsRecorded j c n b a → IsRecorded (extend j p) c n b a
  unfolding config_of
  IsRecorded-extend j (Payload.config x) r =
      IsRecorded-keep
        (λ y h. find?-append_some (λ d. is_number d.command_id c.command_id) j.configs (x ∷ []) h)
        refl r
  IsRecorded-extend j (Payload.stop_binding x) r =
      let s = IsRecorded-binding j r in
      IsRecorded-keep (λ y h. h)
        (find?-append_some (binds_version b.symbol b.version) j.stop_bindings (x ∷ []) s ∙ sym s) r
  IsRecorded-extend j (Payload.request x) r = IsRecorded-keep (λ y h. h) refl r
  IsRecorded-extend j (Payload.fact x) r = IsRecorded-keep (λ y h. h) refl r
  IsRecorded-extend j (Payload.allocation x) r = IsRecorded-keep (λ y h. h) refl r
  IsRecorded-extend j (Payload.control x) r = IsRecorded-keep (λ y h. h) refl r
  IsRecorded-extend j (Payload.stop_assignment x) r = IsRecorded-keep (λ y h. h) refl r
  IsRecorded-extend j (Payload.stop_latch x) r = IsRecorded-keep (λ y h. h) refl r
  IsRecorded-extend j (Payload.stop_sell_obligation x) r = IsRecorded-keep (λ y h. h) refl r

  pub IsRecorded-Extends :
      {j k : Journal} → Extends j k → IsRecorded j c n b a → IsRecorded k c n b a
  IsRecorded-Extends Extends.here r = r
  IsRecorded-Extends (Extends.more p g e) r = rw e (IsRecorded-extend _ p (IsRecorded-Extends g r))
