-- ===== src/Execution/InForce.antt =====
-- What execution/freshness.py asks of a command, said without the code's tests.
use cherry_pulse_kr.Prelude.{
  ℕ, ◌≡◌, refl, ◌<◌, ◌≤◌, ◌≢◌, ◌⊎◌, inl, inr, true, false, Option, none, some, arith, ◌==◌, nat_eq,
  string_eq, any, keep-none, Bool-cases, IsLast, IsLast-cases, get_last?-IsLast, ok, err,
}
use cherry_pulse_kr.Execution.Models.{
  Key, Timestamp, Datetime, LedgerError, side_eq, environment_eq, AppliedConfig, OrderCommand,
  common,
}
use cherry_pulse_kr.Execution.Journal.{Journal}
use cherry_pulse_kr.Execution.Freshness.{applied_version, is_expired, check_freshness}

-- The version is that of the last configuration of the symbol, or the first one where there is none.
pub data InForce (j : Journal) (symbol : Key) (version : ℕ) : Type 0 where
  configured :
      (c : AppliedConfig)
      → IsLast (λ d. d.symbol == symbol) c j.configs
      → version ≡ c.version
      → InForce j symbol version
  baseline :
      any (λ d. d.symbol == symbol) j.configs ≡ false → version ≡ 1 → InForce j symbol version

pub applied_version-IsLast :
    (j : Journal) (symbol : Key) {c : AppliedConfig}
    → IsLast (λ d. d.symbol == symbol) c j.configs
    → applied_version j symbol ≡ c.version
unfolding applied_version
applied_version-IsLast j symbol last =
    rw (applied_version, get_last?-IsLast (λ d. d.symbol == symbol) j.configs last) refl

pub applied_version-InForce :
    (j : Journal) (symbol : Key) → InForce j symbol (applied_version j symbol)
unfolding applied_version
applied_version-InForce j symbol = elim (IsLast-cases (λ d. d.symbol == symbol) j.configs) [
  | inl absent ↦
      InForce.baseline absent
        (rw (applied_version, keep-none (λ d. d.symbol == symbol) j.configs absent) refl)
  | inr (c, last) ↦ InForce.configured c last (applied_version-IsLast j symbol last)
]

-- The deadline, where there is one, is still to come.
abbrev pub IsInTime : Timestamp → Option Timestamp → Type 0
IsInTime now none = Unit
IsInTime now (some deadline) = now < deadline

-- A command that may be created, as far as the clock and the configuration go.
pub record IsFreshAt (j : Journal) (c : OrderCommand) (now : Datetime) : Type 0 where
  pub time : Timestamp
  pub clock : now ≡ Datetime.aware time
  pub in_time : IsInTime time (common c).expires_at
  pub current : InForce j (common c).symbol (common c).config_version

-- Why a command may not be created, with the code of the error.
pub data IsStaleAt (j : Journal) (c : OrderCommand) (now : Datetime) : LedgerError → Type 0 where
  no_zone :
      (t : Timestamp)
      → now ≡ Datetime.naive t
      → IsStaleAt j c now LedgerError.clock_timezone_required
  too_late :
      (t deadline : Timestamp)
      → now ≡ Datetime.aware t
      → (common c).expires_at ≡ some deadline
      → deadline ≤ t
      → IsStaleAt j c now LedgerError.command_expired
  outdated :
      (t : Timestamp) (version : ℕ)
      → now ≡ Datetime.aware t
      → IsInTime t (common c).expires_at
      → InForce j (common c).symbol version
      → (common c).config_version ≢ version
      → IsStaleAt j c now LedgerError.stale_config_version

deadline_cases :
    (t : Timestamp) (expires_at : Option Timestamp)
    → ((is_expired expires_at t ≡ false) × IsInTime t expires_at)
      ⊎ ((d : Timestamp) × (is_expired expires_at t ≡ true) × (expires_at ≡ some d) × (d ≤ t))
deadline_cases t none = inl (refl, tt)
deadline_cases t (some d) = elim (Bool-cases (is_expired (some d) t)) [
  | inl late ↦ inr (d, late, refl, ground (arith, late))
  | inr early ↦ inl (early, ground (arith, early))
]

-- The check refuses what is stale, and nothing else.
pub check_freshness-cases :
    (j : Journal) (c : OrderCommand) (now : Datetime)
    → ((check_freshness j c now ≡ ok tt) × IsFreshAt j c now)
      ⊎ ((e : LedgerError) × (check_freshness j c now ≡ err e) × IsStaleAt j c now e)
unfolding check_freshness
check_freshness-cases j c (Datetime.naive t) =
    inr (LedgerError.clock_timezone_required, refl, IsStaleAt.no_zone t refl)
check_freshness-cases j c (Datetime.aware t) = elim (deadline_cases t (common c).expires_at) [
  | inr (d, late, e, above) ↦ inr (
    LedgerError.command_expired,
    rw (check_freshness, late) refl,
    IsStaleAt.too_late t d refl e above,
  )
  | inl (early, in_time) ↦
      elim (Bool-cases ((common c).config_version == applied_version j (common c).symbol)) [
        | inl same ↦
            let e = (nat_eq.equal_iff (common c).config_version _).0 same in
            inl (
              rw (check_freshness, early, same) refl,
              record {
                time = t;
                clock = refl;
                in_time = in_time;
                current = rw e (applied_version-InForce j (common c).symbol);
              },
            )
        | inr other ↦ inr (
          LedgerError.stale_config_version,
          rw (check_freshness, early, other) refl,
          IsStaleAt.outdated t (applied_version j (common c).symbol) refl in_time
              (applied_version-InForce j (common c).symbol)
              (λ e. absurd (ground (arith, other, (nat_eq.equal_iff _ _).1 e))),
        )
      ]
]
