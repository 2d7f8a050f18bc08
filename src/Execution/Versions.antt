-- ===== src/Execution/Versions.antt =====
-- Configuration versions: `Ledger.apply_config` of execution/ledger.py.
use cherry_pulse_kr.Prelude.{
  ℕ, ◌<◌, ◌≡◌, refl, sym, ap, ◌∙◌, ◌≢◌, inl, inr, true, false, not, some, List, [], ◌∷◌, ◌++◌,
  append-nil, arith, leb, ◌==◌, nat_eq, string_eq, Bool-cases, keep, get_last?, keep-append,
  get_last?-append, ok, raise_if,
}
use cherry_pulse_kr.Execution.Models.{
  Uuid, Key, LedgerError, Raises, side_eq, environment_eq, AppliedConfig,
}
use cherry_pulse_kr.Execution.Journal.{Journal}
use cherry_pulse_kr.Execution.External.{External}
use cherry_pulse_kr.Execution.Freshness.{applied_version}
use cherry_pulse_kr.Execution.Storage.{Payload}
use cherry_pulse_kr.Execution.Transaction.{Store, lift, read_journal, ensure_ready}
use cherry_pulse_kr.Execution.Configure.{advance_config, apply_config, plain_config}
use cherry_pulse_kr.Execution.Storage.Extend.{extend}
use cherry_pulse_kr.Execution.History.{
  journal_of, append_entry-extend, lift-eq_ok, ensure_ready-eq_ok, transaction-eq_ok, bind-eq_ok,
  read_journal-eq_ok, raise_if-eq_ok,
}
use cherry_pulse_kr.Execution.External.{External}

get_last?-keep_hit :
    (symbol : Key) (cs : List AppliedConfig) (c : AppliedConfig)
    → (c.symbol == symbol) ≡ true
    → get_last? (keep (λ d. d.symbol == symbol) (cs ++ c ∷ [])) ≡ some c
get_last?-keep_hit symbol cs c h =
    rw (keep-append (λ (d : AppliedConfig). d.symbol == symbol) cs (c ∷ []), h)
      (get_last?-append (keep (λ (d : AppliedConfig). d.symbol == symbol) cs) c)

keep-append_miss :
    (symbol : Key) (cs : List AppliedConfig) (c : AppliedConfig)
    → (c.symbol == symbol) ≡ false
    → keep (λ d. d.symbol == symbol) (cs ++ c ∷ []) ≡ keep (λ d. d.symbol == symbol) cs
keep-append_miss symbol cs c h =
    rw (keep-append (λ (d : AppliedConfig). d.symbol == symbol) cs (c ∷ []), h) (append-nil _)

-- The applied version once a configuration was appended.
pub applied_version-extend :
    (j : Journal) (c : AppliedConfig)
    → applied_version (extend j (Payload.config c)) c.symbol ≡ c.version
unfolding applied_version
applied_version-extend j c =
    rw (applied_version, get_last?-keep_hit c.symbol j.configs c ((string_eq.equal_iff _ _).1 refl))
      refl

applied_version-extend_other :
    (j : Journal) (c : AppliedConfig) (other : Key)
    → c.symbol ≢ other
    → applied_version (extend j (Payload.config c)) other ≡ applied_version j other
unfolding applied_version
applied_version-extend_other j c other h = elim (Bool-cases (c.symbol == other)) [
  | inl same ↦ absurd (h ((string_eq.equal_iff _ _).0 same))
  | inr differs ↦ rw (applied_version, keep-append_miss other j.configs c differs) refl
]

module _ (ext : External) where
  advance_config-eq_ok :
      (c : AppliedConfig) (n : ℕ) (fresh : Uuid) (s : Store) {u : Unit {0}} {s' : Store}
      → advance_config ext c n fresh s ≡ ok (u, s')
      → (applied_version (journal_of s) c.symbol ≡ n)
        × (n < c.version)
        × (journal_of s' ≡ extend (journal_of s) (Payload.config c))
  unfolding advance_config
  advance_config-eq_ok c n fresh s h =
      let (u1, s1, p1, q1) = bind-eq_ok ensure_ready _ s h in
      let (j, s2, p2, q2) = bind-eq_ok read_journal _ s1 q1 in
      let stale : Raises (Unit {0}) =
        raise_if (not (applied_version j c.symbol == n)) LedgerError.stale_config_version in
      let (u3, s3, p3, q3) = bind-eq_ok (lift stale) _ s2 q2 in
      let old : Raises (Unit {0}) =
        raise_if (leb c.version n) LedgerError.config_version_must_advance in
      let (u4, s4, p4, q4) = bind-eq_ok (lift old) _ s3 q3 in
      let (a2, e2) = read_journal-eq_ok s1 p2 in
      let (a3, e3) = lift-eq_ok stale s2 p3 in
      let (a4, e4) = lift-eq_ok old s3 p4 in
      let e : s4 ≡ s = e4 ∙ e3 ∙ e2 ∙ (ensure_ready-eq_ok s p1).1 in
      let j_s : j ≡ journal_of s = a2 ∙ ap journal_of (ensure_ready-eq_ok s p1).1 in
      let current = raise_if-eq_ok (not (applied_version j c.symbol == n)) _ a3 in
      let newer = raise_if-eq_ok (leb c.version n) _ a4 in
      (
        ap (λ k. applied_version k c.symbol) (sym j_s)
            ∙ (nat_eq.equal_iff _ _).0 (ground (arith, current)),
        ground (arith, newer),
        append_entry-extend _ s4 q4 ∙ ap (λ k. extend (journal_of k) (Payload.config c)) e,
      )

  -- When a configuration is applied, the applied version of the symbol was the expected one and
  -- is now the new one, which is greater, and the versions of all other symbols are the same.
  pub apply_config-advances :
      (symbol : Key) (expected_version version : ℕ) (fresh : Uuid) (s : Store) {u : Unit {0}}
      {s' : Store}
      → apply_config ext symbol expected_version version fresh s ≡ ok (u, s')
      → (applied_version (journal_of s) symbol ≡ expected_version)
        × (expected_version < version)
        × (applied_version (journal_of s') symbol ≡ version)
        × ((other : Key)
            → symbol ≢ other
            → applied_version (journal_of s') other ≡ applied_version (journal_of s) other)
  unfolding apply_config
  apply_config-advances symbol expected_version version fresh s h =
      let c : AppliedConfig = plain_config ext symbol version in
      let (own, run) = transaction-eq_ok _ s h in
      let (a, b, e) = advance_config-eq_ok c expected_version fresh s run in
      (
        a,
        b,
        ap (λ k. applied_version k symbol) e ∙ applied_version-extend (journal_of s) c,
        λ other ne.
            ap (λ k. applied_version k other) e
            ∙ applied_version-extend_other (journal_of s) c other ne,
      )
