-- ===== src/Contracts/Received.antt =====
-- contracts/inbox.py: what `ConfigInbox.receive` does on each of its branches.
use cherry_pulse_kr.Prelude.{
  ℕ, ◌≤◌, ◌<◌, ◌≡◌, refl, ◌∙◌, inl, inr, Bool, true, false, not, ◌&&◌, ◌||◌, Option, none, some,
  List, [], ◌∷◌, ◌++◌, arith, leb, if◌then◌else◌, ◌==◌, nat_eq, string_eq, Bool-cases, Option-cases,
  any, keep, pick, ok,
}
use cherry_pulse_kr.Execution.Models.{Datetime, environment_eq, Timestamp}
use cherry_pulse_kr.Contracts.Settings.{
  Settings, Actor, ConfigCommand, ConfigDecision, DecisionReason, DecisionState, is_authorized,
  decide, reason_at, state_of,
}
use cherry_pulse_kr.Contracts.Inbox.{
  ConfigRow, row_clashes, version_if, in_account, same_number, is_prior, scope_version, max_of,
  current_version, new_row, insert_row, record_decision,
}

-- a version above all accepted ones meets no row of its symbol
same_number-above :
    (v : ℕ) (a : Option ℕ) → ((n : ℕ) → a ≡ some n → n < v) → same_number a (some v) ≡ false
same_number-above v none h = refl
same_number-above v (some n) h = let k = h n refl in ground (arith, k)

same_number-none : (a : Option ℕ) → same_number a none ≡ false
same_number-none none = refl
same_number-none (some n) = refl

pub keep-eq_nil :
    {A : Type 0} (p : A → Bool) (x : A) (xs : List A)
    → keep p (x ∷ xs) ≡ []
    → (p x ≡ false) × (keep p xs ≡ [])
keep-eq_nil p x xs h = elim (Bool-cases (p x)) [
  | inl e ↦ absurd (ground (arith, rw e at h))
  | inr e ↦ (e, rw e at h)
]

module _ {A : Type 0} (f : A → Option ℕ) where
  pub pick-head_le : (x : A) (xs : List A) (n : ℕ) → f x ≡ some n → n ≤ max_of (pick f (x ∷ xs))
  pick-head_le x xs n h = rw (max_of, h) (ground arith)

  pub pick-tail_le : (x : A) (xs : List A) → max_of (pick f xs) ≤ max_of (pick f (x ∷ xs))
  pick-tail_le x xs = elim (Option-cases (f x)) [
    | inl h ↦ rw (max_of, h) (ground arith)
    | inr (n, h) ↦ rw (max_of, h) (ground arith)
  ]

scope_version-own :
    (s : Settings) (r : ConfigRow)
    → in_account s.account_id s.environment r ≡ true
    → (r.symbol == s.symbol) ≡ true
    → scope_version s r ≡ r.accepted_version
scope_version-own s r a b = rw (scope_version, a, b) refl

-- no row of the symbol has the version that is new
version-free :
    (s : Settings) (state : DecisionState) (r : ConfigRow) (rows : List ConfigRow)
    → (state ≡ DecisionState.accepted → max_of (pick (scope_version s) (r ∷ rows)) < s.version)
    → in_account s.account_id s.environment r ≡ true
    → (r.symbol == s.symbol) ≡ true
    → same_number r.accepted_version (version_if state s.version) ≡ false
version-free s DecisionState.rejected r rows v a b = same_number-none r.accepted_version
version-free s DecisionState.accepted r rows v a b =
    same_number-above s.version r.accepted_version (λ n e.
      let k = pick-head_le (scope_version s) r rows n (scope_version-own s r a b ∙ e) in
      let l = v refl in ground (arith, k, l))

clash_absent :
    (i s k d n t : Bool)
    → (i && (s && k || d)) ≡ false
    → (i ≡ true → s ≡ true → n ≡ false)
    → t ≡ false
    → ((i && (s && k || d || s && n)) || t) ≡ false
clash_absent false s k d n t h f e = e
clash_absent true true k d n t h f e = let g = f refl refl in ground (arith, h, g, e)
clash_absent true false k d n t h f e = ground (arith, h, e)

-- A new command meets no constraint of the table.
pub any-row_clashes :
    (c : ConfigCommand) (fingerprint : ℕ) (actor : Actor) (d : ConfigDecision)
    (rows : List ConfigRow)
    → keep (is_prior c) rows ≡ []
    → (d.state ≡ DecisionState.accepted
        → max_of (pick (scope_version c.settings) rows) < c.settings.version)
    → any (row_clashes (new_row c fingerprint actor d)) rows ≡ false
any-row_clashes c fingerprint actor d [] h v = refl
any-row_clashes c fingerprint actor d (r ∷ rows) h v =
    let (first, rest) = keep-eq_nil (is_prior c) r rows h in
    let ih = any-row_clashes c fingerprint actor d rows rest (λ e.
      let k = v e in
      let l = pick-tail_le (scope_version c.settings) r rows in ground (arith, k, l)) in
    clash_absent (in_account c.settings.account_id c.settings.environment r)
      (r.symbol == c.settings.symbol) (r.idempotency_key == c.idempotency_key)
      (r.command_id == c.command_id)
      (same_number r.accepted_version (version_if d.state c.settings.version)) _ first
      (version-free c.settings d.state r rows v) ih

chain_accepted :
    (p q r s : Bool)
    → (if not p
        then DecisionReason.config_unauthorized
        else if q
        then DecisionReason.command_expired
        else if not r
        then DecisionReason.stale_config_version
        else if s
        then DecisionReason.config_version_must_advance
        else DecisionReason.accepted)
      ≡ DecisionReason.accepted
    → (p ≡ true) × (q ≡ false) × (r ≡ true) × (s ≡ false)
chain_accepted true false true false h = (refl, refl, refl, refl)
chain_accepted false q r s h = cc
chain_accepted true true r s h = cc
chain_accepted true false false s h = cc
chain_accepted true false true true h = cc

reason_at-accepted :
    (c : ConfigCommand) (a : Actor) (n : ℕ) (now : ℕ)
    → reason_at c a n now ≡ DecisionReason.accepted
    → (is_authorized a c.settings ≡ true)
      × (now < c.expires_at)
      × (n ≡ c.expected_version)
      × (n < c.settings.version)
reason_at-accepted c a n now h =
    let (p, q, r, s) =
      chain_accepted (is_authorized a c.settings) (leb c.expires_at now) (n == c.expected_version)
        (leb c.settings.version n) h in
    (p, ground (arith, q), (nat_eq.equal_iff _ _).0 r, ground (arith, s))

state_of-accepted :
    (r : DecisionReason) → state_of r ≡ DecisionState.accepted → r ≡ DecisionReason.accepted
state_of-accepted DecisionReason.accepted h = refl
state_of-accepted _ h = cc

module _ (digest : ConfigCommand → ℕ) where
  -- What an accepted decision says of the command and of the clock.
  pub decide-accepted :
      (c : ConfigCommand) (a : Actor) (n : ℕ) (now : Datetime)
      → (decide digest c a n now).state ≡ DecisionState.accepted
      → (is_authorized a c.settings ≡ true)
        × ((t : Timestamp) × (now ≡ Datetime.aware t) × (t < c.expires_at))
        × (n ≡ c.expected_version)
        × (n < c.settings.version)
  unfolding decide
  decide-accepted c a n (Datetime.naive t) h = cc
  decide-accepted c a n (Datetime.aware t) h =
      let (p, q, r, s) = reason_at-accepted c a n t (state_of-accepted _ h) in
      (p, (t, refl, q), r, s)

  pub record_decision-total :
      (c : ConfigCommand) (a : Actor) (now : Datetime) (rows : List ConfigRow)
      → keep (is_prior c) rows ≡ []
      → record_decision digest c a now rows
        ≡ ok (
          decide digest c a (current_version c.settings rows) now,
          rows
              ++ new_row c (digest c) a (decide digest c a (current_version c.settings rows) now)
                ∷ [],
        )
  unfolding record_decision insert_row current_version
  record_decision-total c a now rows h =
      rw
        (
          any-row_clashes c (digest c) a (decide digest c a (current_version c.settings rows) now)
              rows h (λ e. let (p, q, m, s) = decide-accepted c a _ now e in s),
          record_decision,
        )
        refl
