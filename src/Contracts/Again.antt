-- ===== src/Contracts/Again.antt =====
-- contracts/inbox.py: a command that `ConfigInbox.receive` has decided is received again.
use cherry_pulse_kr.Prelude.{
  ℕ, ◌≡◌, refl, sym, ap, ◌∙◌, ◌⊎◌, inl, inr, Bool, true, false, ◌&&◌, ◌||◌, none, some, List, [],
  ◌∷◌, arith, ◌==◌, nat_eq, string_eq, decided_iff, Bool-cases, any, keep, find?,
}
use cherry_pulse_kr.Execution.Models.{Uuid, Key, Environment, environment_eq}
use cherry_pulse_kr.Contracts.Settings.{ConfigCommand, ConfigDecision, ConfigCommand-discrete}
use cherry_pulse_kr.Contracts.Inbox.{
  ConfigRow, is_prior, is_same_command, recorded_decision, has_id, in_account, row_clashes,
  same_number,
}
use cherry_pulse_kr.Contracts.Sound.{RowSound, AllSound, IsSeparate}
use cherry_pulse_kr.Contracts.Received.{keep-eq_nil}
use cherry_pulse_kr.Contracts.Append.{row_clashes_sym}

-- The row stands for the command.
pub record IsFor (c : ConfigCommand) (r : ConfigRow) : Type 0 where
  pub account : r.account_id ≡ c.settings.account_id
  pub environment : r.environment ≡ c.settings.environment
  pub symbol : r.symbol ≡ c.settings.symbol
  pub key : r.idempotency_key ≡ c.idempotency_key
  pub id : r.command_id ≡ c.command_id
  pub payload : r.payload ≡ c

-- The table has decided on the command.
pub record Decided (c : ConfigCommand) (d : ConfigDecision) (rows : List ConfigRow) : Type 0 where
  pub row : ConfigRow
  pub found : find? (has_id c.command_id) rows ≡ some row
  pub stands : IsFor c row
  pub decision : recorded_decision row ≡ d

keep-cons_one :
    {A : Type 0} (p : A → Bool) (x r : A) (xs : List A)
    → keep p (x ∷ xs) ≡ r ∷ []
    → ((p x ≡ true) × (x ≡ r)) ⊎ ((p x ≡ false) × (keep p xs ≡ r ∷ []))
keep-cons_one p x r xs h = elim (Bool-cases (p x)) [
  | inl e ↦ let k = rw e at h in inl (e, ground (arith, k))
  | inr e ↦ inr (e, rw e at h)
]

prior_clash : (i p q n : Bool) → (i && (p || q)) ≡ true → (i && (p || q || n)) ≡ true
prior_clash i p q n h = ground (arith, h)

-- a row that stands for the command clashes with each row that the query selects
IsFor-row_clashes :
    (c : ConfigCommand) (r y : ConfigRow) → IsFor c r → is_prior c y ≡ true → row_clashes r y ≡ true
IsFor-row_clashes c r y s p =
    rw (s.account, s.environment, s.symbol, s.key, s.id)
      (prior_clash (in_account c.settings.account_id c.settings.environment y)
        (y.symbol == c.settings.symbol && y.idempotency_key == c.idempotency_key)
        (y.command_id == c.command_id)
        (y.symbol == c.settings.symbol && same_number y.accepted_version r.accepted_version) p)

pub IsFor-is_same_command :
    (c : ConfigCommand) (r : ConfigRow) → IsFor c r → is_same_command c r ≡ true
IsFor-is_same_command c r s =
    let a = (string_eq.equal_iff _ _).1 s.symbol in
    let b = (string_eq.equal_iff _ _).1 s.key in
    let d = (nat_eq.equal_iff _ _).1 s.id in
    let e = (decided_iff (ConfigCommand-discrete r.payload c)).1 s.payload in
    rw (is_same_command, a, b, d, e) refl

pub is_same_command-IsFor :
    (c : ConfigCommand) (r : ConfigRow)
    → is_prior c r ≡ true
    → is_same_command c r ≡ true
    → IsFor c r
is_same_command-IsFor c r p s = record {
  account = (string_eq.equal_iff _ _).0 (ground (arith, p));
  environment = (environment_eq.equal_iff _ _).0 (ground (arith, p));
  symbol = (string_eq.equal_iff _ _).0 (ground (arith, s));
  key = (string_eq.equal_iff _ _).0 (ground (arith, s));
  id = (nat_eq.equal_iff _ _).0 (ground (arith, s));
  payload = (decided_iff (ConfigCommand-discrete r.payload c)).0 (ground (arith, s));
}

IsFor-is_prior : (c : ConfigCommand) (r : ConfigRow) → IsFor c r → is_prior c r ≡ true
IsFor-is_prior c r s =
    let a = (string_eq.equal_iff _ _).1 s.account in
    let b = (environment_eq.equal_iff _ _).1 s.environment in
    let d = (nat_eq.equal_iff _ _).1 s.id in rw (is_prior, a, b, d) (ground arith)

find?-any :
    {A : Type 0} (p q : A → Bool) (xs : List A) {r : A}
    → find? p xs ≡ some r
    → q r ≡ true
    → any q xs ≡ true
find?-any p q [] h e = cc
find?-any p q (x ∷ xs) {r} h e = elim (Bool-cases (p x)) [
  | inl hit ↦ let x_r : x ≡ r = ground (arith, rw hit at h) in rw (x_r, e) refl
  | inr miss ↦ let later = find?-any p q xs (rw miss at h) e in ground (arith, later)
]

no_clash-keep :
    (c : ConfigCommand) (r : ConfigRow) (rows : List ConfigRow)
    → IsFor c r
    → any (row_clashes r) rows ≡ false
    → keep (is_prior c) rows ≡ []
no_clash-keep c r [] s h = refl
no_clash-keep c r (y ∷ rows) s h = elim (Bool-cases (is_prior c y)) [
  | inl prior ↦ absurd (ground (arith, rw (IsFor-row_clashes c r y s prior) at h))
  | inr other ↦ rw other (no_clash-keep c r rows s (ground (arith, h)))
]

module _ (digest : ConfigCommand → ℕ) (account_of : Uuid → Key × Environment) where
  -- the row of a command is the only one that the query selects
  pub keep-is_prior :
      (c : ConfigCommand) (rows : List ConfigRow) (r : ConfigRow)
      → IsFor c r
      → IsSeparate digest account_of rows
      → find? (has_id c.command_id) rows ≡ some r
      → keep (is_prior c) rows ≡ r ∷ []
  keep-is_prior c [] r s p h = cc
  keep-is_prior c (x ∷ rows) r s (p, ps) h = elim (Bool-cases (has_id c.command_id x)) [
    | inl same ↦
        let e : x ≡ r = ground (arith, rw same at h) in
        rw (e, IsFor-is_prior c r s, no_clash-keep c r rows s (rw e at p)) refl
    | inr differs ↦ elim (Bool-cases (is_prior c x)) [
      | inl prior ↦
          let e : row_clashes x r ≡ true = row_clashes_sym x r ∙ IsFor-row_clashes c r x s prior in
          absurd (
            ground
              (arith, p, find?-any (has_id c.command_id) (row_clashes x) rows (rw differs at h) e))
      | inr other ↦ rw other (keep-is_prior c rows r s ps (rw differs at h))
    ]
  ]

  -- in a sound table a row with the identity of the command is selected
  owned-is_prior :
      (c : ConfigCommand) (y : ConfigRow)
      → account_of c.command_id ≡ (c.settings.account_id, c.settings.environment)
      → RowSound digest account_of y
      → has_id c.command_id y ≡ true
      → is_prior c y ≡ true
  owned-is_prior c y o s h =
      let e : (y.account_id, y.environment) ≡ (c.settings.account_id, c.settings.environment) =
        sym s.owner ∙ ap account_of ((nat_eq.equal_iff _ _).0 h) ∙ o in
      let a = (string_eq.equal_iff _ _).1 (ap (λ p. p.0) e) in
      let b = (environment_eq.equal_iff _ _).1 (ap (λ p. p.1) e) in
      rw (is_prior, a, b, h) (ground arith)

  pub find?-fresh :
      (c : ConfigCommand) (rows : List ConfigRow)
      → account_of c.command_id ≡ (c.settings.account_id, c.settings.environment)
      → AllSound digest account_of rows
      → keep (is_prior c) rows ≡ []
      → find? (has_id c.command_id) rows ≡ none
  find?-fresh c [] o s h = refl
  find?-fresh c (x ∷ rows) o (s, ss) h =
      let (p, k) = keep-eq_nil (is_prior c) x rows h in
      elim (Bool-cases (has_id c.command_id x)) [
        | inl same ↦ absurd (ground (arith, p, owned-is_prior c x o s same))
        | inr differs ↦ rw differs (find?-fresh c rows o ss k)
      ]

  pub find?-selected :
      (c : ConfigCommand) (rows : List ConfigRow) (r : ConfigRow)
      → account_of c.command_id ≡ (c.settings.account_id, c.settings.environment)
      → AllSound digest account_of rows
      → has_id c.command_id r ≡ true
      → keep (is_prior c) rows ≡ r ∷ []
      → (find? (has_id c.command_id) rows ≡ some r) × (is_prior c r ≡ true)
  find?-selected c [] r o s i h = cc
  find?-selected c (x ∷ rows) r o (s, ss) i h = elim (keep-cons_one (is_prior c) x r rows h) [
    | inl (p, e) ↦
        (let hit : has_id c.command_id x ≡ true = rw e i in rw hit (rw e refl), rw (← e) p)
    | inr (p, k) ↦ elim (Bool-cases (has_id c.command_id x)) [
      | inl same ↦ absurd (ground (arith, p, owned-is_prior c x o s same))
      | inr differs ↦ rw differs (find?-selected c rows r o ss i k)
    ]
  ]
