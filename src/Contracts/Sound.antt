-- ===== src/Contracts/Sound.antt =====
-- contracts/inbox.py: what holds of a table that only the calls of the inbox wrote. Each command
-- identity is used in one account: `account_of` names it.
use cherry_pulse_kr.Prelude.{
  ℕ, ◌≡◌, refl, sym, ap, ◌∙◌, inl, inr, true, false, some, List, [], ◌∷◌, arith, nat_eq, string_eq,
  Bool-cases, Option-cases, any, find?, ok, Bool, ◌||◌,
}
use cherry_pulse_kr.Execution.Models.{Uuid, Key, Environment, environment_eq}
use cherry_pulse_kr.Contracts.Settings.{ConfigCommand}
use cherry_pulse_kr.Contracts.Inbox.{
  ApplyState, ConfigRow, row_accepted, has_id, row_clashes, version_if,
}
use cherry_pulse_kr.Contracts.Application.{update_id, accepted_row}
use cherry_pulse_kr.Contracts.Moves.{
  Moves, Evolves, IsDistinct, update_id-Evolves, All, update_id-All,
}

pub accepted_row-eq_ok :
    (id : Uuid) (rows : List ConfigRow) {r : ConfigRow}
    → accepted_row id rows ≡ ok r
    → (find? (has_id id) rows ≡ some r) × (row_accepted r ≡ true)
unfolding accepted_row
accepted_row-eq_ok id rows {r} h = elim (Option-cases (find? (has_id id) rows)) [
  | inl none_found ↦ absurd (ground (arith, rw none_found at h))
  | inr (x, found) ↦
      let k = rw found at h in
      let x_r : x ≡ r = ground (arith, k) in (rw (found, x_r) refl, ground (arith, rw x_r at k))
]

pub accepted_row-found :
    (id : Uuid) (rows : List ConfigRow) {r : ConfigRow}
    → find? (has_id id) rows ≡ some r
    → row_accepted r ≡ true
    → accepted_row id rows ≡ ok r
unfolding accepted_row
accepted_row-found id rows found a = rw (accepted_row, found) (rw a refl)

or_right : (b c : Bool) → ((b || true) || c) ≡ true
or_right b c = ground arith

module _ (digest : ConfigCommand → ℕ) (account_of : Uuid → Key × Environment) where
  -- The columns repeat the payload, and the states agree with each other.
  pub record RowSound (r : ConfigRow) : Type 0 where
    pub account : r.account_id ≡ r.payload.settings.account_id
    pub environment : r.environment ≡ r.payload.settings.environment
    pub symbol : r.symbol ≡ r.payload.settings.symbol
    pub key : r.idempotency_key ≡ r.payload.idempotency_key
    pub id : r.command_id ≡ r.payload.command_id
    pub fingerprint : r.digest ≡ digest r.payload
    pub owner : account_of r.command_id ≡ (r.account_id, r.environment)
    pub version : r.accepted_version ≡ version_if r.decision r.payload.settings.version
    pub unapplied : row_accepted r ≡ false → r.apply_state ≡ ApplyState.not_applied
    pub applied :
        r.apply_state ≡ ApplyState.applied → r.applied_version ≡ some r.payload.settings.version

  abbrev pub AllSound : List ConfigRow → Type 0
  AllSound = All RowSound

  -- no two rows clash
  abbrev pub IsSeparate : List ConfigRow → Type 0
  IsSeparate [] = Unit
  IsSeparate (r ∷ rows) = (any (row_clashes r) rows ≡ false) × IsSeparate rows

  pub record IsSound (rows : List ConfigRow) : Type 0 where
    pub each : AllSound rows
    pub separate : IsSeparate rows

  pub record Progress (rows rows' : List ConfigRow) : Type 0 where
    pub evolves : Evolves rows rows'
    pub sound : IsSound rows'

  same_id-row_clashes :
      (x y : ConfigRow)
      → RowSound x
      → RowSound y
      → has_id x.command_id y ≡ true
      → row_clashes x y ≡ true
  same_id-row_clashes x y sx sy h =
      let e = (nat_eq.equal_iff _ _).0 h in
      let o = sym sy.owner ∙ ap account_of e ∙ sx.owner in
      let a = (string_eq.equal_iff y.account_id x.account_id).1 (ap (λ p. p.0) o) in
      let b = (environment_eq.equal_iff y.environment x.environment).1 (ap (λ p. p.1) o) in
      rw (a, b, h) (or_right _ _)

  any-has_id :
      (x : ConfigRow) (rows : List ConfigRow)
      → RowSound x
      → AllSound rows
      → any (row_clashes x) rows ≡ false
      → any (has_id x.command_id) rows ≡ false
  any-has_id x [] sx ss h = refl
  any-has_id x (y ∷ rows) sx (sy, ss) h = elim (Bool-cases (has_id x.command_id y)) [
    | inl same ↦ absurd (ground (arith, rw (same_id-row_clashes x y sx sy same) at h))
    | inr differs ↦ rw differs (any-has_id x rows sx ss (ground (arith, h)))
  ]

  pub IsSound-IsDistinct :
      (rows : List ConfigRow) → AllSound rows → IsSeparate rows → IsDistinct rows
  IsSound-IsDistinct [] s p = tt
  IsSound-IsDistinct (r ∷ rows) (s, ss) (p, ps) =
      (any-has_id r rows s ss p, IsSound-IsDistinct rows ss ps)

  -- An update of columns that no constraint reads.
  pub record Inert (f : ConfigRow → ConfigRow) : Type 0 where
    pub right : (x y : ConfigRow) → row_clashes x (f y) ≡ row_clashes x y
    pub left : (x y : ConfigRow) → row_clashes (f x) y ≡ row_clashes x y

  any-update_id :
      (x : ConfigRow) (id : Uuid) (f : ConfigRow → ConfigRow) (rows : List ConfigRow)
      → Inert f
      → any (row_clashes x) (update_id id f rows) ≡ any (row_clashes x) rows
  any-update_id x id f [] n = refl
  any-update_id x id f (y ∷ rows) n = elim (Bool-cases (has_id id y)) [
    | inl same ↦ rw (same, n.right, any-update_id x id f rows n) refl
    | inr differs ↦ rw (differs, any-update_id x id f rows n) refl
  ]

  any-left :
      (f : ConfigRow → ConfigRow) (x : ConfigRow) (rows : List ConfigRow)
      → Inert f
      → any (row_clashes (f x)) rows ≡ any (row_clashes x) rows
  any-left f x [] n = refl
  any-left f x (y ∷ rows) n = rw (n.left, any-left f x rows n) refl

  update_id-IsSeparate :
      (id : Uuid) (f : ConfigRow → ConfigRow) (rows : List ConfigRow)
      → Inert f
      → IsSeparate rows
      → IsSeparate (update_id id f rows)
  update_id-IsSeparate id f [] n p = tt
  update_id-IsSeparate id f (x ∷ rows) n (p, ps) = elim (Bool-cases (has_id id x)) [
    | inl same ↦
        rw same
          (any-left f x _ n ∙ any-update_id x id f rows n ∙ p, update_id-IsSeparate id f rows n ps)
    | inr differs ↦
        rw differs (any-update_id x id f rows n ∙ p, update_id-IsSeparate id f rows n ps)
  ]

  pub update-Progress :
      (id : Uuid) (f : ConfigRow → ConfigRow) (rows : List ConfigRow) {r : ConfigRow}
      → IsSound rows
      → accepted_row id rows ≡ ok r
      → Inert f
      → Moves r (f r)
      → (RowSound r → RowSound (f r))
      → Progress rows (update_id id f rows)
  update-Progress id f rows s h n m g =
      let (found, a) = accepted_row-eq_ok id rows h in
      let d = IsSound-IsDistinct rows s.each s.separate in
      record {
        evolves = update_id-Evolves id f rows d found a m;
        sound = record {
          each = update_id-All RowSound id f rows d found g s.each;
          separate = update_id-IsSeparate id f rows n s.separate;
        };
      }
