-- ===== src/Prelude/Last.antt =====
-- The last element of a list that passes a test, said without a search.
use mathlib.Core.Path.{◌≡◌, refl, ap}
use mathlib.Core.Logic.{◌⊎◌, inl, inr}
use mathlib.Core.Bool.{Bool, true, false}
use mathlib.Core.Option.{some}
use mathlib.Core.List.{List, [], ◌∷◌, ◌++◌}
use native.Mathlib.Omega.{arith}
use cherry_pulse_kr.Prelude.Tests.{Bool-cases}
use cherry_pulse_kr.Prelude.Lists.{any, keep, get_last?}

module _ {A : Type 0} where
  -- `x` passes the test and stands in the list, and no element behind it passes the test.
  pub data IsLast (p : A → Bool) (x : A) (xs : List A) : Type 0 where
    stands :
        (before behind : List A)
        → xs ≡ before ++ x ∷ behind
        → p x ≡ true
        → any p behind ≡ false
        → IsLast p x xs

  pub IsLast-cases : (p : A → Bool) (xs : List A) → (any p xs ≡ false) ⊎ ((x : A) × IsLast p x xs)
  IsLast-cases p [] = inl refl
  IsLast-cases p (x ∷ xs) = elim (IsLast-cases p xs) [
    | inr (y, IsLast.stands before behind e h n) ↦
        inr (y, IsLast.stands (x ∷ before) behind (ap (λ zs. x ∷ zs) e) h n)
    | inl absent ↦ elim (Bool-cases (p x)) [
      | inl hit ↦ inr (x, IsLast.stands [] xs refl hit absent)
      | inr miss ↦ inl (ground (arith, miss, absent))
    ]
  ]

  pub keep-none : (p : A → Bool) (xs : List A) → any p xs ≡ false → keep p xs ≡ []
  keep-none p [] h = refl
  keep-none p (x ∷ xs) h = ground (arith, keep-none p xs)

  get_last?-cons :
      (x : A) (xs : List A) {y : A} → get_last? xs ≡ some y → get_last? (x ∷ xs) ≡ some y
  get_last?-cons x [] h = absurd (ground arith)
  get_last?-cons x (z ∷ xs) h = h

  get_last?-split :
      (p : A → Bool) (before behind : List A) (x : A)
      → p x ≡ true
      → any p behind ≡ false
      → get_last? (keep p (before ++ x ∷ behind)) ≡ some x
  get_last?-split p [] behind x h n = rw (h, keep-none p behind n) refl
  get_last?-split p (y ∷ before) behind x h n = elim (Bool-cases (p y)) [
    | inl hit ↦
        rw hit
          (get_last?-cons y (keep p (before ++ x ∷ behind)) (get_last?-split p before behind x h n))
    | inr miss ↦ rw miss (get_last?-split p before behind x h n)
  ]

  -- The search finds it.
  pub get_last?-IsLast :
      (p : A → Bool) (xs : List A) {x : A} → IsLast p x xs → get_last? (keep p xs) ≡ some x
  get_last?-IsLast p xs {x} (IsLast.stands before behind e h n) =
      rw e (get_last?-split p before behind x h n)

  -- `x` stands in the list.
  pub data Has (x : A) (xs : List A) : Type 0 where
    stands : (before behind : List A) → xs ≡ before ++ x ∷ behind → Has x xs

  pub Has-head : (x : A) (xs : List A) → Has x (x ∷ xs)
  Has-head x xs = Has.stands [] xs refl

  pub Has-tail : (x y : A) (xs : List A) → Has x xs → Has x (y ∷ xs)
  Has-tail x y xs (Has.stands before behind e) =
      Has.stands (y ∷ before) behind (ap (λ zs. y ∷ zs) e)

  any-split :
      (p : A → Bool) (before behind : List A) (x : A)
      → p x ≡ true
      → any p (before ++ x ∷ behind) ≡ true
  any-split p [] behind x h = ground (arith, h)
  any-split p (y ∷ before) behind x h = ground (arith, any-split p before behind x h)

  pub any-Has : (p : A → Bool) (xs : List A) {x : A} → Has x xs → p x ≡ true → any p xs ≡ true
  any-Has p xs {x} (Has.stands before behind e) h = rw e (any-split p before behind x h)

  pub any-none :
      (p : A → Bool) (xs : List A) → ((x : A) → Has x xs → p x ≡ false) → any p xs ≡ false
  any-none p [] h = refl
  any-none p (x ∷ xs) h =
      let first = h x (Has-head x xs) in
      let rest = any-none p xs (λ y g. h y (Has-tail y x xs g)) in ground (arith, first, rest)

  split-cases :
      (before behind : List A) (x y : A) (xs : List A)
      → y ∷ xs ≡ before ++ x ∷ behind
      → (x ≡ y) ⊎ Has x xs
  split-cases [] behind x y xs e = inl (ground (arith, e))
  split-cases (b ∷ before) behind x y xs e = inr (Has.stands before behind (ground (arith, e)))

  pub Has-cases : (x y : A) (xs : List A) → Has x (y ∷ xs) → (x ≡ y) ⊎ Has x xs
  Has-cases x y xs (Has.stands before behind e) = split-cases before behind x y xs e

  pub Has-nil : (x : A) → Has x [] → ⊥
  Has-nil x (Has.stands [] behind e) = absurd (ground (arith, e))
  Has-nil x (Has.stands (b ∷ before) behind e) = absurd (ground (arith, e))

  pub any-IsLast : (p : A → Bool) (xs : List A) {x : A} → IsLast p x xs → any p xs ≡ true
  any-IsLast p xs (IsLast.stands before behind e h n) = any-Has p xs (Has.stands before behind e) h
