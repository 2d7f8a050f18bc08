-- ===== src/Execution/Price.antt =====
-- Price texts of execution/models.py and their exact decimal values.
use cherry_pulse_kr.Prelude.{
  ℕ, ◌+◌, ◌*◌, ◌^◌, ◌≡◌, Bool, List, [], ◌∷◌, ◌++◌, ◌==◌, nat_eq, ltb, if◌then◌else◌, length,
}

-- A text `[0-9]+(\.[0-9]+)?` by its digits: `frac` is empty where there is no point.
pub record Price : Type 0 where
  pub whole : List ℕ
  pub frac : List ℕ

-- `lstrip("0")`
unfoldable pub strip_left : List ℕ → List ℕ
strip_left [] = []
strip_left (d ∷ ds) = if d == 0 then strip_left ds else d ∷ ds

-- a zero in front of what is left disappears where nothing is left
abbrev pub unless_zero : ℕ → List ℕ → List ℕ
unless_zero d [] = if d == 0 then [] else d ∷ []
unless_zero d (e ∷ ds) = d ∷ e ∷ ds

-- `rstrip("0")`
pub strip_right : List ℕ → List ℕ
strip_right [] = []
strip_right (d ∷ ds) = unless_zero d (strip_right ds)

-- `... or "0"`
abbrev pub or_zero : List ℕ → List ℕ
or_zero [] = 0 ∷ []
or_zero (d ∷ ds) = d ∷ ds

-- `New.canonical_price`. With a point, `format(Decimal(value), "f")` drops the leading zeros of
-- the whole part and keeps the fraction, whose zeros (and then the point) are stripped.
unfoldable pub canonical_price : Price → Price
unfolding strip_left strip_right
canonical_price p = record { whole = or_zero (strip_left p.whole); frac = strip_right p.frac }

abbrev pub number_of : ℕ → List ℕ → ℕ
number_of n [] = n
number_of n (d ∷ ds) = number_of (n * 10 + d) ds

-- `Decimal(price)` is `coefficient / 10 ^ length frac`.
unfoldable pub coefficient : Price → ℕ
coefficient p = number_of 0 (p.whole ++ p.frac)

-- `Decimal(price) > 0`
unfoldable pub is_positive : Price → Bool
unfolding coefficient
is_positive p = ltb 0 (coefficient p)

-- `Decimal(a) == Decimal(b)`
abbrev pub SameValue : Price → Price → Type 0
SameValue a b = coefficient a * 10 ^ length b.frac ≡ coefficient b * 10 ^ length a.frac
