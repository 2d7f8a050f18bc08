-- ===== src/Contracts/Decimal.antt =====
-- The arithmetic of Python's `decimal` on numbers that are not negative, under the default context:
-- 28 digits, a half rounded to the even digit. contracts/ and execution/projection.py use it.
use cherry_pulse_kr.Prelude.{
  ℕ, zero, suc, ◌+◌, ◌-◌, ◌*◌, ◌^◌, Bool, ltb, leb, if◌then◌else◌, ◌==◌, nat_eq, string_eq, length,
  true, false,
}
use cherry_pulse_kr.Prelude.Int.{ℤ, pos, pos_part, ◌+ℤ◌, ◌-ℤ◌}
use Prim.Native.Nat.{◌/◌, ◌%◌}
use cherry_pulse_kr.Prelude.Int.{ℤ, pos, pos_part, ◌+ℤ◌, ◌-ℤ◌}
use cherry_pulse_kr.Execution.Price.{Price, coefficient}

-- `coefficient * 10 ** exponent`
pub record Decimal : Type 0 where
  pub digits : ℕ
  pub exponent : ℤ

abbrev pub precision : ℕ
precision = 28

-- `Decimal(text)`, which is exact
unfoldable pub decimal_of : Price → Decimal
decimal_of p = record { digits = coefficient p; exponent = pos 0 -ℤ pos (length p.frac) }

-- `Decimal(n)`
abbrev pub whole_decimal : ℕ → Decimal
whole_decimal n = record { digits = n; exponent = pos 0 }

-- the number of decimal digits; `fuel` bounds it
abbrev pub digit_count : ℕ → ℕ → ℕ
digit_count zero n = 1
digit_count (suc fuel) n = elim (ltb n 10) [ true ↦ 1 | false ↦ suc (digit_count fuel (n / 10)) ]

-- a number has at most as many digits as itself plus one
unfoldable pub length_of : ℕ → ℕ
length_of n = digit_count n n

-- `ROUND_HALF_EVEN` of `n / m`
abbrev pub half_even : ℕ → ℕ → ℕ
half_even n m =
    let q : ℕ = n / m in
    let r : ℕ = n % m in
    if ltb (r * 2) m then q else if ltb m (r * 2) then suc q else if q % 2 == 0 then q else suc q

-- `_fix`: at most `precision` digits
unfoldable pub rounded : Decimal → Decimal
unfolding length_of
rounded d =
    let excess : ℕ = length_of d.digits - precision in
    let kept : ℕ = half_even d.digits (10 ^ excess) in
    if excess == 0
    then d
    else if leb (10 ^ precision) kept
    then record { digits = kept / 10; exponent = d.exponent +ℤ pos (suc excess) }
    else record { digits = kept; exponent = d.exponent +ℤ pos excess }

-- `a * b`
unfoldable pub times : Decimal → Decimal → Decimal
unfolding rounded
times a b = rounded (record { digits = a.digits * b.digits; exponent = a.exponent +ℤ b.exponent })

-- the digits of `a` at the exponent of `b`, where that is the smaller one
abbrev pub aligned : Decimal → Decimal → ℕ
aligned a b = a.digits * 10 ^ pos_part (a.exponent -ℤ b.exponent)

abbrev pub lower_exponent : Decimal → Decimal → ℤ
lower_exponent a b = a.exponent -ℤ pos (pos_part (a.exponent -ℤ b.exponent))

-- `a + b`
unfoldable pub plus : Decimal → Decimal → Decimal
unfolding rounded
plus a b = rounded (record { digits = aligned a b + aligned b a; exponent = lower_exponent a b })

-- `a - b`, which the code takes where it is not negative
unfoldable pub minus : Decimal → Decimal → Decimal
unfolding rounded
minus a b = rounded (record { digits = aligned a b - aligned b a; exponent = lower_exponent a b })

-- `a <= b`, which is exact
unfoldable pub leb_decimal : Decimal → Decimal → Bool
leb_decimal a b = leb (aligned a b) (aligned b a)

abbrev pub one_more : ℕ × ℕ → ℕ × ℕ
one_more p = (p.0, suc p.1)

-- the loop of a division that takes zeros off an exact quotient, down to the ideal exponent
abbrev pub strip_zeros : ℕ → ℕ → ℕ × ℕ
strip_zeros zero n = (n, 0)
strip_zeros (suc k) n = elim (n % 10 == 0) [
  | true ↦ one_more (strip_zeros k (n / 10))
  | false ↦ (n, 0)
]

-- an inexact quotient is never left on a digit that a rounding would take for a half
abbrev pub sticky : ℕ → ℕ
sticky n = if n % 5 == 0 then suc n else n

-- `a / n` for a number that is not zero
unfoldable pub divided : Decimal → ℕ → Decimal
unfolding rounded length_of
divided a n =
    let shift : ℕ = length_of n + precision + 1 - length_of a.digits in
    let back : ℕ = length_of a.digits - (length_of n + precision + 1) in
    let top : ℕ = a.digits * 10 ^ shift in
    let bottom : ℕ = n * 10 ^ back in
    let q : ℕ = top / bottom in
    let (stripped, zeros) = strip_zeros shift q in
    if top % bottom == 0
    then rounded
        (record { digits = stripped; exponent = a.exponent +ℤ pos back -ℤ pos shift +ℤ pos zeros })
    else rounded (record { digits = sticky q; exponent = a.exponent +ℤ pos back -ℤ pos shift })
