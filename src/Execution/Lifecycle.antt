-- ===== src/Execution/Lifecycle.antt =====
-- `Order.lifecycle` of execution/projection.py.
use cherry_pulse_kr.Prelude.{
  ℕ, Bool, false, ◌&&◌, Option, none, some, ltb, if◌then◌else◌, ◌==◌, nat_eq, string_eq,
}
use cherry_pulse_kr.Prelude.Int.{pos, ◌+ℤ◌}
use cherry_pulse_kr.Execution.Models.{side_eq, environment_eq}
use cherry_pulse_kr.Execution.Projection.{Order, same_integer}

pub data Lifecycle : Type 0 where
  rejected cancelled filled partially_filled open_order pending : Lifecycle

abbrev pub is_exactly : ℕ → Option ℕ → Bool
is_exactly n none = false
is_exactly n (some m) = m == n

-- `Order.lifecycle`
unfoldable pub lifecycle : Order → Lifecycle
lifecycle o =
    if o.rejected
    then Lifecycle.rejected
    else if o.terminal_cancel
    then Lifecycle.cancelled
    else if is_exactly 0 o.active
        && same_integer (pos o.filled) (pos o.original +ℤ o.delta)
        && o.cancelled == 0
    then Lifecycle.filled
    else if ltb 0 o.filled
    then Lifecycle.partially_filled
    else if o.acknowledged
    then Lifecycle.open_order
    else Lifecycle.pending
