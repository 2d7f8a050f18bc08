-- ===== src/Execution/Projection.antt =====
-- execution/projection.py: the quantities of an order, from the facts alone. Whole quantities are
-- naturals; sums with a quantity change in them are integers.
use cherry_pulse_kr.Prelude.{
  ℕ, ◌+◌, Bool, false, not, ◌&&◌, ◌||◌, Option, none, some, List, [], ◌∷◌, ◌++◌, map, ltb,
  if◌then◌else◌, ◌==◌, nat_eq, string_eq, length, any, keep, sum_of, pick, ok, ◌>>=◌, require,
}
use cherry_pulse_kr.Prelude.Int.{ℤ, pos, pos_part, ◌+ℤ◌, ◌-ℤ◌, ltb_ℤ, leb_ℤ}
use cherry_pulse_kr.Execution.Models.{
  Uuid, Side, LedgerError, Raises, side_eq, environment_eq, New, OrderCommand, Request,
}
use cherry_pulse_kr.Execution.Facts.{
  Fill, Amended, Cancelled, Fact, as_fill, as_amended, as_cancelled,
}
use cherry_pulse_kr.Execution.Journal.{Journal}
use cherry_pulse_kr.Execution.Outcomes.{RequestStatus, status, is_acked}

pub record Order : Type 0 where
  pub order_id : Uuid
  pub original : ℕ
  pub delta : ℤ
  pub filled : ℕ
  pub cancelled : ℕ
  pub active : Option ℕ
  pub reserved : ℕ
  pub gap : Option ℤ
  pub acknowledged : Bool
  pub terminal_cancel : Bool
  pub reconciliation_required : Bool
  pub link_version : ℕ
  pub rejected : Bool
  pub submission_failed : Bool

abbrev pub same_integer : ℤ → ℤ → Bool
same_integer a b = leb_ℤ a b && leb_ℤ b a

-- `max(0, n)`
abbrev pub at_least_zero : ℤ → ℕ
at_least_zero = pos_part

-- What a fill, a cancellation and an amendment have in common.
pub record Observation : Type 0 where
  pub evidence_version : ℕ
  pub remaining : ℕ

abbrev pub of_fill : Fill → Observation
of_fill f = record { evidence_version = f.evidence_version; remaining = f.remaining }

abbrev pub of_cancelled : Cancelled → Observation
of_cancelled f = record { evidence_version = f.evidence_version; remaining = f.remaining }

abbrev pub of_amended : Amended → Observation
of_amended f = record { evidence_version = f.evidence_version; remaining = f.remaining }

-- `max(observations, key=...)`: the first of those with the highest version
abbrev pub latest : Observation → List Observation → Observation
latest best [] = best
latest best (x ∷ xs) = latest (if ltb best.evidence_version x.evidence_version then x else best) xs

abbrev pub latest_remaining : List Observation → Option ℕ
latest_remaining [] = none
latest_remaining (x ∷ xs) = some (latest x xs).remaining

abbrev pub is_initial : Uuid → Request → Bool
is_initial id r = elim r.command [ OrderCommand.new c ↦ r.order_id == id | _ ↦ false ]

-- the request that began the order, with its command
unfoldable pub initial_request : Uuid → List Request → Option (Request × New)
initial_request id [] = none
initial_request id (r ∷ rs) = elim r.command [
  | OrderCommand.new c ↦ if r.order_id == id then some (r, c) else initial_request id rs
  | _ ↦ initial_request id rs
]

abbrev pub sum_delta : List Amended → ℤ
sum_delta [] = pos 0
sum_delta (f ∷ fs) = f.qty_delta +ℤ sum_delta fs

-- Two observations of one version that disagree.
abbrev pub versions_conflict : List Observation → Bool
versions_conflict os =
    any
      (λ a.
        any (λ b. a.evidence_version == b.evidence_version && not (a.remaining == b.remaining)) os)
      os

-- A later observation with something remaining after a terminal cancellation.
abbrev pub revived : List Cancelled → List Observation → Bool
revived cancels os =
    any
      (λ c.
        any
          (λ o. c.remaining == 0 && ltb c.evidence_version o.evidence_version && ltb 0 o.remaining)
          os)
      cancels

unfoldable pub fills_of : Uuid → List Fact → List Fill
fills_of id facts = keep (λ f. f.order_id == id) (pick as_fill facts)

unfoldable pub cancels_of : Uuid → List Fact → List Cancelled
cancels_of id facts = keep (λ f. f.order_id == id) (pick as_cancelled facts)

unfoldable pub changes_of : Uuid → List Fact → List Amended
changes_of id facts = keep (λ f. f.order_id == id) (pick as_amended facts)

-- `initial.command.qty + delta - filled - cancelled`
abbrev pub exposure_of : ℕ → ℤ → ℕ → ℕ → ℤ
exposure_of original delta filled cancelled = pos original +ℤ delta -ℤ pos filled -ℤ pos cancelled

abbrev pub is_nonzero_gap : Option ℤ → Bool
is_nonzero_gap none = false
is_nonzero_gap (some g) = not (same_integer g (pos 0))

-- `order`, from the three kinds of observations on.
unfoldable pub project :
    Uuid → New → RequestStatus → List Fill → List Cancelled → List Amended → Order
project id command outcome fills cancels changes =
    let observations : List Observation =
      map of_fill fills ++ map of_cancelled cancels ++ map of_amended changes in
    let filled : ℕ = sum_of (λ f. f.qty) fills in
    let cancelled : ℕ = sum_of (λ f. f.qty) cancels in
    let delta : ℤ = sum_delta changes in
    let void : Bool = (outcome.failed || outcome.rejected) && not outcome.positive_evidence in
    let acknowledged : Bool = is_acked outcome.transport in
    let observed : Option ℕ = elim (latest_remaining observations) [
      | some n ↦ some n
      | none ↦ if acknowledged then some command.qty else none
    ] in
    let terminal_cancel : Bool = any (λ f. f.remaining == 0) cancels in
    let exposure : ℤ = exposure_of command.qty delta filled cancelled in
    let active : Option ℕ = if terminal_cancel || void then some 0 else observed in
    let gap : Option ℤ = elim active [
      | none ↦ none
      | some n ↦ if void then none else some (exposure -ℤ pos n)
    ] in
    let conflict : Bool = versions_conflict observations || revived cancels observations in
    record {
      order_id = id;
      original = command.qty;
      delta = delta;
      filled = filled;
      cancelled = cancelled;
      active = active;
      reserved = elim command.side [
        | Side.sell ↦ if void then 0 else at_least_zero exposure
        | Side.buy ↦ 0
      ];
      gap = gap;
      acknowledged = acknowledged;
      terminal_cancel = terminal_cancel;
      reconciliation_required =
          is_nonzero_gap gap || conflict || outcome.conflict || ltb_ℤ exposure (pos 0);
      link_version = 1 + length changes;
      rejected = outcome.rejected;
      submission_failed = outcome.failed;
    }

-- The order that a request with a `New` command began.
unfoldable pub order_of : Journal → Request × New → Order
unfolding project fills_of cancels_of changes_of
order_of j (r, c) =
    project r.order_id c (status j r) (fills_of r.order_id j.facts) (cancels_of r.order_id j.facts)
      (changes_of r.order_id j.facts)

unfoldable pub order : Journal → Uuid → Raises Order
unfolding order_of initial_request
order j id = do
  initial ← require (initial_request id j.requests) LedgerError.order_not_found
  ok (order_of j initial)
