-- ===== src/Execution/Portfolio.antt =====
-- `Portfolio` and `portfolio` of execution/projection.py: holdings and reservations of a symbol.
use cherry_pulse_kr.Prelude.{
  ℕ, ◌+◌, Bool, true, false, not, ◌&&◌, ◌||◌, Option, none, some, List, [], ◌∷◌, if◌then◌else◌,
  ◌==◌, nat_eq, string_eq, any, keep, get_last?, sum_of, ok, ◌>>=◌,
}
use cherry_pulse_kr.Prelude.Int.{ℤ, pos, ◌+ℤ◌, ◌-ℤ◌, ltb_ℤ}
use cherry_pulse_kr.Execution.Models.{
  Uuid, Key, Side, Decision, Raises, side_eq, environment_eq, OrderCommand, common, Request,
  Control,
}
use cherry_pulse_kr.Execution.Facts.{Fact}
use cherry_pulse_kr.Execution.Journal.{Journal}
use cherry_pulse_kr.Execution.Outcomes.{status, effect_settled, request_state, in_flight, is_change}
use cherry_pulse_kr.Execution.Projection.{Order, order, at_least_zero}

pub record Portfolio : Type 0 where
  pub managed : ℤ
  pub reserved : ℕ
  pub protected : ℕ
  pub liquidation : ℕ
  pub entry_stopped : Bool
  pub liquidating : Bool
  pub reconciliation_required : Bool
  pub sell_uncertain : Bool

-- `Portfolio.available`
unfoldable pub available : Portfolio → ℕ
available p =
    if p.reconciliation_required || p.sell_uncertain
    then 0
    else at_least_zero (p.managed -ℤ pos p.reserved)

abbrev pub resolves : Key → Uuid → Fact → Bool
resolves symbol id (Fact.reconciled f) = f.symbol == symbol && f.discrepancy_id == id
resolves symbol id _ = false

abbrev pub releases : Uuid → Fact → Bool
releases id (Fact.quarantine_released f) = f.quarantine_id == id
releases id _ = false

-- An unresolved discrepancy of the symbol, or a quarantined fill that is not released.
abbrev pub blocks : Key → List Fact → Fact → Bool
blocks symbol facts (Fact.discrepancy f) =
    f.symbol == symbol && not (any (resolves symbol f.event_id) facts)
blocks symbol facts (Fact.quarantined_fill f) =
    f.symbol == symbol && not (any (releases f.event_id) facts)
blocks symbol facts _ = false

-- What the loop over the requests carries.
pub record Tally : Type 0 where
  pub managed : ℤ
  pub reserved : ℕ
  pub discrepancy : Bool
  pub uncertain : Bool

-- The part of the loop's body for a `New` command, on the order's snapshot.
unfoldable pub tally_new : Side → Order → Tally → Tally
tally_new side o t = record t {
  managed = elim side [
    | Side.buy ↦ t.managed +ℤ pos o.filled
    | Side.sell ↦ t.managed -ℤ pos o.filled
  ];
  reserved = t.reserved + o.reserved;
  discrepancy = t.discrepancy || o.reconciliation_required;
}

-- The part of the loop's body for an accepted sell request.
unfoldable pub tally_sell : Journal → Request → Tally → Tally
tally_sell j r t =
    let accepted : Bool = elim r.decision [
      | Decision.accepted ↦ true
      | Decision.rejected_unsupported ↦ false
    ] in
    if accepted && (common r.command).side == Side.sell
    then record t {
      uncertain =
          t.uncertain
          || in_flight (request_state j r)
          || is_change r.command && not (effect_settled j r);
    }
    else t

-- The loop's body for a request of the symbol.
unfoldable pub tally : Journal → Request → Tally → Raises Tally
unfolding tally_new tally_sell
tally j r t =
    let t' : Tally = record t { discrepancy = t.discrepancy || (status j r).conflict } in
    elim r.command [
      | OrderCommand.new c ↦ do o ← order j r.order_id; ok (tally_sell j r (tally_new c.side o t'))
      | _ ↦ ok (tally_sell j r t')
    ]

unfoldable pub scan : Journal → Key → List Request → Tally → Raises Tally
unfolding tally
scan j symbol [] t = ok t
scan j symbol (r ∷ rs) t =
    if (common r.command).symbol == symbol
    then (do t' ← tally j r t; scan j symbol rs t')
    else scan j symbol rs t

abbrev pub last_control : Key → List Control → Option Control
last_control symbol cs = get_last? (keep (λ c. c.symbol == symbol) cs)

-- what the loop over the requests begins with
unfoldable pub start : Journal → Key → Tally
start j symbol = record {
  managed = pos (sum_of (λ a. a.qty) (keep (λ a. a.symbol == symbol) j.allocations));
  reserved = 0;
  discrepancy = any (blocks symbol j.facts) j.facts;
  uncertain = false;
}

-- the portfolio that is read off the loop's result
unfoldable pub report : Journal → Key → Tally → Portfolio
report j symbol t =
    let control = last_control symbol j.controls in
    let stopped : Bool = elim control [ none ↦ false | some c ↦ c.entry_stopped ] in
    let liquidating : Bool = elim control [ none ↦ false | some c ↦ c.liquidating ] in
    record {
      managed = t.managed;
      reserved = t.reserved;
      protected = at_least_zero t.managed;
      liquidation = if liquidating then at_least_zero t.managed else 0;
      entry_stopped = stopped;
      liquidating = liquidating;
      reconciliation_required =
          t.discrepancy
          || t.uncertain
          || ltb_ℤ t.managed (pos 0)
          || ltb_ℤ t.managed (pos t.reserved);
      sell_uncertain = t.uncertain;
    }

unfoldable pub portfolio : Journal → Key → Raises Portfolio
unfolding scan start report
portfolio j symbol = do t ← scan j symbol j.requests (start j symbol); ok (report j symbol t)
