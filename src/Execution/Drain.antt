-- ===== src/Execution/Drain.antt =====
-- `drain_virtual_stop` and `process` of execution/virtual.py: sales that a latch or a liquidation leads to.
use cherry_pulse_kr.Prelude.{
  ℕ, ◌+◌, Bool, true, false, not, ◌&&◌, ◌||◌, Option, none, some, List, [], ◌∷◌, map, if◌then◌else◌,
  ltb, ◌==◌, nat_eq, string_eq, any, length, ok, err,
}
use Prim.Native.Nat.{Ordering}
use Prim.Native.String.{compare, ◌++◌ as concat}
use cherry_pulse_kr.Execution.Models.{
  Uuid, Key, Datetime, Side, OrderType, LedgerError, side_eq, environment_eq, OrderCommand, common,
  Request, StopLatch,
}
use cherry_pulse_kr.Execution.Facts.{Fact}
use cherry_pulse_kr.Execution.Journal.{Journal, revision}
use cherry_pulse_kr.Execution.External.{External}
use cherry_pulse_kr.Execution.Freshness.{applied_version}
use cherry_pulse_kr.Execution.Lease.{lease_ready}
use cherry_pulse_kr.Execution.Outcomes.{status}
use cherry_pulse_kr.Execution.Portfolio.{portfolio, available}
use cherry_pulse_kr.Execution.StopObligations.{ObligationState, StopObligationView}
use cherry_pulse_kr.Execution.Transaction.{Method, lift, transaction, read_journal}
use cherry_pulse_kr.Execution.Submit.{submit}
use cherry_pulse_kr.Execution.Ingest.{ingest}
use cherry_pulse_kr.Execution.Review.{portfolio_snapshot, virtual_stop_obligations}
use cherry_pulse_kr.Execution.Claim.{Session}
use cherry_pulse_kr.Execution.Dispatcher.{Action, return, run, send, acknowledge, ◌>>=◌}
use cherry_pulse_kr.Execution.StopQuotes.{latch_for}
use cherry_pulse_kr.Execution.StopCandidates.{virtual_latched_stop_candidate}
use cherry_pulse_kr.Contracts.StopEvaluation.{ProtectionStatus, ProtectionDecision}

-- `Ledger.snapshot`
unfoldable pub snapshot : Method Journal
snapshot = transaction read_journal

-- `Ledger.virtual_latched_stop_candidate`
unfoldable pub latched_stop_candidate : Key → Method ProtectionDecision
unfolding snapshot virtual_latched_stop_candidate lease_ready
latched_stop_candidate symbol s = elim (snapshot s) [
  | ok p ↦ lift (virtual_latched_stop_candidate p.0 (lease_ready p.1.lease p.1.process) symbol) p.1
  | err e ↦ err e
]

abbrev pub is_regular_session : Session → Bool
is_regular_session Session.regular = true
is_regular_session Session.closed = false

-- an obligation that waits for a review or for evidence
abbrev pub is_open : StopObligationView → Bool
is_open v = elim v.state [
  | ObligationState.review_required ↦ true
  | ObligationState.blocked_evidence ↦ true
  | _ ↦ false
]

-- a sell of the symbol that failed or was rejected
abbrev pub failed_sell : Journal → Key → Request → Bool
failed_sell j symbol r =
    (common r.command).symbol == symbol
    && (common r.command).side == Side.sell
    && ((status j r).failed || (status j r).rejected)

abbrev pub is_candidate : ProtectionStatus → Bool
is_candidate ProtectionStatus.candidate = true
is_candidate _ = false

-- the errors of `submit` that `drain_virtual_stop` catches
abbrev pub is_caught : LedgerError → Bool
is_caught LedgerError.sell_quantity_unavailable = true
is_caught LedgerError.stale_config_version = true
is_caught _ = false

-- a market sell for the day, without deadline
abbrev pub sell_command : Key → Key → ℕ → ℕ → Option ℕ → OrderCommand
sell_command key symbol version qty latch_version = OrderCommand.new (record {
  command = record {
    key = key;
    symbol = symbol;
    side = Side.sell;
    config_version = version;
    expires_at = none;
  };
  qty = qty;
  order_type = OrderType.market;
  price = none;
  stop_latch_version = latch_version;
})

abbrev pub insert_symbol : Key → List Key → List Key
insert_symbol k [] = k ∷ []
insert_symbol k (l ∷ ls) = elim (compare k l) [
  | Ordering.lt ↦ k ∷ l ∷ ls
  | Ordering.eq ↦ l ∷ ls
  | Ordering.gt ↦ l ∷ insert_symbol k ls
]

-- `sorted({...})`
unfoldable pub sorted_symbols : List Key → List Key
sorted_symbols [] = []
sorted_symbols (k ∷ ks) = insert_symbol k (sorted_symbols ks)

module _ (ext : External) where
  abbrev pub stop_command : Journal → Key → StopLatch → ℕ → OrderCommand
  stop_command j symbol l qty =
      sell_command
        (concat "virtual-stop:" (concat symbol (concat ":" (ext.number_text (revision j))))) symbol
        (applied_version j symbol) qty (some l.rule_version)

  abbrev pub liquidation_command : Journal → Key → ℕ → OrderCommand
  liquidation_command j symbol qty =
      sell_command
        (concat "liquidation:" (concat symbol (concat ":" (ext.number_text (length j.facts)))))
        symbol (applied_version j symbol) qty none

  -- `submit`, whose expected errors are no request
  unfoldable pub try_submit :
      OrderCommand → Datetime → (order_id request_id : Uuid) → Action (Option Request)
  unfolding submit
  try_submit c now order_id request_id d = elim (submit ext c now order_id request_id d.store) [
    | ok p ↦ (ok (some p.0.request), record d { store = p.1 })
    | err e ↦ if is_caught e then (ok none, d) else (err e, d)
  ]

  -- `if self.send(...): self.acknowledge(...)`; `ids` are what `uuid4` returns
  unfoldable pub send_and_acknowledge :
      Request → Option Session → Datetime → (ℕ → Uuid) → Action (Unit {0})
  unfolding send acknowledge
  send_and_acknowledge r session now ids =
      send ext r.request_id session now (ids 2) (ids 3) >>= λ sent.
      if sent then (acknowledge ext r (ids 4) >>= λ b. return tt) else return tt

  -- the sale of a candidate
  unfoldable pub sell_candidate :
      Journal
      → Key
      → StopLatch
      → ProtectionDecision
      → Datetime
      → (ℕ → Uuid)
      → Action (Option Request)
  unfolding try_submit send_and_acknowledge revision applied_version
  sell_candidate j symbol l c now ids =
      try_submit (stop_command j symbol l c.unreserved_qty) now (ids 0) (ids 1) >>= λ submitted.
      elim submitted [
        | none ↦ return none
        | some r ↦ send_and_acknowledge r (some Session.regular) now ids >>= λ u. return (some r)
      ]

  abbrev pub drain_candidate :
      Journal → Key → StopLatch → Datetime → (ℕ → Uuid) → Action (Option Request)
  drain_candidate j symbol l now ids =
      if any (failed_sell j symbol) j.requests
      then return none
      else (run (latched_stop_candidate symbol) >>= λ c.
          if is_candidate c.status then sell_candidate j symbol l c now ids else return none)

  -- the part of `drain_virtual_stop` for a symbol with a latch
  unfoldable pub drain_latched :
      Journal → Key → StopLatch → Datetime → (ℕ → Uuid) → Action (Option Request)
  unfolding sell_candidate latched_stop_candidate portfolio virtual_stop_obligations status
  drain_latched j symbol l now ids = run (lift (portfolio j symbol)) >>= λ p.
      if p.liquidating
      then return none
      else (run (virtual_stop_obligations symbol) >>= λ views.
          if any is_open views then return none else drain_candidate j symbol l now ids)

  unfoldable pub drain_virtual_stop :
      Key → Session → Datetime → (ℕ → Uuid) → Action (Option Request)
  unfolding drain_latched snapshot
  drain_virtual_stop symbol session now ids =
      if is_regular_session session
      then (run snapshot >>= λ j. elim (latch_for symbol j) [
        | none ↦ return none
        | some l ↦ drain_latched j symbol l now ids
      ])
      else return none

  -- the sale of what is available of a symbol under liquidation
  unfoldable pub liquidate : Journal → Key → ℕ → Datetime → (ℕ → Uuid) → Action (Unit {0})
  unfolding submit send_and_acknowledge applied_version
  liquidate j symbol qty now ids =
      run (submit ext (liquidation_command j symbol qty) now (ids 0) (ids 1)) >>= λ submitted.
      send_and_acknowledge submitted.request none now ids

  -- one round of the loop of `process`
  unfoldable pub liquidate_symbol : Journal → Key → Datetime → (ℕ → Uuid) → Action (Unit {0})
  unfolding liquidate portfolio_snapshot status available
  liquidate_symbol j symbol now ids = run (portfolio_snapshot symbol) >>= λ p.
      if p.liquidating && ltb 0 (available p) && not (any (failed_sell j symbol) j.requests)
      then liquidate j symbol (available p) now ids
      else return tt

  unfoldable pub liquidate_symbols :
      Journal → List Key → Datetime → (ℕ → ℕ → Uuid) → ℕ → Action (Unit {0})
  unfolding liquidate_symbol
  liquidate_symbols j [] now ids n = return tt
  liquidate_symbols j (symbol ∷ symbols) now ids n =
      liquidate_symbol j symbol now (ids n) >>= λ u. liquidate_symbols j symbols now ids (n + 1)

  -- `process`; `ids n` is what `uuid4` returns in round n
  unfoldable pub process : Fact → Datetime → (ℕ → ℕ → Uuid) → Action (Unit {0})
  unfolding liquidate_symbols ingest snapshot sorted_symbols
  process fact now ids = run (ingest ext fact) >>= λ i. run snapshot >>= λ j.
      liquidate_symbols j (sorted_symbols (map (λ c. c.symbol) j.controls)) now ids 0
