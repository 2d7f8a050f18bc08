-- ===== src/Execution/Submit.antt =====
-- `Ledger.submit` of execution/ledger.py: the checks on a command and the entries of a new one.
use cherry_pulse_kr.Prelude.{
  ℕ, Bool, true, false, not, ◌&&◌, none, some, List, if◌then◌else◌, ◌==◌, nat_eq, string_eq, any,
  find?, ok, err, Option,
}
use cherry_pulse_kr.Prelude.Int.{pos, ltb_ℤ}
use cherry_pulse_kr.Execution.Models.{
  Uuid, Key, Datetime, Side, Decision, LedgerError, Raises, side_eq, environment_eq, New,
  OrderCommand, common, Request, StopLatch, StopSellObligation, same_command,
}
use cherry_pulse_kr.Execution.Journal.{Journal}
use cherry_pulse_kr.Execution.External.{External}
use cherry_pulse_kr.Execution.Freshness.{check_freshness}
use cherry_pulse_kr.Execution.Validation.{check_command}
use cherry_pulse_kr.Execution.Storage.{Payload}
use cherry_pulse_kr.Execution.Transaction.{
  Method, pure, lift, transaction, read_journal, append_entry, ensure_ready, ◌>>=◌, ◌>>◌,
}
use text.Mathlib.Text.{starts_with}

pub record Submission : Type 0 where
  pub request : Request
  pub created : Bool

abbrev pub stop_prefix : Key
stop_prefix = "virtual-stop:"

abbrev pub is_latched : Key → List StopLatch → Bool
is_latched symbol latches = any (λ l. l.symbol == symbol) latches

-- `_check_virtual_stop_link`
unfoldable pub check_virtual_stop_link : Journal → OrderCommand → Raises (Unit {0})
check_virtual_stop_link j (OrderCommand.new c) =
    let tagged : Bool = starts_with c.key stop_prefix in
    elim c.stop_latch_version [
      | none ↦ if tagged then err LedgerError.stop_latch_link_required else ok tt
      | some version ↦
          if not tagged
          then err LedgerError.stop_latch_key_required
          else if any (λ l. l.symbol == c.symbol && l.rule_version == version) j.stop_latches
          then ok tt
          else err LedgerError.stop_latch_link_not_found
    ]
check_virtual_stop_link j _ = ok tt

-- The test for `ENTRY_STOP_LATCHED`.
abbrev pub entry_latched : Journal → OrderCommand → Bool
entry_latched j (OrderCommand.new c) = c.side == Side.buy && is_latched c.symbol j.stop_latches
entry_latched j _ = false

-- The checks on a command that is new to the journal.
unfoldable pub admit : Journal → OrderCommand → Datetime → Raises (Unit {0})
unfolding check_freshness check_virtual_stop_link check_command
admit j command now = elim (check_freshness j command now) [
  | err e ↦ err e
  | ok u ↦
      if entry_latched j command
      then err LedgerError.entry_stop_latched
      else elim (check_virtual_stop_link j command) [
        | err e ↦ err e
        | ok u ↦ check_command j command
      ]
]

-- The order that the command is about: a fresh one, or its target.
abbrev pub order_id_of : OrderCommand → Uuid → Uuid
order_id_of (OrderCommand.new c) fresh = fresh
order_id_of (OrderCommand.amend c) fresh = c.target
order_id_of (OrderCommand.cancel c) fresh = c.target

abbrev pub decision_of : OrderCommand → Decision
decision_of (OrderCommand.amend c) =
    if ltb_ℤ (pos 0) c.qty_delta then Decision.rejected_unsupported else Decision.accepted
decision_of _ = Decision.accepted

-- The test for a replay: the recorded request under the command's key, or what `k` does.
unfoldable pub answer : OrderCommand → Option Request → Method Submission → Method Submission
answer command none k s = k s
answer command (some existing) k s =
    if same_command existing.command command
    then ok (record { request = existing; created = false }, s)
    else err LedgerError.conflict_idempotency_mismatch

abbrev pub has_key : OrderCommand → Request → Bool
has_key command r = (common r.command).key == (common command).key

abbrev pub obligation_for : Request → New → ℕ → StopSellObligation
obligation_for r c version = record {
  request_id = r.request_id;
  order_id = r.order_id;
  symbol = c.symbol;
  qty = c.qty;
  rule_version = version;
}

module _ (ext : External) where
  -- the request for a command, under the identities that `uuid4` gave
  unfoldable pub request_for : OrderCommand → (order_id request_id : Uuid) → Request
  request_for command order_id request_id = record {
    request_id = request_id;
    order_id = order_id_of command order_id;
    command = command;
    decision = decision_of command;
    digest = ext.digest command;
  }

  -- the entry of the obligation, for a command that is linked to a latch
  unfoldable pub append_obligation : Request → Method (Unit {0})
  append_obligation r = elim r.command [
    | OrderCommand.new c ↦ elim c.stop_latch_version [
      | none ↦ pure tt
      | some version ↦ append_entry (record {
        key = ext.uuid_text r.request_id;
        payload = Payload.stop_sell_obligation (obligation_for r c version);
      })
    ]
    | _ ↦ pure tt
  ]

  unfoldable pub create :
      Journal → OrderCommand → Datetime → (order_id request_id : Uuid) → Method Submission
  unfolding admit request_for append_obligation
  create j command now order_id request_id = do
    ensure_ready
    lift (admit j command now)
    let r : Request = request_for command order_id request_id
    append_entry (record { key = (common command).key; payload = Payload.request r })
    append_obligation r
    pure (record { request = r; created = true })

  -- `submit`: `now` is the clock's reading, and the two identities are what `uuid4` returns.
  unfoldable pub submit : OrderCommand → Datetime → (order_id request_id : Uuid) → Method Submission
  unfolding create answer
  submit command now order_id request_id = transaction (do
    j ← read_journal
    answer command (find? (has_key command) j.requests) (create j command now order_id request_id))
