-- ===== src/Execution/Models.antt =====
-- execution/models.py: identities, commands, requests and the configuration records. A UUID is
-- only compared, so it is a number; an aware datetime is a number of microseconds.
use cherry_pulse_kr.Prelude.{
  ℕ, ◌^◌, String, ◌≡◌, ◌↔◌, Bool, true, false, not, ◌&&◌, ◌||◌, Option, none, some, arith,
  ℕ_discrete, String-discrete, leb, if◌then◌else◌, Eq, ◌==◌, nat_eq, string_eq, decided, length,
  Result, ok, err,
}
use cherry_pulse_kr.Prelude.Int.{ℤ, pos, negsuc}
use cherry_pulse_kr.Execution.Price.{Price, canonical_price, is_positive, coefficient}

abbrev pub Uuid : Type 0
Uuid = ℕ

-- a text of printable characters
abbrev pub Key : Type 0
Key = String

-- an aware datetime
abbrev pub Timestamp : Type 0
Timestamp = ℕ

-- A datetime of the clock, whose offset may be missing.
pub data Datetime : Type 0 where
  naive : ℕ → Datetime
  aware : Timestamp → Datetime

pub data Environment : Type 0 where
  paper live : Environment

pub data Side : Type 0 where
  buy sell : Side

pub data OrderType : Type 0 where
  limit market : OrderType

pub data Decision : Type 0 where
  accepted rejected_unsupported : Decision

pub data RuleKind : Type 0 where
  price_at_or_below average_cost_drop : RuleKind

-- The codes of `LedgerError`, with what sqlite3, `next` and pydantic raise.
pub data LedgerError : Type 0 where
  stop_link_requires_market_sell limit_price_required market_price_must_be_null : LedgerError
  amend_price_must_be_positive empty_amendment invalid_stop_threshold : LedgerError
  applied_config_command_proof_incomplete clock_timezone_required command_expired : LedgerError
  stale_config_version config_version_must_advance order_not_found buy_order_required : LedgerError
  quarantine_not_found quarantine_link_not_unique quarantine_symbol_mismatch : LedgerError
  quarantine_fill_not_committed quarantine_already_released stale_quarantine_review : LedgerError
  entry_blocked sell_quantity_unavailable target_ownership_mismatch : LedgerError
  stale_link_version target_quantity_unconfirmed change_already_pending : LedgerError
  amend_quantity_exceeds_active cancel_quantity_exceeds_active : LedgerError
  request_not_found_or_unsupported amend_correlation_mismatch : LedgerError
  cancel_correlation_mismatch effect_already_confirmed unsent_proof_invalid : LedgerError
  discrepancy_not_found discrepancy_already_resolved stale_reconciliation_review : LedgerError
  query_evidence_incomplete query_quantity_mismatch reconciliation_order_unresolved : LedgerError
  reconciliation_quantity_mismatch rejection_before_invocation : LedgerError
  effect_rejection_requires_change stop_latch_link_required stop_latch_key_required : LedgerError
  stop_latch_link_not_found conflict_config_apply_identity conflict_config_apply_version :
      LedgerError
  config_execution_scope_mismatch config_execution_must_remain_disabled : LedgerError
  config_command_digest_mismatch allocation_already_started conflict_idempotency_mismatch :
      LedgerError
  entry_stop_latched conflict_event_id_mismatch stale_discard_review : LedgerError
  buy_fill_trading_date_unknown request_not_found account_lock_not_owned : LedgerError
  account_ledger_already_bound session_reconciliation_required : LedgerError
  integrity_error stop_iteration validation_error : LedgerError

abbrev pub Raises : Type 0 → Type 0
Raises A = Result LedgerError A

abbrev pub side_beq : Side → Side → Bool
side_beq Side.buy Side.buy = true
side_beq Side.sell Side.sell = true
side_beq _ _ = false

pub side_beq_iff : (a b : Side) → (side_beq a b ≡ true) ↔ (a ≡ b)
side_beq_iff a b = ground arith

instance abbrev pub side_eq : Eq Side
side_eq = record { equal = side_beq; equal_iff = side_beq_iff }

abbrev pub environment_beq : Environment → Environment → Bool
environment_beq Environment.paper Environment.paper = true
environment_beq Environment.live Environment.live = true
environment_beq _ _ = false

pub environment_beq_iff : (a b : Environment) → (environment_beq a b ≡ true) ↔ (a ≡ b)
environment_beq_iff a b = ground arith

instance abbrev pub environment_eq : Eq Environment
environment_eq = record { equal = environment_beq; equal_iff = environment_beq_iff }

pub record Scope : Type 0 where
  pub account_id : Key
  pub environment : Environment
  pub execution_scope : Uuid

-- The fields that every command has.
pub record Command : Type 0 where
  pub key : Key
  pub symbol : Key
  pub side : Side
  pub config_version : ℕ
  pub expires_at : Option Timestamp

pub record New : Type 0 where
  pub command : Command
  pub open command use *
  pub qty : ℕ
  pub order_type : OrderType
  pub price : Option Price
  pub stop_latch_version : Option ℕ

pub record Amend : Type 0 where
  pub command : Command
  pub open command use *
  pub target : Uuid
  pub link_version : ℕ
  pub qty_delta : ℤ
  pub price : Option Price

pub record Cancel : Type 0 where
  pub command : Command
  pub open command use *
  pub target : Uuid
  pub link_version : ℕ
  pub cancel_qty : ℕ

pub data OrderCommand : Type 0 where
  new : New → OrderCommand
  amend : Amend → OrderCommand
  cancel : Cancel → OrderCommand

abbrev pub common : OrderCommand → Command
common (OrderCommand.new c) = c.command
common (OrderCommand.amend c) = c.command
common (OrderCommand.cancel c) = c.command

pub record Request : Type 0 where
  pub request_id : Uuid
  pub order_id : Uuid
  pub command : OrderCommand
  pub decision : Decision
  pub digest : ℕ

abbrev pub is_some {ℓ} : {A : Type ℓ} → Option A → Bool
is_some none = false
is_some (some a) = true

-- `check_price` of `New`, after `canonical_price`
price_error : New → Option LedgerError
price_error c = elim c.order_type [
  | OrderType.limit ↦ elim c.price [
    | none ↦ some LedgerError.limit_price_required
    | some p ↦ if is_positive p then none else some LedgerError.limit_price_required
  ]
  | OrderType.market ↦ if is_some c.price then some LedgerError.market_price_must_be_null else none
]

abbrev pub is_market_sell : New → Bool
is_market_sell c =
    c.side == Side.sell && elim c.order_type [ OrderType.market ↦ true | OrderType.limit ↦ false ]

-- The validators of `New`: the price in canonical form, or the error.
unfoldable pub validate_new : New → Raises New
unfolding price_error
validate_new c =
    let c' : New = record c {
      price = elim c.price [ none ↦ none | some p ↦ some (canonical_price p) ];
    } in
    if is_some c'.stop_latch_version && not (is_market_sell c')
    then err LedgerError.stop_link_requires_market_sell
    else elim (price_error c') [ none ↦ ok c' | some e ↦ err e ]

-- The price field of an amendment as received.
pub data PricePatch : Type 0 where
  omitted null : PricePatch
  given : Price → PricePatch

abbrev is_zero : ℤ → Bool
is_zero (pos n) = n == 0
is_zero (negsuc n) = false

-- `check_patch` of `Amend`: the price that is stored.
unfoldable pub validate_patch : ℤ → PricePatch → Raises (Option Price)
validate_patch qty_delta PricePatch.omitted =
    if is_zero qty_delta then err LedgerError.empty_amendment else ok none
validate_patch qty_delta PricePatch.null = err LedgerError.amend_price_must_be_positive
validate_patch qty_delta (PricePatch.given p) =
    let p' : Price = canonical_price p in
    if is_positive p' then ok (some p') else err LedgerError.amend_price_must_be_positive

pub record AppliedConfig : Type 0 where
  pub symbol : Key
  pub version : ℕ
  pub command_id : Option Uuid
  pub command_digest : Option ℕ

pub record VirtualStopBinding : Type 0 where
  pub symbol : Key
  pub version : ℕ
  pub rule_kind : RuleKind
  pub threshold : Price

-- `check_threshold`: positive, and below one for a percentage.
unfoldable pub validate_binding : VirtualStopBinding → Raises VirtualStopBinding
validate_binding b =
    let too_large : Bool = elim b.rule_kind [
      | RuleKind.price_at_or_below ↦ false
      | RuleKind.average_cost_drop ↦ leb (10 ^ length b.threshold.frac) (coefficient b.threshold)
    ] in
    if not (is_positive b.threshold) || too_large
    then err LedgerError.invalid_stop_threshold
    else ok b

pub record StopRuleAssignment : Type 0 where
  pub fill_event_id : Uuid
  pub symbol : Key
  pub qty : ℕ
  pub rule_version : ℕ

pub record StopLatch : Type 0 where
  pub symbol : Key
  pub rule_version : ℕ
  pub rule_kind : RuleKind
  pub quote_price : Price
  pub quote_received_at : Timestamp

pub record StopQuoteCheckpoint : Type 0 where
  pub symbol : Key
  pub price : Price
  pub received_at : Timestamp
  pub evaluated_at : Timestamp

pub record StopSellObligation : Type 0 where
  pub request_id : Uuid
  pub order_id : Uuid
  pub symbol : Key
  pub qty : ℕ
  pub rule_version : ℕ

pub record Allocation : Type 0 where
  pub symbol : Key
  pub qty : ℕ

pub record Control : Type 0 where
  pub symbol : Key
  pub entry_stopped : Bool
  pub liquidating : Bool

-- `==` of two commands: their JSON texts are compared
unfoldable pub OrderCommand-discrete : Discrete OrderCommand
unfolding String-discrete ℕ_discrete
OrderCommand-discrete = hlevel (ℕ_discrete, String-discrete)

unfoldable pub Allocation-discrete : Discrete Allocation
unfolding String-discrete ℕ_discrete
Allocation-discrete = hlevel (ℕ_discrete, String-discrete)

unfoldable pub VirtualStopBinding-discrete : Discrete VirtualStopBinding
unfolding String-discrete ℕ_discrete
VirtualStopBinding-discrete = hlevel (ℕ_discrete, String-discrete)

abbrev pub same_command : OrderCommand → OrderCommand → Bool
same_command a b = decided (OrderCommand-discrete a b)
