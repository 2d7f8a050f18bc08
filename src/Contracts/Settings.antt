-- ===== src/Contracts/Settings.antt =====
-- contracts/settings.py: the settings that a deployment asks for, and the pure decision on a command that asks for them.
use cherry_pulse_kr.Prelude.{
  ℕ, ◌^◌, String, Bool, true, false, not, ◌&&◌, ◌||◌, Option, ltb, leb, if◌then◌else◌, ◌==◌, nat_eq,
  string_eq, length, ℕ_discrete, String-discrete,
}
use Prim.Native.String.{[] as empty, ◌∷◌ as prepend, count}
use Prim.Native.Char.{code}
use cherry_pulse_kr.Execution.Price.{Price, is_positive, coefficient}
use cherry_pulse_kr.Execution.Models.{
  Uuid, Key, Timestamp, Datetime, Environment, environment_eq, RuleKind, OrderType,
}

pub record StopRule : Type 0 where
  pub kind : RuleKind
  pub threshold : Price

pub data PatternSide : Type 0 where
  sell : PatternSide

pub record Pattern : Type 0 where
  pub pattern_id : Uuid
  pub version : ℕ
  pub name : String
  pub side : PatternSide
  pub stop : StopRule

pub record Settings : Type 0 where
  pub account_id : Key
  pub environment : Environment
  pub symbol : Key
  pub version : ℕ
  pub stop_pattern : Pattern
  pub stop_order_type : Option OrderType
  pub entry_enabled : Bool
  pub monitoring_enabled : Bool

-- `permissions` is a set of at most the one permission CONFIG_WRITE.
pub record Actor : Type 0 where
  pub actor_id : Key
  pub account_id : Key
  pub environment : Environment
  pub config_write : Bool

pub record ConfigCommand : Type 0 where
  pub command_id : Uuid
  pub idempotency_key : Key
  pub expected_version : ℕ
  pub expires_at : Timestamp
  pub settings : Settings

-- `==` of two commands: their JSON texts are compared
unfoldable pub ConfigCommand-discrete : Discrete ConfigCommand
unfolding String-discrete ℕ_discrete
ConfigCommand-discrete = hlevel (ℕ_discrete, String-discrete)

pub data DecisionReason : Type 0 where
  accepted clock_timezone_required config_unauthorized command_expired : DecisionReason
  stale_config_version config_version_must_advance : DecisionReason
  config_authentication_unavailable config_authentication_evidence_required : DecisionReason
  config_authentication_failed : DecisionReason

pub data DecisionState : Type 0 where
  accepted rejected : DecisionState

pub record ConfigDecision : Type 0 where
  pub state : DecisionState
  pub reason : DecisionReason
  pub digest : ℕ

-- `check_threshold`, and the bound of the field; digits are always finite
unfoldable pub is_valid_rule : StopRule → Bool
is_valid_rule r =
    is_positive r.threshold
    && not (elim r.kind [
      | RuleKind.price_at_or_below ↦ false
      | RuleKind.average_cost_drop ↦ leb (10 ^ length r.threshold.frac) (coefficient r.threshold)
    ])

-- `[0-9]*`
all_digits : String → Bool
all_digits empty = true
all_digits (prepend c s) = leb 48 (code c) && leb (code c) 57 && all_digits s

is_valid_pattern : Pattern → Bool
unfolding is_valid_rule
is_valid_pattern p =
    ltb 0 p.version && leb 1 (count p.name) && leb (count p.name) 100 && is_valid_rule p.stop

-- the fields of `Settings` and `forbid_activation`
unfoldable pub is_valid_settings : Settings → Bool
unfolding all_digits is_valid_pattern
is_valid_settings s =
    leb 1 (count s.account_id)
    && (count s.symbol == 6 && all_digits s.symbol)
    && ltb 0 s.version
    && is_valid_pattern s.stop_pattern
    && not (s.entry_enabled || s.monitoring_enabled)

-- what `ConfigCommand.model_validate_json` tests
unfoldable pub is_valid_command : ConfigCommand → Bool
unfolding is_valid_settings
is_valid_command c = leb 1 (count c.idempotency_key) && is_valid_settings c.settings

-- An actor whose claims cover the settings.
abbrev pub is_authorized : Actor → Settings → Bool
is_authorized a s = a.account_id == s.account_id && a.environment == s.environment && a.config_write

abbrev pub state_of : DecisionReason → DecisionState
state_of DecisionReason.accepted = DecisionState.accepted
state_of _ = DecisionState.rejected

-- the chain of `decide` under a clock with a time zone
abbrev pub reason_at : ConfigCommand → Actor → ℕ → Timestamp → DecisionReason
reason_at c a current_version now =
    if not (is_authorized a c.settings)
    then DecisionReason.config_unauthorized
    else if leb c.expires_at now
    then DecisionReason.command_expired
    else if not (current_version == c.expected_version)
    then DecisionReason.stale_config_version
    else if leb c.settings.version current_version
    then DecisionReason.config_version_must_advance
    else DecisionReason.accepted

abbrev pub decide_reason : ConfigCommand → Actor → ℕ → Datetime → DecisionReason
decide_reason c a current_version (Datetime.naive t) = DecisionReason.clock_timezone_required
decide_reason c a current_version (Datetime.aware t) = reason_at c a current_version t

-- `digest` is `sha256` of the JSON text of a command.
module _ (digest : ConfigCommand → ℕ) where
  abbrev pub outcome_for : ConfigCommand → DecisionReason → ConfigDecision
  outcome_for c r = record { state = state_of r; reason = r; digest = digest c }

  unfoldable pub decide : ConfigCommand → Actor → ℕ → Datetime → ConfigDecision
  decide c a current_version now = outcome_for c (decide_reason c a current_version now)
