-- ===== src/Contracts/Fixtures.antt =====
-- A small deployment for the runs of the inbox of contracts/inbox.py.
use cherry_pulse_kr.Prelude.{
  ℕ, ◌+◌, ◌*◌, true, false, Option, none, some, List, [], ◌∷◌, if◌then◌else◌, ◌==◌, nat_eq,
  string_eq,
}
use cherry_pulse_kr.Execution.Models.{Uuid, Key, Environment, environment_eq, RuleKind}
use cherry_pulse_kr.Contracts.Settings.{
  Settings, StopRule, PatternSide, Actor, ConfigCommand, ConfigDecision, DecisionReason,
  outcome_for,
}
use cherry_pulse_kr.Contracts.Inbox.{ConfigRow, new_row}

abbrev pub digest_of : ConfigCommand → ℕ
digest_of c = c.command_id * 1000 + c.settings.version

abbrev pub stop_rule : StopRule
stop_rule = record {
  kind = RuleKind.average_cost_drop;
  threshold = record { whole = 0 ∷ []; frac = 0 ∷ 5 ∷ [] };
}

abbrev pub settings_of : ℕ → Settings
settings_of n = record {
  account_id = "A";
  environment = Environment.paper;
  symbol = "000660";
  version = n;
  stop_pattern = record {
    pattern_id = 7;
    version = 1;
    name = "stop";
    side = PatternSide.sell;
    stop = stop_rule;
  };
  stop_order_type = none;
  entry_enabled = false;
  monitoring_enabled = false;
}

abbrev pub command_of : Uuid → Key → (expected version : ℕ) → ConfigCommand
command_of id key expected n = record {
  command_id = id;
  idempotency_key = key;
  expected_version = expected;
  expires_at = 100;
  settings = settings_of n;
}

abbrev pub operator : Actor
operator = record {
  actor_id = "operator";
  account_id = "A";
  environment = Environment.paper;
  config_write = true;
}

abbrev pub trusted : Option (ConfigCommand → ℕ → Option Actor)
trusted = some (λ c token. if token == 1 then some operator else none)

abbrev pub owner_of : Uuid → Key × Environment
owner_of id = ("A", Environment.paper)

abbrev pub first : ConfigCommand
first = command_of 21 "k1" 0 2

abbrev pub second : ConfigCommand
second = command_of 22 "k2" 2 3

abbrev pub accepted_first : ConfigDecision
accepted_first = outcome_for digest_of first DecisionReason.accepted

abbrev pub one_row : List ConfigRow
one_row = new_row first 21002 operator accepted_first ∷ []
