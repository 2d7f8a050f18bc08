-- ===== src/Execution/External.antt =====
-- What the execution package calls and does not implement: name-based UUIDs, the text of a UUID,
-- and the digest of a command.
use cherry_pulse_kr.Prelude.{ℕ, nat_eq, string_eq}
use cherry_pulse_kr.Contracts.Settings.{ConfigCommand}
use cherry_pulse_kr.Execution.Models.{Uuid, Key, side_eq, environment_eq, OrderCommand}

pub record External : Type 0 where
  -- `uuid5(namespace, name)`
  pub uuid5 : Uuid → Key → Uuid
  -- `str(uuid)`
  pub uuid_text : Uuid → Key
  -- `str(n)` of a number
  pub number_text : ℕ → Key
  -- `sha256` of the JSON text of a command
  pub digest : OrderCommand → ℕ
  -- `digest` of contracts/settings.py
  pub config_digest : ConfigCommand → ℕ
