-- ===== src/Execution/Journal.antt =====
-- `Journal` of execution/storage.py: one scope's entries, by kind, in the order of their commits.
use cherry_pulse_kr.Prelude.{ℕ, ◌+◌, List, nat_eq, string_eq, length}
use cherry_pulse_kr.Execution.Models.{
  side_eq, environment_eq, Request, AppliedConfig, VirtualStopBinding, StopRuleAssignment,
  StopLatch, StopQuoteCheckpoint, StopSellObligation, Allocation, Control,
}
use cherry_pulse_kr.Execution.Facts.{Fact}

pub record Journal : Type 0 where
  pub requests : List Request
  pub facts : List Fact
  pub allocations : List Allocation
  pub controls : List Control
  pub configs : List AppliedConfig
  pub stop_bindings : List VirtualStopBinding
  pub stop_assignments : List StopRuleAssignment
  pub stop_latches : List StopLatch
  pub stop_quotes : List StopQuoteCheckpoint
  pub stop_sell_obligations : List StopSellObligation

unfoldable pub revision : Journal → ℕ
revision j =
    length j.requests
    + length j.facts
    + length j.allocations
    + length j.controls
    + length j.configs
    + length j.stop_bindings
    + length j.stop_assignments
    + length j.stop_latches
    + length j.stop_sell_obligations
