-- ===== src/Execution/Storage.antt =====
-- execution/storage.py: the journal table with its outbox, and the cursors of quotes. An entry's
-- payload is the value that its JSON text stands for, and a row's place is its `seq`.
pub mod Extend
use cherry_pulse_kr.Prelude.{
  ℕ, ◌+◌, Bool, ◌&&◌, Option, none, some, List, [], ◌∷◌, ◌++◌, map, ℕ_discrete, String-discrete,
  if◌then◌else◌, ◌==◌, nat_eq, string_eq, decided, length, any, keep, pick, ok, ◌>>◌, raise_if,
}
use cherry_pulse_kr.Execution.Models.{
  Key, LedgerError, Raises, side_eq, environment_eq, Scope, Request, AppliedConfig,
  VirtualStopBinding, StopRuleAssignment, StopLatch, StopQuoteCheckpoint, StopSellObligation,
  Allocation, Control,
}
use cherry_pulse_kr.Execution.Facts.{Fact}
use cherry_pulse_kr.Execution.Journal.{Journal}

pub data Payload : Type 0 where
  request : Request → Payload
  fact : Fact → Payload
  allocation : Allocation → Payload
  control : Control → Payload
  config : AppliedConfig → Payload
  stop_binding : VirtualStopBinding → Payload
  stop_assignment : StopRuleAssignment → Payload
  stop_latch : StopLatch → Payload
  stop_sell_obligation : StopSellObligation → Payload

pub data EntryKind : Type 0 where
  request fact allocation control config stop_binding : EntryKind
  stop_assignment stop_latch stop_sell_obligation : EntryKind

abbrev pub kind : Payload → EntryKind
kind (Payload.request x) = EntryKind.request
kind (Payload.fact x) = EntryKind.fact
kind (Payload.allocation x) = EntryKind.allocation
kind (Payload.control x) = EntryKind.control
kind (Payload.config x) = EntryKind.config
kind (Payload.stop_binding x) = EntryKind.stop_binding
kind (Payload.stop_assignment x) = EntryKind.stop_assignment
kind (Payload.stop_latch x) = EntryKind.stop_latch
kind (Payload.stop_sell_obligation x) = EntryKind.stop_sell_obligation

pub record Entry : Type 0 where
  pub key : Key
  pub payload : Payload

pub record Row : Type 0 where
  pub scope : Scope
  pub entry : Entry

pub record OutboxRow : Type 0 where
  pub seq : ℕ
  pub payload : Payload

pub record CursorRow : Type 0 where
  pub scope : Scope
  pub checkpoint : StopQuoteCheckpoint

pub record Database : Type 0 where
  pub journal : List Row
  pub outbox : List OutboxRow
  pub stop_quote_cursors : List CursorRow

unfoldable pub Scope-discrete : Discrete Scope
unfolding String-discrete ℕ_discrete
Scope-discrete = hlevel (ℕ_discrete, String-discrete)

unfoldable pub EntryKind-discrete : Discrete EntryKind
EntryKind-discrete = hlevel

abbrev pub same_scope : Scope → Scope → Bool
same_scope a b = decided (Scope-discrete a b)

abbrev pub same_kind : EntryKind → EntryKind → Bool
same_kind a b = decided (EntryKind-discrete a b)

-- `UNIQUE(scope, kind, key)`: whether a row stands in the way of the entry.
abbrev pub clashes : Scope → Entry → Row → Bool
clashes scope e r =
    same_scope r.scope scope
    && same_kind (kind r.entry.payload) (kind e.payload)
    && r.entry.key == e.key

-- the insert of `append`, and of the trigger `publish`
abbrev pub added : Scope → Entry → Database → Database
added scope e db = record db {
  journal = db.journal ++ record { scope = scope; entry = e } ∷ [];
  outbox = db.outbox ++ record { seq = length db.journal + 1; payload = e.payload } ∷ [];
}

-- `append`, which fails on a second row of one key
unfoldable pub insert : Scope → Entry → Database → Raises Database
insert scope e db = do
  raise_if (any (clashes scope e) db.journal) LedgerError.integrity_error
  ok (added scope e db)

abbrev pub is_cursor : Scope → Key → CursorRow → Bool
is_cursor scope symbol c = same_scope c.scope scope && c.checkpoint.symbol == symbol

-- `INSERT ... ON CONFLICT DO UPDATE`
abbrev pub upsert : Scope → StopQuoteCheckpoint → List CursorRow → List CursorRow
upsert scope p [] = record { scope = scope; checkpoint = p } ∷ []
upsert scope p (c ∷ cs) =
    if is_cursor scope p.symbol c
    then record { scope = scope; checkpoint = p } ∷ cs
    else c ∷ upsert scope p cs

unfoldable pub checkpoint_stop_quote : Scope → StopQuoteCheckpoint → Database → Database
checkpoint_stop_quote scope p db = record db {
  stop_quote_cursors = upsert scope p db.stop_quote_cursors;
}

-- The cases of `read`.
abbrev pub as_request : Payload → Option Request
as_request (Payload.request x) = some x
as_request _ = none

abbrev pub as_fact : Payload → Option Fact
as_fact (Payload.fact x) = some x
as_fact _ = none

abbrev pub as_allocation : Payload → Option Allocation
as_allocation (Payload.allocation x) = some x
as_allocation _ = none

abbrev pub as_control : Payload → Option Control
as_control (Payload.control x) = some x
as_control _ = none

abbrev pub as_config : Payload → Option AppliedConfig
as_config (Payload.config x) = some x
as_config _ = none

abbrev pub as_stop_binding : Payload → Option VirtualStopBinding
as_stop_binding (Payload.stop_binding x) = some x
as_stop_binding _ = none

abbrev pub as_stop_assignment : Payload → Option StopRuleAssignment
as_stop_assignment (Payload.stop_assignment x) = some x
as_stop_assignment _ = none

abbrev pub as_stop_latch : Payload → Option StopLatch
as_stop_latch (Payload.stop_latch x) = some x
as_stop_latch _ = none

abbrev pub as_stop_sell_obligation : Payload → Option StopSellObligation
as_stop_sell_obligation (Payload.stop_sell_obligation x) = some x
as_stop_sell_obligation _ = none

-- The rows of a scope, in the order of their numbers.
abbrev pub payloads : Scope → List Row → List Payload
payloads scope rows = map (λ r. r.entry.payload) (keep (λ r. same_scope r.scope scope) rows)

abbrev pub cursors : Scope → List CursorRow → List StopQuoteCheckpoint
cursors scope cs = map (λ c. c.checkpoint) (keep (λ c. same_scope c.scope scope) cs)

-- The loop of `read` over the payloads of a scope.
abbrev pub collect : List Payload → List StopQuoteCheckpoint → Journal
collect ps quotes = record {
  requests = pick as_request ps;
  facts = pick as_fact ps;
  allocations = pick as_allocation ps;
  controls = pick as_control ps;
  configs = pick as_config ps;
  stop_bindings = pick as_stop_binding ps;
  stop_assignments = pick as_stop_assignment ps;
  stop_latches = pick as_stop_latch ps;
  stop_quotes = quotes;
  stop_sell_obligations = pick as_stop_sell_obligation ps;
}

-- `read`. A symbol has one cursor at most, so the order of cursors, by symbol, is left aside.
unfoldable pub read : Scope → Database → Journal
read scope db = collect (payloads scope db.journal) (cursors scope db.stop_quote_cursors)
