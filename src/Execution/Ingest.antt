-- ===== src/Execution/Ingest.antt =====
-- `Ledger.ingest` and `Ledger.discard` of execution/ledger.py: the entries of a new fact.
use cherry_pulse_kr.Prelude.{
  ℕ, Bool, true, false, not, ◌&&◌, none, some, if◌then◌else◌, ◌==◌, nat_eq, string_eq, find?,
  raise_if, ok, err, Option,
}
use cherry_pulse_kr.Execution.Models.{
  Uuid, Key, Side, LedgerError, side_eq, environment_eq, Command, OrderCommand, common, Request,
  VirtualStopBinding,
}
use cherry_pulse_kr.Execution.Facts.{Fill, UnsentProof, Fact, event_id, same_fact}
use cherry_pulse_kr.Execution.Journal.{Journal, revision}
use cherry_pulse_kr.Execution.External.{External}
use cherry_pulse_kr.Execution.Validation.{check_fact}
use cherry_pulse_kr.Execution.Storage.{Payload, Entry}
use cherry_pulse_kr.Execution.Transaction.{
  Method, pure, lift, transaction, read_journal, append_entry, ensure_ready, ◌>>=◌, ◌>>◌,
}

-- the buy order that a fill belongs to
abbrev pub is_buy_of : Uuid → Request → Bool
is_buy_of order_id r = elim r.command [
  | OrderCommand.new c ↦ r.order_id == order_id && c.side == Side.buy
  | _ ↦ false
]

abbrev pub binds : Command → VirtualStopBinding → Bool
binds c b = b.symbol == c.symbol && b.version == c.config_version

abbrev pub is_event : Fact → Fact → Bool
is_event f g = event_id g == event_id f

-- The test for a replay of an event: it is recorded already, or what `k` does.
unfoldable pub settle : Fact → Option Fact → Method Bool → Method Bool
settle f none k s = k s
settle f (some existing) k s =
    if same_fact existing f then ok (false, s) else err LedgerError.conflict_event_id_mismatch

abbrev pub once : Journal → Fact → Method Bool → Method Bool
once j f = settle f (find? (is_event f) j.facts)

module _ (ext : External) where
  abbrev pub fact_entry : Fact → Entry
  fact_entry f = record { key = ext.uuid_text (event_id f); payload = Payload.fact f }

  abbrev pub assignment_entry : Fill → Command → VirtualStopBinding → Entry
  assignment_entry f c b = record {
    key = ext.uuid_text f.event_id;
    payload = Payload.stop_assignment (record {
      fill_event_id = f.event_id;
      symbol = c.symbol;
      qty = f.qty;
      rule_version = b.version;
    });
  }

  -- The rule that is assigned to a fill of a buy order whose configuration bound one.
  unfoldable pub append_assignment : Journal → Fact → Method (Unit {0})
  append_assignment j (Fact.fill f) = elim (find? (is_buy_of f.order_id) j.requests) [
    | none ↦ pure tt
    | some r ↦ elim (find? (binds (common r.command)) j.stop_bindings) [
      | none ↦ pure tt
      | some b ↦ append_entry (assignment_entry f (common r.command) b)
    ]
  ]
  append_assignment j _ = pure tt

  unfoldable pub record_fact : Journal → Fact → Method Bool
  unfolding append_assignment check_fact
  record_fact j f = do
    lift (check_fact ext j f)
    append_entry (fact_entry f)
    append_assignment j f
    pure true

  unfoldable pub ingest : Fact → Method Bool
  unfolding settle record_fact
  ingest f = transaction (do j ← read_journal; once j f (record_fact j f))

  abbrev pub discard_fact : Uuid → Key → Fact
  discard_fact request_id reason = Fact.send_failed (record {
    event_id = ext.uuid5 request_id "local-discard";
    request_id = request_id;
    proof = UnsentProof.not_invoked;
    reason = reason;
  })

  -- what `discard` does with a fact that is new
  unfoldable pub retire_intention : Journal → Fact → ℕ → Method Bool
  unfolding check_fact
  retire_intention j f expected_revision = do
    ensure_ready
    lift (raise_if (not (revision j == expected_revision)) LedgerError.stale_discard_review)
    lift (check_fact ext j f)
    append_entry (fact_entry f)
    pure true

  unfoldable pub discard : Uuid → Key → ℕ → Method Bool
  unfolding settle retire_intention
  discard request_id reason expected_revision =
      let f : Fact = discard_fact request_id reason in
      transaction (do j ← read_journal; once j f (retire_intention j f expected_revision))
