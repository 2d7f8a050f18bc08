-- ===== src/Execution/Fixtures.antt =====
-- A concrete account that the examples run on: ten shares of one symbol, configuration 1.
use cherry_pulse_kr.Prelude.{
  ℕ, zero, suc, ◌+◌, true, none, [], ◌∷◌, nat_eq, string_eq, length, ◌++◌, if◌then◌else◌, ◌==◌, ◌*◌,
}
use cherry_pulse_kr.Execution.Models.{
  Key, Datetime, Environment, Side, OrderType, side_eq, environment_eq, Scope, Command, New,
}
use cherry_pulse_kr.Execution.External.{External}
use cherry_pulse_kr.Execution.Lease.{acquired}
use cherry_pulse_kr.Execution.Storage.{Database, Payload}
use cherry_pulse_kr.Execution.Transaction.{Store}
use Prim.Native.String.{◌++◌ as concat}

abbrev pub text_of : ℕ → Key
text_of zero = "."
text_of (suc n) = concat "i" (text_of n)

-- a stand-in for name-based UUIDs, their texts and the digest
abbrev pub ext : External
ext = record {
  uuid5 = λ n k. if k == "release" then n + 200 else n + 100;
  uuid_text = text_of;
  number_text = text_of;
  digest = λ c. 0;
  config_digest = λ c. c.command_id * 1000 + c.settings.version;
}

abbrev pub scope : Scope
scope = record { account_id = "A"; environment = Environment.paper; execution_scope = 7 }

abbrev pub samsung : Key
samsung = "005930"

abbrev pub held : Payload
held = Payload.allocation (record { symbol = samsung; qty = 10 })

abbrev pub configured : Payload
configured =
    Payload.config
      (record { symbol = samsung; version = 1; command_id = none; command_digest = none })

abbrev pub database : Database
database = record {
  journal =
      record { scope = scope; entry = record { key = samsung; payload = held } }
      ∷ record { scope = scope; entry = record { key = "c1"; payload = configured } }
      ∷ [];
  outbox = record { seq = 1; payload = held } ∷ record { seq = 2; payload = configured } ∷ [];
  stop_quote_cursors = [];
}

-- the session of process 1, after its review
abbrev pub store : Store
store = record {
  db = database;
  lease = record (acquired scope 1) { is_approved = true };
  process = 1;
}

abbrev pub fields : Key → Side → Command
fields key side = record {
  key = key;
  symbol = samsung;
  side = side;
  config_version = 1;
  expires_at = none;
}

abbrev pub market_sell : Key → ℕ → New
market_sell key qty = record {
  command = fields key Side.sell;
  qty = qty;
  order_type = OrderType.market;
  price = none;
  stop_latch_version = none;
}

abbrev pub noon : Datetime
noon = Datetime.aware 43200

-- the store with one more entry, under the next number
abbrev pub with_entry : Key → Payload → Store → Store
with_entry key payload s = record s {
  db = record {
    journal =
        s.db.journal
        ++ record { scope = scope; entry = record { key = key; payload = payload } } ∷ [];
    outbox = s.db.outbox ++ record { seq = length s.db.journal + 1; payload = payload } ∷ [];
    stop_quote_cursors = s.db.stop_quote_cursors;
  };
}
