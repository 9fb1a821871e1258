-- ===== src/Tests/Creation.antt =====
-- Monitors that are created through parseon-core/src/services.rs over the storage of parseon-postgres, at concrete
-- inputs.
use parseon.Common.{
  ℕ, zero, suc, ◌≡◌, refl, String, true, false, Option, none, some, List, [], ◌∷◌, ok, err, arith,
  not, ◌&&◌, is_empty, all, All, length, ◌≤◌,
}
use parseon.Common.Int.{pos}
use parseon.Common.Text.{codes, is_digit}
use parseon.Model.{AbiParam, Bytes, SolType, Target}
use parseon.Filter.Limits.{validate_limits}
use parseon.Filter.Fields.{resolve_field}
use parseon.Filter.Literals.{parse_value}
use parseon.Filter.Compile.{compile_expression}
use parseon.Filter.Rewritten.{AreCompact}
use parseon.Errors.{Error}
use parseon.Abi.Signature.{AbiItem, TargetSpec}
use parseon.Ports.Storage.{ChainRecord, NewMonitor, MonitorRecord}
use parseon.Services.Requests.{CreateMonitor, Heads, validate_range}
use parseon.Services.Monitors.{create}
use parseon.Services.Monitors.Valid.{IsValid, create-IsValid}
use parseon.Services.Monitors.Loads.{AreRead, Leaves, create-Leaves}
use parseon.Postgres.Tables.{Session}
use parseon.Postgres.Chains.{postgres_chains}
use parseon.Postgres.Monitors.{postgres_monitors}
use parseon.Postgres.Monitors.Stored.{IsRead}
use parseon.Fixtures.{
  toy_alloy, toy_alloy-parses, toy_codecs, toy_codecs-AreCanonical, amount, expression,
}

abbrev bytes : ℕ → ℕ → Bytes
bytes b zero = []
bytes b (suc n) = b ∷ bytes b n

-- The endpoint is at block 20.
abbrev heads : Heads
heads rpc_url = ok 20

abbrev parse_item : String → Option AbiItem
parse_item signature = some (
    AbiItem.function (bytes 5 4)
      (record { name = "amount"; resolved = some (SolType.uint 8); indexed = false } ∷ []))

abbrev command : CreateMonitor
command = record {
  chain_id = 7;
  address = bytes 1 20;
  signature = "function f(uint8 amount)";
  start_block = none;
  end_block = some 30;
  filter = some expression;
}

abbrev session : Session
session = record {
  db = record {
    chains = record { chain_id = pos 7; rpc_url = "a"; enabled = true } ∷ [];
    monitors = [];
    tables = [];
  };
  next_id = 1;
  statements_left = none;
}

abbrev created : MonitorRecord
created = record {
  id = 1;
  chain = record { id = 7 };
  target =
      Target.call (record { address = bytes 1 20; selector = bytes 5 4; inputs = amount ∷ [] });
  start_block = 20;
  end_block = some 30;
  cursor = none;
  completed = false;
  enabled = true;
  filter = some (record { version = pos 1; expression = expression });
}

abbrev left : Session
left =
    (create (postgres_monitors toy_alloy) toy_codecs parse_item (postgres_chains some) heads command
      session).1

creates :
    create
      (postgres_monitors toy_alloy)
      toy_codecs
      parse_item
      (postgres_chains some)
      heads
      command
      session
    ≡ (ok created, left)
unfolding create postgres_monitors postgres_chains validate_limits compile_expression resolve_field
    parse_value
creates = refl

rejects :
    validate_range 20 (some 19)
    ≡ err (Error.invalid_command "end_block must be greater than or equal to start_block")
unfolding validate_range
rejects = refl

long_enough : (xs : List ℕ) → (not (is_empty xs) && all is_digit xs) ≡ true → 1 ≤ length xs
long_enough [] h = absurd (ground (arith, h))
long_enough (x ∷ xs) h = omega arith

All-parses : (ps : List AbiParam) → All (IsRead toy_alloy) ps
All-parses [] = tt
All-parses (p ∷ ps) = (toy_alloy-parses p.ty, All-parses ps)

reads : AreRead toy_alloy parse_item command.signature
reads (TargetSpec.call spec) h = All-parses spec.params
reads (TargetSpec.event spec) h = All-parses spec.params

compact : AreCompact toy_codecs
compact = record {
  uint = λ bits s v form h. (long_enough (codes s) form, refl);
  int = λ bits s v form h. absurd (ground (arith, h));
  address = λ s a form h. absurd (ground (arith, h));
  hex = λ s b form h. absurd (ground (arith, h));
  encoded = λ e f n same h. (100, refl, ground (arith, h));
}

create-IsValid_example :
    (registered : ChainRecord) × (s' : Session) × (input : NewMonitor) × ((postgres_chains
          some).get_chain
        (record { id = 7 })
        session
      ≡ (ok registered, s'))
    × IsValid toy_codecs parse_item heads registered command input
    × ((postgres_monitors toy_alloy).create_monitor input s' ≡ (ok created, left))
create-IsValid_example =
    create-IsValid toy_codecs parse_item (postgres_monitors toy_alloy) (postgres_chains some) heads
      command session left created creates

create-Leaves_example :
    (registered : ChainRecord) × (s' : Session) × (input : NewMonitor) × ((postgres_chains
          some).get_chain
        (record { id = 7 })
        session
      ≡ (ok registered, s'))
    × IsValid toy_codecs parse_item heads registered command input
    × Leaves toy_alloy toy_codecs command input created left.db
create-Leaves_example =
    create-Leaves toy_alloy toy_codecs toy_codecs-AreCanonical compact parse_item
      (postgres_chains some) heads command session left created reads creates
