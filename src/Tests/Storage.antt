-- ===== src/Tests/Storage.antt =====
-- The storage of parseon-postgres at concrete inputs.
use parseon.Common.{
  ℕ, zero, suc, Bool, Option, ◌≡◌, ◌≤◌, ◌<◌, ◌↔◌, refl, String, true, false, none, some, List, [],
  ◌∷◌, map, length, ok,
}
use parseon.Common.Int.{ℤ, pos}
use parseon.Common.Distinct.{AreNew, AreDistinct}
use parseon.Model.{DecodedEvent, Target, Bytes, DecodedValue, DecodedResult}
use parseon.Ports.Sink.{Format, ParamValue, canonical_params}
use parseon.Ports.Storage.{IsLawful}
use parseon.Worker.Effects.{BlockCommit}
use parseon.Commands.{new_limit}
use parseon.Postgres.Columns.{
  StoredParam, PgParam, PgColumnType, call, event, postgres_params, event_reserved,
}
use parseon.Common.Eq.{string_eq}
use parseon.Common.Decimal.{decimal}
use parseon.Postgres.Types.{to_monitor_id, from_monitor_id}
use parseon.Postgres.Columns.Names.{columns, postgres_params-AreDistinct}
use parseon.Postgres.Bind.{bind_row}
use parseon.Postgres.Tables.{ChainRow, MonitorRow, ResultRow, Database, Session, rows_of}
use parseon.Postgres.Group.{event_input}
use parseon.Postgres.Commit.{commit_block}
use parseon.Postgres.Commit.Refined.{Outcome, commit_block-Outcome}
use parseon.Postgres.Read.{ResultRecord, read_params, query_table, stored_param}
use parseon.Postgres.Read.Canonical.{read_params-canonical}
use parseon.Postgres.Read.Pages.{query_table_bounds}
use parseon.Postgres.Chains.{postgres_chains}
use parseon.Postgres.Chains.Lawful.{find, postgres_chains-IsLawful}
use parseon.Filter.Ast.{Filter}
use parseon.Monitor.{Monitor, needs_block}
use parseon.Ports.Storage.{NewMonitor}
use parseon.Postgres.Commit.Locked.{row_by}
use parseon.Postgres.Loaded.{to_monitor}
use parseon.Postgres.Monitors.{create_monitor}
use parseon.Postgres.Monitors.Stored.{record_of}
use parseon.Postgres.Monitors.Created.{Created, create_monitor-Created}
use parseon.Postgres.Monitors.Advanced.{caught_up, commit_block-Loads}
use parseon.Abi.{is_supported_type}
use parseon.Fixtures.{
  toy_alloy-parses, toy_codecs, toy_alloy, amount, call_monitor, event_monitor, call_at, event_at,
}

abbrev format : Format
format = record { uint = λ n. "6"; int = λ i. "-1"; address = λ a. "0x"; hex = λ b. "0x" }

-- Three parameters whose names collide with each other and with a column of the table.
abbrev clashing : List StoredParam
clashing =
    record { name = "tx_hash"; sol_type = "u11111111"; indexed = false }
    ∷ record { name = "tx_hash_param"; sol_type = "u11111111"; indexed = false }
    ∷ record { name = "log_index"; sol_type = "s"; indexed = true }
    ∷ []

abbrev apart : List PgParam
apart =
    record { name = "tx_hash"; column = "tx_hash_param"; kind = PgColumnType.numeric }
    ∷ record { name = "tx_hash_param"; column = "tx_hash_param_1"; kind = PgColumnType.numeric }
    ∷ record { name = "log_index"; column = "log_index_param"; kind = PgColumnType.bytea }
    ∷ []

names_columns : postgres_params toy_alloy "event" clashing ≡ ok apart
unfolding postgres_params decimal
names_columns = refl

postgres_params-AreDistinct_example :
    AreDistinct (columns apart) × AreNew (columns apart) event_reserved
postgres_params-AreDistinct_example =
    postgres_params-AreDistinct toy_alloy "event" event_reserved clashing apart refl names_columns

abbrev stored_amount : List StoredParam
stored_amount = stored_param toy_alloy amount ∷ []

abbrev amount_column : List PgParam
amount_column = record { name = "amount"; column = "amount"; kind = PgColumnType.numeric } ∷ []

names_amount : postgres_params toy_alloy "event" stored_amount ≡ ok amount_column
unfolding postgres_params
names_amount = refl

-- As many bytes.
abbrev bytes : ℕ → ℕ → Bytes
bytes b zero = []
bytes b (suc n) = b ∷ bytes b n

-- An event whose transaction has a hash of 32 bytes.
abbrev wide_event : DecodedEvent
wide_event = record (event_at 11) { transaction_hash = bytes 8 32 }

abbrev event_row : ResultRow
event_row = record {
  tx_hash = bytes 8 32;
  log_index = some (pos 3);
  block_number = pos 11;
  cells = ("amount", DecodedValue.uint 6) ∷ [];
}

binds_row : bind_row amount_column (event_input wide_event) ≡ ok event_row
unfolding bind_row
binds_row = refl

read_params-canonical_example :
    read_params format amount_column event_row.cells
    ≡ canonical_params format (amount ∷ []) (event_input wide_event).params
read_params-canonical_example =
    read_params-canonical format (λ a. refl) toy_alloy event (amount ∷ []) amount_column
      (event_input wide_event) event_row names_amount (refl, tt) binds_row

abbrev stored_row : ℕ → String → MonitorRow
stored_row id kind = record {
  id = pos id;
  chain_id = pos 7;
  address = bytes 1 20;
  kind = kind;
  signature_hash = bytes 5 32;
  param_schema = stored_amount;
  start_block = pos 10;
  end_block = some (pos 11);
  cursor = some (pos 10);
  completed = false;
  enabled = true;
  filter_ast = none;
  filter_version = none;
}

abbrev chain_row : ChainRow
chain_row = record { chain_id = pos 7; rpc_url = "a"; enabled = true }

-- Two monitors of chain 7 with their tables, and a server that answers some statements.
abbrev session : ℕ → Session
session statements = record {
  db = record {
    chains = chain_row ∷ [];
    monitors = stored_row 1 "call" ∷ stored_row 2 "event" ∷ [];
    tables = record { id = pos 1; rows = [] } ∷ record { id = pos 2; rows = [] } ∷ [];
  };
  next_id = 3;
  statements_left = some statements;
}

abbrev commit : BlockCommit
commit = record {
  chain = record { id = 7 };
  block_number = 11;
  monitors = event_monitor ∷ call_monitor ∷ [];
  results =
      DecodedResult.call (record (call_at 11) { transaction_hash = bytes 8 32 })
      ∷ DecodedResult.event wide_event
      ∷ [];
}

abbrev cursor_of : MonitorRow → Option ℤ × Bool
cursor_of m = (m.cursor, m.completed)

commits :
    map cursor_of (commit_block toy_alloy commit (session 9)).1.db.monitors
    ≡ (some (pos 11), true) ∷ (some (pos 11), true) ∷ []
unfolding commit_block to_monitor_id from_monitor_id
commits = refl

inserts : rows_of (pos 2) (commit_block toy_alloy commit (session 9)).1.db.tables ≡ event_row ∷ []
unfolding commit_block rows_of to_monitor_id from_monitor_id
inserts = refl

-- The server fails at the second INSERT.
rolls_back : (commit_block toy_alloy commit (session 3)).1.db ≡ (session 3).db
unfolding commit_block to_monitor_id from_monitor_id
rolls_back = refl

commit_block-Outcome_example :
    Outcome commit (session 9).db (commit_block toy_alloy commit (session 9))
commit_block-Outcome_example = commit_block-Outcome toy_alloy commit (session 9) (refl, (refl, tt))

abbrev row_at : ℕ → ResultRow
row_at number = record {
  tx_hash = bytes number 32;
  log_index = none;
  block_number = pos number;
  cells = ("amount", DecodedValue.uint 6) ∷ [];
}

abbrev with_rows : Database
with_rows = record (session 9).db {
  tables = record { id = pos 1; rows = row_at 11 ∷ row_at 12 ∷ [] } ∷ [];
}

abbrev page : List ResultRecord
page =
    record {
      tx_hash = bytes 11 32;
      log_index = none;
      block_number = 11;
      params = ("amount", ParamValue.string "6") ∷ [];
    }
    ∷ []

reads_page :
    query_table format toy_alloy with_rows
      (pos 1)
      call
      stored_amount
      (record { limit = new_limit 500; offset = 1 })
    ≡ ok page
unfolding query_table new_limit rows_of
reads_page = refl

query_table_bounds_example :
    (length page ≤ 200) × ((length page ≡ 0) ↔ (length (rows_of (pos 1) with_rows.tables) ≤ 1))
query_table_bounds_example =
    query_table_bounds format toy_alloy with_rows (pos 1) call stored_amount 500 1 page reads_page

disables :
    ((postgres_chains some).update_chain
      (record { id = 7 })
      (record { rpc_url = none; enabled = some false })
      (session 9)).0
    ≡ ok (record { chain = record { id = 7 }; rpc_url = "a"; enabled = false })
unfolding postgres_chains
disables = refl

postgres_chains-IsLawful_example : IsLawful find (postgres_chains some)
postgres_chains-IsLawful_example = postgres_chains-IsLawful some (λ u. refl)

abbrev wide_target : Target
wide_target =
    Target.call (record { address = bytes 1 20; selector = bytes 5 4; inputs = amount ∷ [] })

abbrev new_monitor : NewMonitor
new_monitor = record {
  chain = record { id = 7 };
  target = wide_target;
  start_block = 10;
  end_block = some 11;
  filter = none;
}

creates : (create_monitor toy_alloy new_monitor (session 9)).0 ≡ ok (record_of new_monitor 3)
unfolding create_monitor
creates = refl

create_monitor-Created_example :
    Created toy_alloy new_monitor toy_codecs
      (session 9)
      (create_monitor toy_alloy new_monitor (session 9))
unfolding is_supported_type
create_monitor-Created_example =
    create_monitor-Created toy_alloy new_monitor toy_codecs (session 9)
      ((refl, toy_alloy-parses amount.ty), tt)

abbrev loaded_monitor : Monitor
loaded_monitor = record {
  id = 2;
  chain = record { id = 7 };
  target =
      Target.event (record { address = bytes 1 20; topic0 = bytes 5 32; params = amount ∷ [] });
  start_block = 10;
  end_block = some 11;
  cursor = some 10;
  completed = false;
  enabled = true;
  filter = Filter.all;
}

loads : to_monitor toy_alloy toy_codecs (stored_row 2 "event") ≡ ok loaded_monitor
unfolding to_monitor
loads = refl

abbrev after_commit : Session
after_commit = (commit_block toy_alloy commit (session 9)).1

is_committed : commit_block toy_alloy commit (session 9) ≡ (ok tt, after_commit)
unfolding commit_block to_monitor_id from_monitor_id
is_committed = refl

commit_block-Loads_example :
    ((after : MonitorRow) × (row_by (pos 2) after_commit.db.monitors ≡ some after)
      × (to_monitor toy_alloy toy_codecs after ≡ ok (caught_up 11 loaded_monitor)))
    × ((n : ℕ) → needs_block (caught_up 11 loaded_monitor) n ≡ true → 11 < n)
commit_block-Loads_example =
    commit_block-Loads toy_alloy toy_codecs commit (session 9) after_commit tt 2
      (stored_row 2 "event") loaded_monitor (refl, (refl, tt)) is_committed refl refl loads
