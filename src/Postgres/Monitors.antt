-- ===== src/Postgres/Monitors.antt =====
-- The queries of parseon-postgres/src/monitor_repo.rs with `create_result_table` of dyn_table.rs, and the
-- `MonitorRepository` and `load_monitors` of storage.rs over them.
pub mod Stored
pub mod Inserted
pub mod Created
pub mod Advanced
use parseon.Common.{
  ℕ, suc, String, Bool, true, false, not, ◌&&◌, ◌||◌, Option, none, some, is_none_or, List, [], ◌∷◌,
  ◌++◌, any, keep, map, eqb, length, if◌then◌else◌, Result, ok, err, ensure, ok_or, traverse,
}
use parseon.Common.Int.{ℤ, pos, eqb_ℤ, leb_ℤ, ltb_ℤ}
use parseon.Common.Eq.{◌==◌, string_eq}
use parseon.Common.Stateful.{pure, lift, ◌>>=◌, ◌>>◌}
use parseon.Model.{Bytes, Chain, MonitorId}
use parseon.Filter.Ast.{FilterExpression, Codecs}
use parseon.Monitor.{Monitor}
use parseon.Abi.{Alloy}
use parseon.Errors.{Error}
use parseon.Ports.Storage.{NewMonitor, MonitorRecord, MonitorRepository}
use parseon.Postgres.Types.{to_i64, to_monitor_id}
use parseon.Postgres.Columns.{StoredParam, PgParam, postgres_params}
use parseon.Postgres.Bind.{identifier}
use parseon.Postgres.Insert.{result_table_name}
use parseon.Postgres.Tables.{MonitorRow, Table, Database, Session, Query, statement, transaction}
use parseon.Postgres.Chains.{chain_by, select, drop_table}
use parseon.Postgres.Loaded.{opt_to_i64, row_of, monitor_record, to_monitor}

-- The CHECK constraints of the table, in its migrations.
abbrev pub hash_fits : String → Bytes → Bool
hash_fits kind hash =
    (kind == "call" && eqb (length hash) 4) || (kind == "event" && eqb (length hash) 32)

abbrev filter_fits : Option FilterExpression → Option ℤ → Bool
filter_fits none none = true
filter_fits (some expression) (some version) = eqb_ℤ version (pos 1)
filter_fits none (some version) = false
filter_fits (some expression) none = false

abbrev pub is_allowed : MonitorRow → Bool
is_allowed row =
    ltb_ℤ (pos 0) row.id
    && eqb (length row.address) 20
    && hash_fits row.kind row.signature_hash
    && leb_ℤ (pos 0) row.start_block
    && is_none_or row.end_block (λ end. leb_ℤ row.start_block end)
    && is_none_or row.cursor (λ cursor. leb_ℤ (pos 0) cursor)
    && filter_fits row.filter_ast row.filter_version

abbrev pub with_monitors : List MonitorRow → Session → Session
with_monitors monitors s = record s { db = record s.db { monitors = monitors } }

abbrev pub numbered : Session → Session
numbered s = record s { next_id = suc s.next_id }

-- INSERT INTO monitors: the id is the next one of the sequence.
unfoldable pub insert_monitor : (ℤ → MonitorRow) → Query MonitorRow
insert_monitor row s =
    let new' = row (pos s.next_id) in
    if is_allowed new'
    then (ok new', with_monitors (s.db.monitors ++ new' ∷ []) (numbered s))
    else (err (Error.storage "the monitor was refused"), numbered s)

-- CREATE TABLE
unfoldable pub add_table : ℤ → Query (Unit {0})
add_table id s =
    if any (λ t. eqb_ℤ t.id id) s.db.tables then (err (Error.storage "the table exists"), s) else (
      ok tt,
      record s { db = record s.db { tables = s.db.tables ++ record { id = id; rows = [] } ∷ [] } },
    )

-- The row of a monitor.
unfoldable pub monitor_by : ℤ → List MonitorRow → Option MonitorRow
monitor_by id [] = none
monitor_by id (r ∷ rs) = if eqb_ℤ r.id id then some r else monitor_by id rs

abbrev no_row : Error
no_row = Error.storage "no row was returned"

-- ORDER BY id
unfoldable pub place_monitor : MonitorRow → List MonitorRow → List MonitorRow
place_monitor row [] = row ∷ []
place_monitor row (r ∷ rs) =
    let later = place_monitor row rs in if ltb_ℤ r.id row.id then r ∷ later else row ∷ r ∷ rs

unfoldable pub by_id : List MonitorRow → List MonitorRow
unfolding place_monitor
by_id [] = []
by_id (r ∷ rs) = place_monitor r (by_id rs)

abbrev of_chain : Option ℤ → List MonitorRow → List MonitorRow
of_chain none rows = by_id rows
of_chain (some chain_id) rows = by_id (keep (λ r. eqb_ℤ r.chain_id chain_id) rows)

module _ (alloy : Alloy) where
  -- `create_result_table`
  unfoldable pub create_result_table : ℤ → String → List StoredParam → Query (Unit {0})
  unfolding result_table_name postgres_params identifier statement add_table
  create_result_table id kind params = do
    table ← lift (result_table_name id)
    named ← lift (postgres_params alloy kind params)
    columns ← lift (traverse identifier (map (λ p. p.column) named))
    statement
    add_table table
    statement

  -- `create_prepared` from `begin` to `commit`.
  unfoldable pub create_body : NewMonitor → ℤ → ℤ → Option ℤ → Query MonitorRow
  unfolding statement chain_by insert_monitor create_result_table
  create_body input chain_id start_block end_block = do
    statement
    statement
    found ← select (λ db. chain_by chain_id db.chains)
    chain ← lift (ok_or found (Error.storage "chain not found"))
    statement
    row ← insert_monitor (row_of alloy input chain_id start_block end_block)
    create_result_table row.id row.kind row.param_schema
    statement
    pure row

  -- `create_prepared`
  unfoldable pub create_prepared : NewMonitor → Query MonitorRow
  unfolding to_i64 create_body transaction
  create_prepared input = do
    chain_id ← lift (to_i64 input.chain.id)
    start_block ← lift (to_i64 input.start_block)
    end_block ← lift (opt_to_i64 input.end_block)
    transaction (create_body input chain_id start_block end_block)

-- `list`
unfoldable pub list_rows : Option Chain → Query (List MonitorRow)
unfolding to_i64 statement by_id
list_rows chain = do
  chain_id ← lift (opt_to_i64 (chain_id_of chain))
  statement
  select (λ db. of_chain chain_id db.monitors)
  where
    chain_id_of : Option Chain → Option ℕ
    chain_id_of none = none
    chain_id_of (some chain) = some chain.id

-- `get`
unfoldable pub get_monitor_row : MonitorId → Query MonitorRow
unfolding to_monitor_id statement monitor_by
get_monitor_row id = do
  stored ← lift (to_monitor_id id)
  statement
  found ← select (λ db. monitor_by stored db.monitors)
  lift (ok_or found no_row)

-- `delete` from `begin` to `commit`.
unfoldable pub delete_monitor_body : ℤ → Query (Unit {0})
unfolding statement monitor_by result_table_name
delete_monitor_body id = do
  statement
  statement
  found ← select (λ db. monitor_by id db.monitors)
  current ← lift (ok_or found (Error.storage "monitor not found"))
  table ← lift (result_table_name current.id)
  statement
  drop_table table
  statement
  λ s. (ok tt, with_monitors (keep (λ r. not (eqb_ℤ r.id id)) s.db.monitors) s)
  statement

-- `delete`
unfoldable pub delete_monitor_row : MonitorId → Query (Unit {0})
unfolding to_monitor_id delete_monitor_body transaction
delete_monitor_row id = do
  stored ← lift (to_monitor_id id)
  transaction (delete_monitor_body stored)

-- `set_enabled`
unfoldable pub set_enabled_row : MonitorId → Bool → Query MonitorRow
unfolding to_monitor_id statement monitor_by
set_enabled_row id enabled = do
  stored ← lift (to_monitor_id id)
  statement
  λ s. (
    ok tt,
    with_monitors
        (map (λ r. if eqb_ℤ r.id stored then record r { enabled = enabled } else r) s.db.monitors)
        s,
  )
  found ← select (λ db. monitor_by stored db.monitors)
  lift (ok_or found no_row)

module _ (alloy : Alloy) where
  -- `create_monitor`, `list_monitors`, `get_monitor` and `set_monitor_enabled` of the `MonitorRepository`.
  unfoldable pub create_monitor : NewMonitor → Query MonitorRecord
  unfolding create_prepared monitor_record
  create_monitor input = do row ← create_prepared alloy input; lift (monitor_record alloy row)

  unfoldable pub list_monitors : Option Chain → Query (List MonitorRecord)
  unfolding list_rows monitor_record
  list_monitors chain = do rows ← list_rows chain; lift (traverse (monitor_record alloy) rows)

  unfoldable pub get_monitor : MonitorId → Query MonitorRecord
  unfolding get_monitor_row monitor_record
  get_monitor id = do row ← get_monitor_row id; lift (monitor_record alloy row)

  unfoldable pub set_monitor_enabled : MonitorId → Bool → Query MonitorRecord
  unfolding set_enabled_row monitor_record
  set_monitor_enabled id enabled = do
    row ← set_enabled_row id enabled
    lift (monitor_record alloy row)

  -- `load_monitors` of the `IndexStorage`.
  unfoldable pub load_monitors : Codecs → Chain → Query (List Monitor)
  unfolding list_rows to_monitor
  load_monitors codecs chain = do
    rows ← list_rows (some chain)
    lift (traverse (to_monitor alloy codecs) rows)

  -- The `MonitorRepository` of PostgresStorage.
  unfoldable pub postgres_monitors : MonitorRepository Session
  unfolding create_monitor get_monitor set_monitor_enabled delete_monitor_row
  postgres_monitors = record {
    create_monitor = create_monitor;
    get_monitor = get_monitor;
    set_monitor_enabled = set_monitor_enabled;
    delete_monitor = delete_monitor_row;
  }
