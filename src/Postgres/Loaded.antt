-- ===== src/Postgres/Loaded.antt =====
-- What parseon-postgres/src/storage.rs makes of the row of a monitor, and the columns that monitor_repo.rs writes for a
-- new one.
use parseon.Common.{
  ℕ, String, true, false, Option, none, some, List, map, if◌then◌else◌, Result, ok, err, ◌>>=◌,
  traverse,
}
use parseon.Common.Int.{ℤ}
use parseon.Common.Eq.{◌==◌, string_eq}
use parseon.Model.{Bytes, AbiParam, Target}
use parseon.Filter.Ast.{FilterExpression, FilterDefinition, Filter, Codecs}
use parseon.Filter.Definition.{compile}
use parseon.Monitor.{Monitor}
use parseon.Abi.{Alloy, AbiError, new_param, parse_abi_type}
use parseon.Index.{map_err}
use parseon.Errors.{Error}
use parseon.Ports.Storage.{NewMonitor, MonitorRecord}
use parseon.Postgres.Types.{to_i64, from_i64, from_monitor_id, address, selector, b256}
use parseon.Postgres.Columns.{StoredParam, as_str}
use parseon.Postgres.Tables.{MonitorRow}
use parseon.Postgres.Read.{stored_param, kind_of, params_of}

abbrev pub opt_to_i64 : Option ℕ → Result Error (Option ℤ)
opt_to_i64 none = ok none
opt_to_i64 (some value) = do stored ← to_i64 value; ok (some stored)

abbrev pub opt_from_i64 : Option ℤ → Result Error (Option ℕ)
opt_from_i64 none = ok none
opt_from_i64 (some stored) = do value ← from_i64 stored; ok (some value)

-- The address and the selector or topic of a target.
abbrev pub address_of : Target → Bytes
address_of (Target.call t) = t.address
address_of (Target.event t) = t.address

abbrev pub hash_of : Target → Bytes
hash_of (Target.call t) = t.selector
hash_of (Target.event t) = t.topic0

abbrev pub ast_of : Option FilterDefinition → Option FilterExpression
ast_of none = none
ast_of (some definition) = some definition.expression

abbrev pub version_of : Option FilterDefinition → Option ℤ
version_of none = none
version_of (some definition) = some definition.version

abbrev pub incomplete : Error
incomplete = Error.storage "monitor has incomplete filter state"

-- The match on the kind.
abbrev pub target_of_kind : String → Bytes → Bytes → List AbiParam → Result Error Target
target_of_kind kind address hash params =
    if kind == "call"
    then (do
      found ← selector hash
      ok (Target.call (record { address = address; selector = found; inputs = params })))
    else if kind == "event"
    then (do
      found ← b256 hash
      ok (Target.event (record { address = address; topic0 = found; params = params })))
    else err (Error.storage "invalid monitor kind")

-- The match on the two columns of the filter in `monitor_record`.
abbrev pub definition_of :
    Option FilterExpression → Option ℤ → Result Error (Option FilterDefinition)
definition_of none none = ok none
definition_of (some expression) (some version) =
    ok (some (record { version = version; expression = expression }))
definition_of none (some version) = err incomplete
definition_of (some expression) none = err incomplete

module _ (alloy : Alloy) where
  -- The row that the INSERT of `create_prepared` makes, with the defaults of the other columns.
  abbrev pub row_of : NewMonitor → ℤ → ℤ → Option ℤ → ℤ → MonitorRow
  row_of input chain_id start_block end_block id = record {
    id = id;
    chain_id = chain_id;
    address = address_of input.target;
    kind = as_str (kind_of input.target);
    signature_hash = hash_of input.target;
    param_schema = map (stored_param alloy) (params_of input.target);
    start_block = start_block;
    end_block = end_block;
    cursor = none;
    completed = false;
    enabled = true;
    filter_ast = ast_of input.filter;
    filter_version = version_of input.filter;
  }

  -- `StoredParam::to_abi`
  unfoldable pub to_abi : StoredParam → Result AbiError AbiParam
  unfolding parse_abi_type new_param
  to_abi param = do
    ty ← parse_abi_type alloy param.sol_type
    made ← new_param param.name ty
    ok (record made { indexed = param.indexed })

  -- `PostgresStorage::target`
  unfoldable pub target : MonitorRow → Result Error Target
  unfolding address to_abi selector b256
  target row = do
    found ← address row.address
    params ← traverse (λ param. map_err Error.abi (to_abi param)) row.param_schema
    target_of_kind row.kind found row.signature_hash params

  -- `PostgresStorage::monitor_record`
  unfoldable pub monitor_record : MonitorRow → Result Error MonitorRecord
  unfolding target from_monitor_id from_i64
  monitor_record row = do
    filter ← definition_of row.filter_ast row.filter_version
    id ← from_monitor_id row.id
    chain_id ← from_i64 row.chain_id
    found ← target row
    start_block ← from_i64 row.start_block
    end_block ← opt_from_i64 row.end_block
    cursor ← opt_from_i64 row.cursor
    ok (record {
      id = id;
      chain = record { id = chain_id };
      target = found;
      start_block = start_block;
      end_block = end_block;
      cursor = cursor;
      completed = row.completed;
      enabled = row.enabled;
      filter = filter;
    })

  module _ (codecs : Codecs) where
    -- The match on the two columns of the filter in `to_monitor`.
    abbrev pub filter_of : Target → Option FilterExpression → Option ℤ → Result Error Filter
    filter_of target none none = ok Filter.all
    filter_of target (some expression) (some version) =
        map_err Error.filter
          (compile codecs (record { version = version; expression = expression }) target)
    filter_of target none (some version) = err incomplete
    filter_of target (some expression) none = err incomplete

    -- `PostgresStorage::to_monitor`
    unfoldable pub to_monitor : MonitorRow → Result Error Monitor
    unfolding target compile from_monitor_id from_i64
    to_monitor row = do
      found ← target row
      filter ← filter_of found row.filter_ast row.filter_version
      id ← from_monitor_id row.id
      chain_id ← from_i64 row.chain_id
      start_block ← from_i64 row.start_block
      end_block ← opt_from_i64 row.end_block
      cursor ← opt_from_i64 row.cursor
      ok (record {
        id = id;
        chain = record { id = chain_id };
        target = found;
        start_block = start_block;
        end_block = end_block;
        cursor = cursor;
        completed = row.completed;
        enabled = row.enabled;
        filter = filter;
      })
