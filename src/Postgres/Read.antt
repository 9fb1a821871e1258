-- ===== src/Postgres/Read.antt =====
-- The reading of results, of parseon-postgres/src/dyn_table.rs and storage.rs.
pub mod Canonical
pub mod Pages
use parseon.Common.{
  ℕ, String, Bool, true, false, Option, none, some, List, [], ◌∷◌, map, take, drop, eqb,
  if◌then◌else◌, Result, ok, err, ◌>>=◌, ◌>>◌, ensure, ok_or, traverse,
}
use parseon.Common.Int.{ℤ, pos, ltb_ℤ, eqb_ℤ}
use parseon.Common.Eq.{◌==◌, string_eq}
use parseon.Filter.Evaluate.{ltb_list}
use parseon.Model.{B256, BlockNumber, AbiParam, Target, DecodedValue}
use parseon.Abi.{Alloy}
use parseon.Errors.{Error}
use parseon.Commands.{ResultQuery}
use parseon.Ports.Sink.{Format, ParamValue, Params}
use parseon.Postgres.Types.{to_i64, from_i64, to_monitor_id, b256}
use parseon.Postgres.Columns.{
  StoredParam, PgColumnType, numeric, bool, text, bytea, PgParam, MonitorKind, call, event, as_str,
  postgres_params,
}
use parseon.Postgres.Tables.{ResultRow, Database, has_table, rows_of}
use parseon.Postgres.Insert.{result_table_name}

-- `CallResultRecord` and `EventResultRecord`: an event has a log index.
pub record ResultRecord : Type 0 where
  pub tx_hash : B256
  pub log_index : Option ℕ
  pub block_number : BlockNumber
  pub params : Params

-- `try_get` of a column.
unfoldable pub get_cell : String → List (String × DecodedValue) → Option DecodedValue
get_cell column [] = none
get_cell column ((c, v) ∷ cells) = if c == column then some v else get_cell column cells

abbrev pub type_mismatch : Error
type_mismatch = Error.storage "the column has another type"

-- ORDER BY block_number DESC, then the hash of a call or the index of a log.
abbrev above_index : Option ℤ → Option ℤ → Bool
above_index (some i) (some j) = ltb_ℤ j i
above_index _ _ = false

abbrev pub precedes : MonitorKind → ResultRow → ResultRow → Bool
precedes kind a b =
    if eqb_ℤ a.block_number b.block_number
    then elim kind [
      | call ↦ ltb_list b.tx_hash a.tx_hash
      | event ↦ above_index a.log_index b.log_index
    ]
    else ltb_ℤ b.block_number a.block_number

unfoldable pub place_row : MonitorKind → ResultRow → List ResultRow → List ResultRow
unfolding ltb_list
place_row kind row [] = row ∷ []
place_row kind row (r ∷ rs) =
    let later = place_row kind row rs in if precedes kind row r then row ∷ r ∷ rs else r ∷ later

unfoldable pub order_rows : MonitorKind → List ResultRow → List ResultRow
unfolding place_row
order_rows kind [] = []
order_rows kind (r ∷ rs) = place_row kind r (order_rows kind rs)

module _ (format : Format) where
  -- The match on the kind of a column, which holds what was bound.
  abbrev pub read_value : PgColumnType → DecodedValue → Result Error ParamValue
  read_value numeric (DecodedValue.uint v) = ok (ParamValue.string (format.uint v))
  read_value numeric (DecodedValue.int v) = ok (ParamValue.string (format.int v))
  read_value bool (DecodedValue.bool v) = ok (ParamValue.bool v)
  read_value text (DecodedValue.string v) = ok (ParamValue.string v)
  read_value bytea (DecodedValue.address v) = ok (ParamValue.string (format.hex v))
  read_value bytea (DecodedValue.bytes v) = ok (ParamValue.string (format.hex v))
  read_value _ _ = err type_mismatch

  -- `read_params`
  unfoldable pub read_params : List PgParam → List (String × DecodedValue) → Result Error Params
  unfolding get_cell
  read_params [] cells = ok []
  read_params (p ∷ ps) cells = do
    value ← ok_or (get_cell p.column cells) type_mismatch
    param ← read_value p.kind value
    rest ← read_params ps cells
    ok ((p.name, param) ∷ rest)

  abbrev read_index : Option ℤ → Result Error (Option ℕ)
  read_index none = ok none
  read_index (some stored) = do index ← from_i64 stored; ok (some index)

  -- The closure over the rows.
  unfoldable pub read_row : List PgParam → ResultRow → Result Error ResultRecord
  unfolding read_params b256 from_i64
  read_row params row = do
    decoded ← read_params params row.cells
    tx_hash ← b256 row.tx_hash
    index ← read_index row.log_index
    block_number ← from_i64 row.block_number
    ok (record {
      tx_hash = tx_hash;
      log_index = index;
      block_number = block_number;
      params = decoded;
    })

  -- `query_results`, with its LIMIT and OFFSET. A SELECT from a table that does not exist fails.
  unfoldable pub query_table :
      Alloy
      → Database
      → ℤ
      → MonitorKind
      → List StoredParam
      → ResultQuery
      → Result Error (List ResultRecord)
  unfolding postgres_params result_table_name order_rows read_row to_i64 has_table
  query_table alloy db id kind schema query = do
    params ← postgres_params alloy (as_str kind) schema
    table ← result_table_name id
    offset ← to_i64 query.offset
    ensure (has_table table db.tables) (Error.storage "the table does not exist")
    traverse (read_row params)
        (take query.limit.get (drop query.offset (order_rows kind (rows_of table db.tables))))

-- The schema of a target as it is stored.
abbrev pub stored_param : Alloy → AbiParam → StoredParam
stored_param alloy p = record {
  name = p.name;
  sol_type = alloy.type_name p.ty;
  indexed = p.indexed;
}

abbrev pub kind_of : Target → MonitorKind
kind_of (Target.call t) = call
kind_of (Target.event t) = event

abbrev pub params_of : Target → List AbiParam
params_of (Target.call t) = t.inputs
params_of (Target.event t) = t.params

-- `ResultRepository::query_results`, by the id and the target of the monitor's record.
unfoldable pub query_results :
    Format → Alloy → Database → ℕ → Target → ResultQuery → Result Error (List ResultRecord)
unfolding query_table to_monitor_id
query_results format alloy db id target query = do
  stored_id ← to_monitor_id id
  query_table format alloy db stored_id (kind_of target)
      (map (stored_param alloy) (params_of target)) query
