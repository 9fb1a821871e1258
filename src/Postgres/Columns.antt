-- ===== src/Postgres/Columns.antt =====
-- The columns of a result table, of parseon-postgres/src/dyn_table.rs.
pub mod Free
pub mod Names
use Prim.Native.String.{◌++◌}
use parseon.Common.{
  ℕ, zero, suc, String, Bool, true, false, List, [], ◌∷◌, map, any, length, ◌&&◌, if◌then◌else◌,
  Result, ok, err, ◌>>=◌, ◌>>◌,
}
use parseon.Common.Eq.{◌==◌, string_eq}
use parseon.Common.Decimal.{decimal}
use parseon.Common.Distinct.{contains}
use parseon.Common.Int.{ℤ, pos, negsuc}
use parseon.Model.{SolType, AbiParam}
use parseon.Abi.{Alloy, AbiError, parse_abi_type, new_param}
use parseon.Errors.{Error}
use parseon.Index.{map_err}

-- `StoredParam` of monitor_repo.rs
pub record StoredParam : Type 0 where
  pub name : String
  pub sol_type : String
  pub indexed : Bool

-- `MonitorKind`, and the text of a row's kind.
pub data MonitorKind : Type 0 where
  call event : MonitorKind

abbrev pub as_str : MonitorKind → String
as_str call = "call"
as_str event = "event"

pub data PgColumnType : Type 0 where
  numeric bool text bytea : PgColumnType

pub record PgParam : Type 0 where
  pub name : String
  pub column : String
  pub kind : PgColumnType

-- The match on the type; a type that passed `parse_abi_type` is scalar.
abbrev pub column_type : SolType → PgColumnType
column_type (SolType.uint bits) = numeric
column_type (SolType.int bits) = numeric
column_type SolType.bool = bool
column_type SolType.string = text
column_type ty = bytea

abbrev pub is_dynamic : SolType → Bool
is_dynamic SolType.string = true
is_dynamic SolType.bytes = true
is_dynamic ty = false

-- `PgColumnType::from_param`
unfoldable pub from_param : Alloy → StoredParam → Result Error PgColumnType
unfolding parse_abi_type
from_param alloy param = do
  ty ← map_err Error.abi (parse_abi_type alloy param.sol_type)
  ok (if param.indexed && is_dynamic ty then bytea else column_type ty)

-- `CALL_RESERVED` and `EVENT_RESERVED`
abbrev pub call_reserved : List String
call_reserved = "tx_hash" ∷ "block_number" ∷ []

abbrev pub event_reserved : List String
event_reserved = "tx_hash" ∷ "log_index" ∷ "block_number" ∷ []

-- The match on the kind.
abbrev pub reserved_columns : String → Result Error (List String)
reserved_columns kind =
    if kind == "call"
    then ok call_reserved
    else if kind == "event"
    then ok event_reserved
    else err (Error.storage "invalid monitor kind")

abbrev pub base_column : List String → String → String
base_column reserved name = if contains name reserved then name ++ "_param" else name

-- The column that is tried after some others.
abbrev pub candidate : String → ℕ → String
candidate base zero = base
candidate base (suc n) = base ++ ("_" ++ decimal (suc n))

-- The `while` loop from the n-th candidate, on rounds: as many as columns are used are enough
-- (`free_column-is_free`).
unfoldable pub free_column : ℕ → String → ℕ → List String → String
free_column zero base n used = candidate base n
free_column (suc rounds) base n used =
    let rest = free_column rounds base (suc n) used in
    if contains (candidate base n) used then rest else candidate base n

module _ (alloy : Alloy) where
  -- The closure of `postgres_params`, over the columns that are used.
  unfoldable pub name_columns :
      List String → List String → List StoredParam → Result Error (List PgParam)
  unfolding free_column from_param
  name_columns reserved used [] = ok []
  name_columns reserved used (p ∷ ps) = do
    let column = free_column (length used) (base_column reserved p.name) 0 used
    kind ← from_param alloy p
    rest ← name_columns reserved (column ∷ used) ps
    ok (record { name = p.name; column = column; kind = kind } ∷ rest)

  -- `postgres_params`
  unfoldable pub postgres_params : String → List StoredParam → Result Error (List PgParam)
  unfolding name_columns
  postgres_params kind params = do reserved ← reserved_columns kind; name_columns reserved [] params
