-- ===== src/Postgres/Bind.antt =====
-- The inputs of an INSERT of parseon-postgres/src/dyn_table.rs, and the rows that are bound for them.
use parseon.Common.{
  ℕ, zero, suc, String, ◌||◌, Option, none, some, List, [], ◌∷◌, any, map, zip, take, drop, length,
  eqb, if◌then◌else◌, Result, ok, err, ◌>>=◌,
}
use parseon.Common.Int.{ℤ}
use parseon.Common.Eq.{◌==◌, string_eq}
use parseon.Common.Text.{codes}
use parseon.Model.{B256, BlockNumber, DecodedValue}
use parseon.Errors.{Error}
use parseon.Postgres.Types.{to_i64}
use parseon.Postgres.Columns.{PgParam, MonitorKind, call, event}
use parseon.Postgres.Tables.{ResultRow}

-- `BIND_LIMIT`
abbrev pub bind_limit : ℕ
bind_limit = 65535

-- `CallResultInput` and `EventResultInput`: a log has an index.
pub record ResultInput : Type 0 where
  pub tx_hash : B256
  pub log_index : Option ℕ
  pub block_number : BlockNumber
  pub params : List DecodedValue

-- `Identifier::new`
unfoldable pub identifier : String → Result Error String
identifier name =
    if name == "" || any (λ c. eqb c 0) (codes name)
    then err (Error.storage "invalid SQL identifier")
    else ok name

-- `chunks(size)`, on as many rounds as there may be chunks.
unfoldable pub chunks_on : ℕ → ℕ → List ResultInput → List (List ResultInput)
chunks_on zero size inputs = []
chunks_on (suc rounds) size [] = []
chunks_on (suc rounds) size (i ∷ inputs) =
    let rest = chunks_on rounds size (drop size (i ∷ inputs)) in take size (i ∷ inputs) ∷ rest

unfoldable pub chunks : ℕ → List ResultInput → List (List ResultInput)
unfolding chunks_on
chunks size inputs = chunks_on (length inputs) size inputs

abbrev pub stored_index : Option ℕ → Result Error (Option ℤ)
stored_index none = ok none
stored_index (some i) = do index ← to_i64 i; ok (some index)

-- The bindings of a row. The name of a column and its value stand at one position.
unfoldable pub bind_row : List PgParam → ResultInput → Result Error ResultRow
unfolding to_i64
bind_row params input = do
  index ← stored_index input.log_index
  block_number ← to_i64 input.block_number
  ok (record {
    tx_hash = input.tx_hash;
    log_index = index;
    block_number = block_number;
    cells = zip (map (λ p. p.column) params) input.params;
  })

-- The number of identity columns.
abbrev pub identity_width : MonitorKind → ℕ
identity_width call = 2
identity_width event = 3
