-- ===== src/Postgres/Insert.antt =====
-- `insert_calls` and `insert_events` of parseon-postgres/src/dyn_table.rs.
pub mod Added
pub mod Whole
use parseon.Common.{
  ◌+◌, ◌/◌, Option, none, some, List, [], ◌∷◌, all, map, length, leb, eqb, if◌then◌else◌, Result,
  ok, err, ensure, traverse,
}
use parseon.Common.Int.{ℤ, pos, ltb_ℤ}
use parseon.Common.Stateful.{pure, lift, ◌>>=◌, ◌>>◌}
use parseon.Abi.{Alloy}
use parseon.Errors.{Error}
use parseon.Postgres.Columns.{StoredParam, PgParam, MonitorKind, as_str, postgres_params}
use parseon.Postgres.Bind.{ResultInput, bind_limit, identifier, chunks, bind_row, identity_width}
use parseon.Postgres.Tables.{ResultRow, Table, Query, statement, insert_into}

-- `result_table_name`: the table is known by the id.
unfoldable pub result_table_name : ℤ → Result Error ℤ
result_table_name id = if ltb_ℤ (pos 0) id then ok id else err (Error.storage "invalid monitor id")

-- What an INSERT leaves, if there is such a table, each row passes its checks and no key is taken.
abbrev pub inserted : Option (List Table) → Query (Unit {0})
inserted none s = (err (Error.storage "the insertion was refused"), s)
inserted (some tables) s = (ok tt, record s { db = record s.db { tables = tables } })

unfoldable pub insert_rows : ℤ → List ResultRow → Query (Unit {0})
unfolding insert_into statement
insert_rows id rows = do statement; λ s. inserted (insert_into id rows s.db.tables) s

-- The loop over the chunks.
unfoldable pub insert_chunks : ℤ → List PgParam → List (List ResultInput) → Query (Unit {0})
unfolding insert_rows identifier bind_row
insert_chunks table params [] = pure tt
insert_chunks table params (chunk ∷ rest) = do
  columns ← lift (traverse identifier (map (λ p. p.column) params))
  rows ← lift (traverse (bind_row params) chunk)
  insert_rows table rows
  insert_chunks table params rest

-- What follows the naming of the columns.
unfoldable pub insert_checked : MonitorKind → ℤ → List PgParam → List ResultInput → Query (Unit {0})
unfolding insert_chunks chunks result_table_name
insert_checked kind id params inputs = do
  lift (
      ensure (all (λ input. eqb (length params) (length input.params)) inputs)
        (Error.storage "parameter count mismatch"))
  let width = length params + identity_width kind
  lift (ensure (leb width bind_limit) (Error.storage "result row exceeds PostgreSQL bind limit"))
  table ← lift (result_table_name id)
  insert_chunks table params (chunks (bind_limit / width) inputs)

-- `insert_calls` and `insert_events`, by the kind.
unfoldable pub insert_results :
    Alloy → MonitorKind → ℤ → List StoredParam → List ResultInput → Query (Unit {0})
unfolding postgres_params insert_checked
insert_results alloy kind id schema inputs = do
  params ← lift (postgres_params alloy (as_str kind) schema)
  insert_checked kind id params inputs
