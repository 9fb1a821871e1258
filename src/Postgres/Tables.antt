-- ===== src/Postgres/Tables.antt =====
-- The tables of parseon-postgres: the rows of monitor_repo.rs and chain_repo.rs, a result table for each monitor, and
-- transactions. A statement may fail for the server's own reasons: after some number of statements or never.
-- The columns created_at and updated_at are left out.
use parseon.Common.{
  ℕ, zero, suc, String, Bool, true, false, ◌&&◌, Option, none, some, List, [], ◌∷◌, ◌++◌, any,
  length, eqb, not, if◌then◌else◌, Result, ok, err,
}
use parseon.Common.Int.{ℤ, pos, eqb_ℤ, leb_ℤ}
use parseon.Common.Eq.{◌==◌, list_eq, nat_eq}
use parseon.Common.Stateful.{Stateful}
use parseon.Model.{Bytes, DecodedValue}
use parseon.Filter.Ast.{FilterExpression}
use parseon.Errors.{Error}
use parseon.Postgres.Columns.{StoredParam}

-- `ChainRecord` of chain_repo.rs
pub record ChainRow : Type 0 where
  pub chain_id : ℤ
  pub rpc_url : String
  pub enabled : Bool

-- `MonitorRecord` of monitor_repo.rs
pub record MonitorRow : Type 0 where
  pub id : ℤ
  pub chain_id : ℤ
  pub address : Bytes
  pub kind : String
  pub signature_hash : Bytes
  pub param_schema : List StoredParam
  pub start_block : ℤ
  pub end_block : Option ℤ
  pub cursor : Option ℤ
  pub completed : Bool
  pub enabled : Bool
  pub filter_ast : Option FilterExpression
  pub filter_version : Option ℤ

-- A row of a result table: its identity columns, and the cells of the parameters' columns.
pub record ResultRow : Type 0 where
  pub tx_hash : Bytes
  pub log_index : Option ℤ
  pub block_number : ℤ
  pub cells : List (String × DecodedValue)

-- The table `monitor_{id}_results`.
pub record Table : Type 0 where
  pub id : ℤ
  pub rows : List ResultRow

pub record Database : Type 0 where
  pub chains : List ChainRow
  pub monitors : List MonitorRow
  pub tables : List Table

-- The sequence of the ids of monitors is not part of a transaction.
pub record Session : Type 0 where
  pub db : Database
  pub next_id : ℕ
  pub statements_left : Option ℕ

abbrev pub Query : Type 0 → Type 0
Query A = Stateful Session Error A

abbrev server_error : Error
server_error = Error.storage "the server failed"

-- A statement that does nothing, but for what makes the server fail.
abbrev pub attempt : Option ℕ → Session → Result Error (Unit {0}) × Session
attempt none s = (ok tt, s)
attempt (some zero) s = (err server_error, s)
attempt (some (suc n)) s = (ok tt, record s { statements_left = some n })

unfoldable pub statement : Query (Unit {0})
statement s = attempt s.statements_left s

-- A transaction that is dropped is rolled back.
abbrev pub rolled_back :
    {A : Type 0} → Database → Result Error A × Session → Result Error A × Session
rolled_back before (ok a, s) = (ok a, s)
rolled_back before (err e, s) = (err e, record s { db = before })

unfoldable pub transaction : {A : Type 0} → Query A → Query A
transaction body s = rolled_back s.db (body s)

-- The primary key of a result table: the hash of a call, the hash and the index of a log.
abbrev pub same_index : Option ℤ → Option ℤ → Bool
same_index none none = true
same_index (some i) (some j) = eqb_ℤ i j
same_index none (some j) = false
same_index (some i) none = false

abbrev pub same_key : ResultRow → ResultRow → Bool
same_key a b = a.tx_hash == b.tx_hash && same_index a.log_index b.log_index

abbrev pub is_natural : Option ℤ → Bool
is_natural none = true
is_natural (some i) = leb_ℤ (pos 0) i

-- The CHECK constraints of the identity columns.
unfoldable pub is_checked : ResultRow → Bool
is_checked row =
    eqb (length row.tx_hash) 32 && leb_ℤ (pos 0) row.block_number && is_natural row.log_index

-- The rows of a table after others were inserted, if each passes the checks and no key is taken.
unfoldable pub add_rows : List ResultRow → List ResultRow → Option (List ResultRow)
unfolding is_checked
add_rows rows [] = some rows
add_rows rows (new' ∷ more) =
    let added = add_rows (rows ++ new' ∷ []) more in
    if is_checked new' && not (any (same_key new') rows) then added else none

abbrev replace_rows : Table → List Table → Option (List ResultRow) → Option (List Table)
replace_rows table others none = none
replace_rows table others (some rows) = some (record table { rows = rows } ∷ others)

abbrev keep_table : Table → Option (List Table) → Option (List Table)
keep_table table none = none
keep_table table (some tables) = some (table ∷ tables)

-- INSERT INTO `monitor_{id}_results`
unfoldable pub insert_into : ℤ → List ResultRow → List Table → Option (List Table)
unfolding add_rows
insert_into id new' [] = none
insert_into id new' (t ∷ ts) =
    let later = insert_into id new' ts in
    if eqb_ℤ t.id id then replace_rows t ts (add_rows t.rows new') else keep_table t later

-- Whether there is a table of an id.
unfoldable pub has_table : ℤ → List Table → Bool
has_table id tables = any (λ t. eqb_ℤ t.id id) tables

-- The rows of a table, none if it does not exist.
unfoldable pub rows_of : ℤ → List Table → List ResultRow
rows_of id [] = []
rows_of id (t ∷ ts) = if eqb_ℤ t.id id then t.rows else rows_of id ts
