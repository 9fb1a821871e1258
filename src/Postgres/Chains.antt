-- ===== src/Postgres/Chains.antt =====
-- parseon-postgres/src/chain_repo.rs, and the `ChainRepository` of storage.rs over it. `rpc_url.parse()` is a
-- parameter; a `Url` is its text.
pub mod Rows
pub mod Steps
pub mod Updates
pub mod Deletions
pub mod Lawful
use parseon.Common.{
  ℕ, String, Bool, true, false, not, Option, none, some, List, [], ◌∷◌, ◌++◌, any, keep, map, eqb,
  unwrap_or, if◌then◌else◌, Result, ok, err, ok_or, and_then,
}
use parseon.Common.Int.{ℤ, eqb_ℤ}
use parseon.Common.Eq.{int_eq}
use parseon.Common.Distinct.{contains}
use parseon.Common.Stateful.{Stateful, pure, lift, ◌>>=◌, ◌>>◌}
use parseon.Model.{Chain}
use parseon.Errors.{Error}
use parseon.Ports.Storage.{NewChain, ChainUpdate, ChainRecord, ChainRepository}
use parseon.Postgres.Types.{to_i64, from_i64}
use parseon.Postgres.Insert.{result_table_name}
use parseon.Postgres.Tables.{
  ChainRow, MonitorRow, Table, Database, Session, Query, statement, transaction,
}

-- The row of a chain.
unfoldable pub chain_by : ℤ → List ChainRow → Option ChainRow
chain_by id [] = none
chain_by id (r ∷ rs) = if eqb_ℤ r.chain_id id then some r else chain_by id rs

abbrev pub not_found : Error
not_found = Error.storage "chain not found"

-- SELECT
abbrev pub select : {A : Type 0} → (Database → A) → Query A
select f s = (ok (f s.db), s)

abbrev pub with_chains : List ChainRow → Session → Session
with_chains chains s = record s { db = record s.db { chains = chains } }

-- INSERT INTO chains, whose key is the id.
abbrev pub insert_row : ChainRow → Query ChainRow
insert_row row s =
    if any (λ r. eqb_ℤ r.chain_id row.chain_id) s.db.chains
    then (err (Error.storage "the chain exists"), s)
    else (ok row, with_chains (s.db.chains ++ row ∷ []) s)

-- `create`
unfoldable pub create_row : Chain → String → Bool → Query ChainRow
unfolding to_i64 statement
create_row chain rpc_url enabled = do
  chain_id ← lift (to_i64 chain.id)
  statement
  insert_row (record { chain_id = chain_id; rpc_url = rpc_url; enabled = enabled })

-- `get`
unfoldable pub get_row : ℕ → Query ChainRow
unfolding to_i64 statement chain_by
get_row id = do
  chain_id ← lift (to_i64 id)
  statement
  found ← select (λ db. chain_by chain_id db.chains)
  lift (ok_or found not_found)

-- COALESCE of the two columns.
abbrev pub coalesced : Option String → Option Bool → ChainRow → ChainRow
coalesced rpc_url enabled row = record row {
  rpc_url = unwrap_or rpc_url row.rpc_url;
  enabled = unwrap_or enabled row.enabled;
}

abbrev pub update_at : ℤ → Option String → Option Bool → ChainRow → ChainRow
update_at chain_id rpc_url enabled row =
    if eqb_ℤ row.chain_id chain_id then coalesced rpc_url enabled row else row

-- UPDATE chains with its RETURNING.
abbrev pub update_rows : ℤ → Option String → Option Bool → Query (Option ChainRow)
update_rows chain_id rpc_url enabled s =
    let rows = map (update_at chain_id rpc_url enabled) s.db.chains in
    (ok (chain_by chain_id rows), with_chains rows s)

-- `update`
unfoldable pub update_row : ℕ → Option String → Option Bool → Query ChainRow
unfolding to_i64 statement chain_by
update_row id rpc_url enabled = do
  chain_id ← lift (to_i64 id)
  statement
  updated ← update_rows chain_id rpc_url enabled
  lift (ok_or updated not_found)

-- The ids of a chain's monitors.
abbrev pub monitors_of : ℤ → Database → List ℤ
monitors_of chain_id db = map (λ m. m.id) (keep (λ m. eqb_ℤ m.chain_id chain_id) db.monitors)

-- `drop_result_table` of dyn_table.rs
abbrev pub drop_table : ℤ → Query (Unit {0})
drop_table id s =
    (ok tt, record s { db = record s.db { tables = keep (λ t. not (eqb_ℤ t.id id)) s.db.tables } })

-- The loop over the monitors.
unfoldable pub drop_tables : List ℤ → Query (Unit {0})
unfolding statement result_table_name
drop_tables [] = pure tt
drop_tables (id ∷ ids) = do
  table ← lift (result_table_name id)
  statement
  drop_table table
  drop_tables ids

-- DELETE FROM chains, with its monitors by ON DELETE CASCADE.
abbrev pub delete_rows : ℤ → Query (Unit {0})
delete_rows chain_id s = (
  ok tt,
  record s {
    db = record s.db {
      chains = keep (λ r. not (eqb_ℤ r.chain_id chain_id)) s.db.chains;
      monitors = keep (λ m. not (eqb_ℤ m.chain_id chain_id)) s.db.monitors;
    };
  },
)

-- `delete` from `begin` to `commit`.
unfoldable pub delete_body : ℤ → Query (Unit {0})
unfolding statement chain_by drop_tables
delete_body chain_id = do
  statement
  statement
  found ← select (λ db. chain_by chain_id db.chains)
  row ← lift (ok_or found not_found)
  statement
  ids ← select (monitors_of chain_id)
  drop_tables ids
  statement
  delete_rows chain_id
  statement

-- `delete`
unfoldable pub delete_row : ℕ → Query (Unit {0})
unfolding to_i64 delete_body transaction
delete_row id = do chain_id ← lift (to_i64 id); transaction (delete_body chain_id)

module _ (parse_url : String → Option String) where
  -- `PostgresStorage::chain_record`
  unfoldable pub chain_record : ChainRow → Result Error ChainRecord
  unfolding from_i64
  chain_record row =
      and_then (ok_or (parse_url row.rpc_url) (Error.storage "invalid URL")) (λ rpc_url.
        and_then (from_i64 row.chain_id) (λ id.
          ok (record { chain = record { id = id }; rpc_url = rpc_url; enabled = row.enabled })))

  -- The `ChainRepository` of PostgresStorage.
  unfoldable pub postgres_chains : ChainRepository Session
  unfolding create_row get_row update_row delete_row chain_record
  postgres_chains = record {
    create_chain = λ input. do
      row ← create_row input.chain input.rpc_url input.enabled
      lift (chain_record row);
    get_chain = λ chain. do
      row ← get_row chain.id
      lift (chain_record row);
    update_chain = λ chain update. do
      row ← update_row chain.id update.rpc_url update.enabled
      lift (chain_record row);
    delete_chain = λ chain. delete_row chain.id;
  }
