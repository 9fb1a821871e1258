-- ===== src/Postgres/Commit.antt =====
-- `commit_block` of parseon-postgres/src/storage.rs.
pub mod Locked
pub mod Refined
pub mod Grouped
use parseon.Common.{
  Bool, ◌&&◌, some, List, [], ◌∷◌, all, keep, map, length, eqb, is_some_and, if◌then◌else◌, ok,
  ensure, ok_or, traverse,
}
use parseon.Common.Int.{ℤ, eqb_ℤ, leb_ℤ}
use parseon.Common.Eq.{string_eq, int_eq}
use parseon.Common.Distinct.{contains}
use parseon.Common.Maps.{Map, lookup}
use parseon.Common.Ordered.{Entries}
use parseon.Common.Stateful.{pure, lift, ◌>>=◌, ◌>>◌}
use parseon.Abi.{Alloy}
use parseon.Errors.{Error}
use parseon.Worker.Effects.{BlockCommit}
use parseon.Postgres.Types.{to_i64, to_monitor_id}
use parseon.Postgres.Columns.{MonitorKind, call, event}
use parseon.Postgres.Bind.{ResultInput}
use parseon.Postgres.Group.{sort_dedup, Groups, group_results, with_id}
use parseon.Postgres.Tables.{MonitorRow, Query, statement, transaction}
use parseon.Postgres.Insert.{insert_results}

-- The WHERE of the statement, and its SET.
abbrev pub is_locked : List ℤ → ℤ → MonitorRow → Bool
is_locked ids chain_id row = contains row.id ids && eqb_ℤ row.chain_id chain_id

abbrev pub advanced : ℤ → MonitorRow → MonitorRow
advanced block_number row = record row {
  cursor = some block_number;
  completed = is_some_and row.end_block (λ end. leb_ℤ end block_number);
}

abbrev pub advance_locked : List ℤ → ℤ → ℤ → MonitorRow → MonitorRow
advance_locked ids chain_id block_number row =
    if is_locked ids chain_id row then advanced block_number row else row

-- The UPDATE with its RETURNING.
unfoldable pub update_cursors : List ℤ → ℤ → ℤ → Query (List MonitorRow)
unfolding statement
update_cursors ids chain_id block_number = do
  statement
  λ s. (
    ok (map (advanced block_number) (keep (is_locked ids chain_id) s.db.monitors)),
    record s {
      db = record s.db { monitors = map (advance_locked ids chain_id block_number) s.db.monitors };
    },
  )

module _ (alloy : Alloy) where
  -- A loop over the groups, in the order of the ids, one of the orders of a HashMap.
  unfoldable pub insert_groups :
      MonitorKind → Map MonitorRow → Entries ResultInput → Query (Unit {0})
  unfolding insert_results lookup
  insert_groups kind rows [] = pure tt
  insert_groups kind rows ((id, inputs) ∷ groups) = do
    row ← lift (ok_or (lookup id rows) (Error.storage "monitor was not locked"))
    insert_results alloy kind row.id row.param_schema inputs
    insert_groups kind rows groups

  -- The loops over the groups, up to `commit`.
  unfoldable pub insert_all : Map MonitorRow → Groups → Query (Unit {0})
  unfolding insert_groups statement
  insert_all rows groups = do
    insert_groups call rows groups.0
    insert_groups event rows groups.1
    statement

  -- From the rows that the UPDATE returned.
  unfoldable pub commit_results : BlockCommit → List ℤ → List MonitorRow → Query (Unit {0})
  unfolding group_results insert_all
  commit_results commit ids locked = do
    lift (
        ensure (eqb (length locked) (length ids))
          (Error.storage "monitor set changed before the block could be committed"))
    rows ← lift (traverse with_id locked)
    groups ← lift (group_results rows commit.results ([], []))
    insert_all rows groups

  -- From the UPDATE.
  unfoldable pub commit_rows : BlockCommit → List ℤ → ℤ → ℤ → Query (Unit {0})
  unfolding update_cursors commit_results
  commit_rows commit ids chain_id block_number = do
    locked ← update_cursors ids chain_id block_number
    commit_results commit ids locked

  -- From `begin` to `commit`.
  unfoldable pub commit_body : BlockCommit → Query (Unit {0})
  unfolding commit_rows sort_dedup statement
  commit_body commit = do
    statement
    ids ← lift (traverse (λ m. to_monitor_id m.id) commit.monitors)
    block_number ← lift (to_i64 commit.block_number)
    chain_id ← lift (to_i64 commit.chain.id)
    commit_rows commit (sort_dedup ids) chain_id block_number

  -- `commit_block`
  unfoldable pub commit_block : BlockCommit → Query (Unit {0})
  unfolding commit_body transaction
  commit_block commit = do
    lift (
        ensure (all (λ m. eqb m.chain.id commit.chain.id) commit.monitors)
          (Error.storage "cross-chain monitor set rejected"))
    transaction (commit_body commit)
