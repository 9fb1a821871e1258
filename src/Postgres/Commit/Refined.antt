-- ===== src/Postgres/Commit/Refined.antt =====
-- What `commit_block` of parseon-postgres/src/storage.rs promises to the storage port, on success and on failure.
use parseon.Common.{
  ℕ, ◌≡◌, refl, sym, ap, ◌∙◌, subst, inl, inr, true, false, some, List, [], ◌∷◌, ◌++◌, all, keep,
  map, length, eqb, eqb_iff, Result, ok, err, ensure, ensure-eq-ok, traverse, >>=-eq-ok, ok_inj,
  Bool-cases,
}
use parseon.Common.Int.{ℤ, pos}
use parseon.Common.Eq.{int_eq}
use parseon.Common.Distinct.{contains, AreDistinct}
use parseon.Common.Maps.{Map}
use parseon.Common.Ordered.{entry_at}
use parseon.Common.Stateful.{>>=-ok, lift->>=-ok}
use parseon.Abi.{Alloy}
use parseon.Errors.{Error}
use parseon.Worker.Effects.{BlockCommit}
use parseon.Postgres.Types.{to_i64, to_monitor_id, from_monitor_id, from_monitor_id-eq}
use parseon.Postgres.Columns.{call, event}
use parseon.Postgres.Group.{sort_dedup, Groups, group_results, with_id}
use parseon.Postgres.Tables.{
  MonitorRow, Database, Session, statement, rolled_back, transaction, rows_of,
}
use parseon.Postgres.Insert.Added.{Stored, stored, to_store, to_i64-eq}
use parseon.Postgres.Insert.Whole.{Adds, Adds-seq, statement-db}
use parseon.Postgres.Commit.{
  is_locked, advanced, advance_locked, update_cursors, insert_groups, insert_all, commit_results,
  commit_rows, commit_body, commit_block,
}
use parseon.Postgres.Commit.Grouped.{
  calls_of, events_of, IsGrouped, group_results-IsGrouped, AreKeyed, grouped, insert_groups-Adds,
  grouped-entry_at,
}
use parseon.Postgres.Commit.Locked.{
  row_by, row_ids, names_monitor, contains-ids, contains-sort_dedup, row_ids-advanced, row_by-other,
  asked-locked,
}

-- The whole effect of a commit: the monitors that it names exist on its chain and are advanced to its block,
-- completed if their end block is reached; the other monitors are as they were; and each result table has the
-- commit's results of its monitor after its rows, and no other new ones.
pub record Commits (commit : BlockCommit) (before after : Database) : Type 0 where
  pub chains : after.chains ≡ before.chains
  pub ids : row_ids after.monitors ≡ row_ids before.monitors
  pub covered :
      (j : ℕ)
      → names_monitor j commit.monitors ≡ true
      → (row : MonitorRow) × (row_by (pos j) before.monitors ≡ some row)
        × (row.chain_id ≡ pos commit.chain.id)
        × (row_by (pos j) after.monitors ≡ some (advanced (pos commit.block_number) row))
  pub others :
      (j : ℕ)
      → names_monitor j commit.monitors ≡ false
      → row_by (pos j) after.monitors ≡ row_by (pos j) before.monitors
  pub results :
      (j : ℕ)
      → map stored (rows_of (pos j) after.tables)
        ≡ map stored (rows_of (pos j) before.tables)
          ++ (map to_store (calls_of j commit.results) ++ map to_store (events_of j commit.results))

-- All or nothing.
abbrev pub Outcome : BlockCommit → Database → Result Error (Unit {0}) × Session → Type 0
Outcome commit before (ok u, t) = Commits commit before t.db
Outcome commit before (err e, t) = t.db ≡ before

with_id-AreKeyed :
    (locked : List MonitorRow) (rows : Map MonitorRow)
    → traverse with_id locked ≡ ok rows
    → AreKeyed rows
with_id-AreKeyed [] rows h = subst AreKeyed (ok_inj h) tt
with_id-AreKeyed (r ∷ rs) rows h =
    let (pair, found, after) = >>=-eq-ok (with_id r) _ h in
    let (rest, more, result) = >>=-eq-ok (traverse with_id rs) _ after in
    let (id, numbered, made) = >>=-eq-ok (from_monitor_id r.id) _ found in
    subst AreKeyed (ok_inj result) (
      subst (λ (p : ℕ × MonitorRow). (p.1).id ≡ pos p.0) (ok_inj made)
          (from_monitor_id-eq r.id id numbered),
      with_id-AreKeyed rs rest more,
    )

module _ (alloy : Alloy) (commit : BlockCommit) where
  abbrev both : Groups → ℤ → List Stored
  both groups i = grouped groups.0 i ++ grouped groups.1 i

  insert_all-Adds :
      (rows : Map MonitorRow) (groups : Groups) (s t : Session) (u : Unit {0})
      → AreKeyed rows
      → insert_all alloy rows groups s ≡ (ok u, t)
      → Adds (both groups) s.db t.db
  unfolding insert_all
  insert_all-Adds rows groups s t u keyed h =
      let (v, s1, calls, after) = >>=-ok (insert_groups alloy call rows groups.0) _ s t h in
      let (w, s2, events, ends) = >>=-ok (insert_groups alloy event rows groups.1) _ s1 t after in
      subst (λ d. Adds (both groups) s.db d) (sym (statement-db s2 t u ends))
        (Adds-seq (grouped groups.0) (grouped groups.1) s.db s1.db s2.db
          (insert_groups-Adds alloy call rows groups.0 s s1 v keyed calls)
          (insert_groups-Adds alloy event rows groups.1 s1 s2 w keyed events))

  commit_results-Adds :
      (ids : List ℤ) (locked : List MonitorRow) (s t : Session) (u : Unit {0})
      → commit_results alloy commit ids locked s ≡ (ok u, t)
      → (length locked ≡ length ids)
        × (groups : Groups) × IsGrouped commit.results ([], []) groups
        × Adds (both groups) s.db t.db
  unfolding commit_results
  commit_results-Adds ids locked s t u h =
      let (v, counted, after) = lift->>=-ok (ensure (eqb (length locked) (length ids)) _) _ s t h in
      let (rows, keyed, after') = lift->>=-ok (traverse with_id locked) _ s t after in
      let (groups, grouped', ends) =
        lift->>=-ok (group_results rows commit.results ([], [])) _ s t after' in
      (
        (eqb_iff _ _).0 (ensure-eq-ok _ _ v counted),
        groups,
        group_results-IsGrouped rows commit.results [] [] groups tt tt grouped',
        insert_all-Adds rows groups s t u (with_id-AreKeyed locked rows keyed) ends,
      )

  -- What the UPDATE returns and leaves.
  update_cursors_lem :
      (ids : List ℤ) (c b : ℤ) (s t : Session) (locked : List MonitorRow)
      → update_cursors ids c b s ≡ (ok locked, t)
      → (locked ≡ map (advanced b) (keep (is_locked ids c) s.db.monitors))
        × (t.db ≡ record s.db { monitors = map (advance_locked ids c b) s.db.monitors })
  unfolding update_cursors
  update_cursors_lem ids c b s t locked h =
      let (v, s', began, ends) = >>=-ok statement _ s t h in
      let same = statement-db s s' v began in
      (
        sym (ok_inj (ap (λ p. p.0) ends))
            ∙ ap (λ (d : Database). map (advanced b) (keep (is_locked ids c) d.monitors)) same,
        sym (ap (λ p. (p.1).db) ends)
            ∙ ap (λ (d : Database). record d { monitors = map (advance_locked ids c b) d.monitors })
                same,
      )

  commit_rows-Commits :
      (ids : List ℤ) (s t : Session) (u : Unit {0})
      → AreDistinct (row_ids s.db.monitors)
      → ((j : ℕ) → contains (pos j) ids ≡ names_monitor j commit.monitors)
      → commit_rows alloy commit ids (pos commit.chain.id) (pos commit.block_number) s ≡ (ok u, t)
      → Commits commit s.db t.db
  unfolding commit_rows entry_at
  commit_rows-Commits ids s t u d named h =
      let c = pos commit.chain.id in
      let b = pos commit.block_number in
      let (locked, s', updated, after) = >>=-ok (update_cursors ids c b) _ s t h in
      let (is_locked', db) = update_cursors_lem ids c b s s' locked updated in
      let (count, groups, (oc, oe, of_calls, of_events), adds) =
        commit_results-Adds ids locked s' t u after in
      let monitors = adds.monitors ∙ ap (λ (d : Database). d.monitors) db in
      record {
        chains = adds.chains ∙ ap (λ (d : Database). d.chains) db;
        ids = ap row_ids monitors ∙ row_ids-advanced ids c b s.db.monitors;
        covered = λ j asked.
            let (row, found, on_chain, moved) =
              asked-locked ids c b (pos j) s.db.monitors d (ap length (sym is_locked') ∙ count)
                (named j ∙ asked) in
            (row, found, on_chain, ap (row_by (pos j)) monitors ∙ moved);
        others = λ j unasked.
            ap (row_by (pos j)) monitors
            ∙ row_by-other ids c b (pos j) s.db.monitors (named j ∙ unasked);
        results = λ j.
            adds.rows (pos j)
            ∙ ap (λ (d : Database). map stored (rows_of (pos j) d.tables) ++ both groups (pos j)) db
            ∙ ap (λ new'. map stored (rows_of (pos j) s.db.tables) ++ new')
                (ap (λ xs. xs ++ grouped groups.1 (pos j))
                    (grouped-entry_at j 0 groups.0 oc ∙ ap (map to_store) (of_calls j))
                  ∙ ap (λ xs. map to_store (calls_of j commit.results) ++ xs)
                      (grouped-entry_at j 0 groups.1 oe ∙ ap (map to_store) (of_events j)));
      }

  body-Commits :
      (s t : Session) (u : Unit {0})
      → AreDistinct (row_ids s.db.monitors)
      → commit_body alloy commit s ≡ (ok u, t)
      → Commits commit s.db t.db
  unfolding commit_body
  body-Commits s t u d h =
      let (v, s', began, after) = >>=-ok statement _ s t h in
      let (ids, numbered, after1) =
        lift->>=-ok (traverse (λ m. to_monitor_id m.id) commit.monitors) _ s' t after in
      let (b, block, after2) = lift->>=-ok (to_i64 commit.block_number) _ s' t after1 in
      let (c, chain, ends) = lift->>=-ok (to_i64 commit.chain.id) _ s' t after2 in
      let same = statement-db s s' v began in
      subst (λ db. Commits commit db t.db) same
        (commit_rows-Commits (sort_dedup ids) s' t u
          (subst (λ (db : Database). AreDistinct (row_ids db.monitors)) (sym same) d)
          (λ j. contains-sort_dedup (pos j) ids ∙ contains-ids j commit.monitors ids numbered)
          (ap (λ i. commit_rows alloy commit (sort_dedup ids) i (pos commit.block_number) s')
              (sym (to_i64-eq commit.chain.id c chain))
            ∙ ap (λ i. commit_rows alloy commit (sort_dedup ids) c i s')
                (sym (to_i64-eq commit.block_number b block))
            ∙ ends))

  transaction-Outcome :
      (s : Session) (out : Result Error (Unit {0}) × Session)
      → ((t : Session) (u : Unit {0}) → out ≡ (ok u, t) → Commits commit s.db t.db)
      → Outcome commit s.db (rolled_back s.db out)
  transaction-Outcome s (ok u, t) whole = whole t u refl
  transaction-Outcome s (err e, t) whole = refl

  -- A commit is all or nothing, at whichever statement the server fails, for monitors with distinct ids. If it
  -- succeeds, the monitors that it names exist on its chain and are advanced to its block, completed where
  -- their end block is reached; the other monitors are as they were; each result table has the commit's results
  -- of its monitor after its rows, and no other new ones. If it fails, the database is as it was.
  pub commit_block-Outcome :
      (s : Session)
      → AreDistinct (row_ids s.db.monitors)
      → Outcome commit s.db (commit_block alloy commit s)
  unfolding commit_block transaction
  commit_block-Outcome s d =
      elim (Bool-cases (all (λ m. eqb m.chain.id commit.chain.id) commit.monitors)) [
        | inr mixed ↦ rw mixed refl
        | inl one_chain ↦
            rw one_chain
              (transaction-Outcome s (commit_body alloy commit s) (λ t u h. body-Commits s t u d h))
      ]
