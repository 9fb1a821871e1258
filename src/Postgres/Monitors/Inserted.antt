-- ===== src/Postgres/Monitors/Inserted.antt =====
-- The transaction of `create_prepared` of parseon-postgres/src/monitor_repo.rs: the row and the table that it adds.
use parseon.Common.{
  ℕ, zero, suc, String, ◌≡◌, refl, ap, ◌∙◌, sym, inl, inr, true, Option, none, some, List, [], ◌∷◌,
  ◌++◌, map, any, ok_or, traverse, Bool-cases,
}
use parseon.Common.Int.{ℤ, pos, eqb_ℤ}
use parseon.Common.Stateful.{pure, lift, ◌>>=◌, ◌>>◌, continue, Ends, Ends-bind, Ends-lift}
use parseon.Abi.{Alloy}
use parseon.Errors.{Error}
use parseon.Ports.Storage.{NewMonitor}
use parseon.Postgres.Columns.{StoredParam, PgParam, postgres_params}
use parseon.Postgres.Bind.{identifier}
use parseon.Postgres.Insert.{result_table_name}
use parseon.Postgres.Insert.Whole.{result_table_name-eq}
use parseon.Postgres.Tables.{MonitorRow, Table, Database, Session, Query, statement, attempt}
use parseon.Postgres.Chains.{chain_by}
use parseon.Postgres.Loaded.{row_of}
use parseon.Postgres.Monitors.{
  is_allowed, insert_monitor, add_table, create_result_table, create_body,
}
use parseon.Postgres.Monitors.Stored.{stored_block, new_row}

-- The same rows and the same next id.
abbrev Same : Session → Session → Type 0
Same s t = (t.db ≡ s.db) × (t.next_id ≡ s.next_id)

abbrev pub Ignored : Session → Type 0
Ignored t = Unit {0}

-- A statement, then the rest, in a transaction.
statement-then :
    {A : Type 0} (P : A → Session → Type 0) (rest : Query A) (s t : Session)
    → Same s t
    → ((y : Session) → Same s y → Ends P Ignored (rest y))
    → Ends P Ignored ((statement >> rest) t)
unfolding statement
statement-then {A} P rest s t same next = after t.statements_left
  where
    after : (left : Option ℕ) → Ends P Ignored (continue (λ u. rest) (attempt left t))
    after none = next t same
    after (some zero) = tt
    after (some (suc n)) = next _ same

statement_last :
    (db : Database) (t : Session) → t.db ≡ db → Ends (λ u y. y.db ≡ db) Ignored (statement t)
unfolding statement
statement_last db t h = after t.statements_left
  where
    after : (left : Option ℕ) → Ends (λ u y. y.db ≡ db) Ignored (attempt left t)
    after none = h
    after (some zero) = tt
    after (some (suc n)) = h

-- The rows with an empty table.
abbrev table_in : ℤ → Database → Database
table_in id db = record db { tables = db.tables ++ record { id = id; rows = [] } ∷ [] }

abbrev with_table : ℤ → Session → Database
with_table id s = table_in id s.db

add_table-Ends :
    (id : ℤ) (s : Session) → Ends (λ u t. t.db ≡ with_table id s) Ignored (add_table id s)
unfolding add_table
add_table-Ends id s = elim (Bool-cases (any (λ (t : Table). eqb_ℤ t.id id) s.db.tables)) [
  | inl taken ↦ rw taken tt
  | inr free ↦ rw free refl
]

create_result_table-Ends :
    (alloy : Alloy) (id : ℤ) (kind : String) (params : List StoredParam) (s : Session)
    → Ends (λ u t. t.db ≡ with_table id s) Ignored (create_result_table alloy id kind params s)
unfolding create_result_table
create_result_table-Ends alloy id kind params s =
    Ends-bind (λ table t. (table ≡ id) × (t ≡ s)) P Ignored (lift (result_table_name id)) _ s
      (Ends-lift _ _ (result_table_name id) s (λ table h. (result_table_name-eq id table h, refl))
        tt)
      (λ table t (is, same).
        Ends-bind (λ named y. y.db ≡ s.db) P Ignored (lift (postgres_params alloy kind params)) _ t
          (Ends-lift _ _ (postgres_params alloy kind params) t
            (λ named h. ap (λ (x : Session). x.db) same) tt)
          (λ named y db.
            Ends-bind (λ columns z. z.db ≡ s.db) P Ignored
              (lift (traverse identifier (map (λ (p : PgParam). p.column) named))) _ y
              (Ends-lift _ _ (traverse identifier (map (λ (p : PgParam). p.column) named)) y
                (λ columns h. db) tt)
              (λ columns z db.
                statement-then P _ z z (refl, refl) (λ w h. added table w is (h.0 ∙ db)))))
  where
    P : Unit {0} → Session → Type 0
    P u t = t.db ≡ with_table id s

    added :
        (table : ℤ) (w : Session)
        → table ≡ id
        → w.db ≡ s.db
        → Ends P Ignored ((add_table table >> statement) w)
    added table w is db =
        Ends-bind (λ u t. t.db ≡ with_table table w) P Ignored (add_table table) (λ u. statement) w
          (add_table-Ends table w)
          (λ u t h.
            statement_last (with_table id s) t
              (h ∙ ap (λ i. with_table i w) is ∙ ap (table_in id) db))

module _ (alloy : Alloy) (input : NewMonitor) where
  -- The row that the session gives a new monitor.
  abbrev pub row_at : Session → MonitorRow
  row_at s = new_row alloy input s.next_id

  -- The rows with the new one and its table.
  abbrev pub with_new : Session → Database
  with_new s = record s.db {
    monitors = s.db.monitors ++ row_at s ∷ [];
    tables = s.db.tables ++ record { id = pos s.next_id; rows = [] } ∷ [];
  }

  abbrev pub Inserts : Session → MonitorRow → Session → Type 0
  Inserts s row t = (row ≡ row_at s) × (is_allowed (row_at s) ≡ true) × (t.db ≡ with_new s)

  abbrev pub body : Query MonitorRow
  body =
      create_body alloy input (pos input.chain.id) (pos input.start_block)
        (stored_block input.end_block)

  abbrev pub with_row : Session → Database
  with_row s = record s.db { monitors = s.db.monitors ++ row_at s ∷ [] }

  insert_monitor-Ends :
      (s t : Session)
      → Same s t
      → Ends
          (λ row y. (row ≡ row_at s) × (is_allowed (row_at s) ≡ true) × (y.db ≡ with_row s))
          Ignored
          (insert_monitor
            (row_of alloy input
              (pos input.chain.id)
              (pos input.start_block)
              (stored_block input.end_block))
            t)
  unfolding insert_monitor
  insert_monitor-Ends s t (db, id) = elim (Bool-cases (is_allowed (row_at t))) [
    | inr refused ↦ rw refused tt
    | inl allowed ↦ rw allowed (
      ap (new_row alloy input) id,
      ap (λ n. is_allowed (new_row alloy input n)) (sym id) ∙ allowed,
      ap (λ (d : Database). record d { monitors = d.monitors ++ row_at t ∷ [] }) db
          ∙ ap (λ n. record s.db { monitors = s.db.monitors ++ new_row alloy input n ∷ [] }) id,
    )
  ]

  pub create_body-Ends : (s : Session) → Ends (Inserts s) Ignored (body s)
  unfolding create_body
  create_body-Ends s =
      statement-then (Inserts s) _ s s (refl, refl)
        (λ y h. statement-then (Inserts s) _ s y h (λ z k. located z k))
    where
      finished :
          (row : MonitorRow) (t : Session)
          → Inserts s row t
          → Ends (Inserts s) Ignored ((statement >> pure row) t)
      finished row t (is, allowed, db) =
          statement-then (Inserts s) (pure row) t t (refl, refl) (λ y h. (is, allowed, h.0 ∙ db))

      tabled :
          (row : MonitorRow) (t : Session)
          → (row ≡ row_at s) × (is_allowed (row_at s) ≡ true) × (t.db ≡ with_row s)
          → Ends (Inserts s) Ignored (
              (create_result_table alloy row.id row.kind row.param_schema
                  >> (statement >> pure row))
                t)
      tabled row t (is, allowed, db) =
          Ends-bind (λ u y. y.db ≡ with_table row.id t) (Inserts s) Ignored
            (create_result_table alloy row.id row.kind row.param_schema) _ t
            (create_result_table-Ends alloy row.id row.kind row.param_schema t)
            (λ u y h. finished row y (
              is,
              allowed,
              h
                  ∙ ap (λ (d : Database). table_in row.id d) db
                  ∙ ap (λ (r : MonitorRow). table_in r.id (with_row s)) is,
            ))

      located :
          (t : Session)
          → Same s t
          → Ends (Inserts s) Ignored (
              (lift (
                    ok_or
                      (chain_by (pos input.chain.id) t.db.chains)
                      (Error.storage "chain not found"))
                  >>= λ chain.
                      statement
                      >> (insert_monitor (
                            row_of alloy input
                              (pos input.chain.id)
                              (pos input.start_block)
                              (stored_block input.end_block))
                          >>= λ row.
                              create_result_table alloy row.id row.kind row.param_schema
                              >> (statement >> pure row)))
                t)
      located t same =
          Ends-bind (λ c y. Same s y) (Inserts s) Ignored
            (lift
              (ok_or (chain_by (pos input.chain.id) t.db.chains) (Error.storage "chain not found")))
            _ t
            (Ends-lift _ _
              (ok_or (chain_by (pos input.chain.id) t.db.chains) (Error.storage "chain not found"))
              t (λ c h. same) tt)
            (λ c y same. statement-then (Inserts s) _ s y same (λ z same.
              Ends-bind
                (λ row w. (row ≡ row_at s) × (is_allowed (row_at s) ≡ true) × (w.db ≡ with_row s))
                (Inserts s) Ignored
                (insert_monitor (
                  row_of alloy input (pos input.chain.id) (pos input.start_block)
                    (stored_block input.end_block)))
                _ z (insert_monitor-Ends s z same) tabled))
