-- ===== src/Postgres/Read/Pages.antt =====
-- The pages of results, of `query_results` in parseon-postgres/src/dyn_table.rs.
use parseon.Common.{
  ℕ, zero, suc, ◌-◌, ◌≤◌, ◌≡◌, refl, sym, ap, ◌∙◌, inl, inr, ◌↔◌, min, List, [], ◌∷◌, take, drop,
  length, Result, ok, ensure, traverse, >>=-eq-ok, ok_inj, arith, Bool-cases,
}
use parseon.Common.Int.{ℤ}
use parseon.Errors.{Error}
use parseon.Abi.{Alloy}
use parseon.Commands.{new_limit, new_limit_bounds}
use parseon.Ports.Sink.{Format}
use parseon.Postgres.Types.{to_i64}
use parseon.Postgres.Columns.{StoredParam, MonitorKind, as_str, postgres_params}
use parseon.Postgres.Tables.{ResultRow, Database, has_table, rows_of}
use parseon.Postgres.Insert.{result_table_name}
use parseon.Postgres.Insert.Whole.{result_table_name-eq}
use parseon.Postgres.Read.{ResultRecord, precedes, place_row, order_rows, read_row, query_table}

length-take : {A : Type 0} (n : ℕ) (xs : List A) → length (take n xs) ≡ min n (length xs)
length-take zero xs = omega arith
length-take (suc n) [] = omega arith
length-take (suc n) (x ∷ xs) = omega (arith, length-take n xs)

length-drop : {A : Type 0} (n : ℕ) (xs : List A) → length (drop n xs) ≡ length xs - n
length-drop zero xs = omega arith
length-drop (suc n) [] = omega arith
length-drop (suc n) (x ∷ xs) = omega (arith, length-drop n xs)

length-traverse :
    {E A B : Type 0} (f : A → Result E B) (xs : List A) (ys : List B)
    → traverse f xs ≡ ok ys
    → length ys ≡ length xs
length-traverse f [] ys h = ap length (sym (ok_inj h))
length-traverse f (x ∷ xs) ys h =
    let (y, first, after) = >>=-eq-ok (f x) _ h in
    let (rest, more, result) = >>=-eq-ok (traverse f xs) _ after in
    ap length (sym (ok_inj result)) ∙ ap suc (length-traverse f xs rest more)

length-place_row :
    (kind : MonitorKind) (row : ResultRow) (rows : List ResultRow)
    → length (place_row kind row rows) ≡ suc (length rows)
unfolding place_row
length-place_row kind row [] = refl
length-place_row kind row (r ∷ rs) = elim (Bool-cases (precedes kind row r)) [
  | inl first ↦ rw first refl
  | inr later ↦ rw later (ap suc (length-place_row kind row rs))
]

length-order_rows :
    (kind : MonitorKind) (rows : List ResultRow) → length (order_rows kind rows) ≡ length rows
unfolding order_rows
length-order_rows kind [] = refl
length-order_rows kind (r ∷ rs) =
    length-place_row kind r (order_rows kind rs) ∙ ap suc (length-order_rows kind rs)

module _ (format : Format) (alloy : Alloy) where
  -- A page of a table is never longer than 200 results, whatever limit the client asks for, and it is empty exactly
  -- where the offset is past the rows of the table.
  pub query_table_bounds :
      (db : Database) (id : ℤ) (kind : MonitorKind) (schema : List StoredParam) (value offset : ℕ)
      (page : List ResultRecord)
      → query_table format alloy db id kind schema
          (record { limit = new_limit value; offset = offset })
        ≡ ok page
      → (length page ≤ 200) × ((length page ≡ 0) ↔ (length (rows_of id db.tables) ≤ offset))
  unfolding query_table
  query_table_bounds db id kind schema value offset page h =
      let (params, named, after) = >>=-eq-ok (postgres_params alloy (as_str kind) schema) _ h in
      let (table, tabled, after1) = >>=-eq-ok (result_table_name id) _ after in
      let (from', fits, after2) = >>=-eq-ok (to_i64 offset) _ after1 in
      let (exists', there, reads) =
        >>=-eq-ok (ensure (has_table table db.tables) (Error.storage "the table does not exist")) _
          after2 in
      let rows = order_rows kind (rows_of table db.tables) in
      let limit = (new_limit value).get in
      let size : length page ≡ min limit (length (rows_of id db.tables) - offset) =
        length-traverse (read_row format params) (take limit (drop offset rows)) page reads
        ∙ length-take limit (drop offset rows)
        ∙ ap (min limit) (
            length-drop offset rows
            ∙ ap (λ n. n - offset)
                (length-order_rows kind (rows_of table db.tables)
                  ∙ ap (λ i. length (rows_of i db.tables))
                      (result_table_name-eq id table tabled))) in
      (
        omega (arith, size, new_limit_bounds value),
        (
          λ e. omega (arith, size, new_limit_bounds value),
          λ past. omega (arith, size, new_limit_bounds value),
        ),
      )
