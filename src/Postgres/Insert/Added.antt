-- ===== src/Postgres/Insert/Added.antt =====
-- What the insertions of parseon-postgres/src/dyn_table.rs leave in the result tables.
use parseon.Common.{
  ℕ, ◌≡◌, refl, sym, ap, ◌∙◌, inl, inr, String, true, false, Option, none, some, List, [], ◌∷◌,
  ◌++◌, ◌&&◌, not, all, map, zip, any, length, length-map, eqb, if◌then◌else◌, ok, traverse,
  >>=-eq-ok, ok_inj, arith, Bool-cases, Option-cases,
}
use mathlib.Core.List.{append-nil, append_assoc, map-append}
use parseon.Common.Int.{ℤ, pos, eqb_ℤ, eqb_ℤ_iff}
use parseon.Common.Eq.{int_eq}
use parseon.Common.Distinct.{==_sym}
use parseon.Model.{Bytes, DecodedValue}
use parseon.Postgres.Types.{to_i64}
use parseon.Postgres.Columns.{PgParam}
use parseon.Postgres.Bind.{ResultInput, bind_row, stored_index}
use parseon.Postgres.Tables.{ResultRow, Table, same_key, is_checked, add_rows, insert_into, rows_of}

-- What a row says, without the names of its columns.
pub record Stored : Type 0 where
  pub tx_hash : Bytes
  pub log_index : Option ℤ
  pub block_number : ℤ
  pub params : List DecodedValue

abbrev pub stored : ResultRow → Stored
stored row = record {
  tx_hash = row.tx_hash;
  log_index = row.log_index;
  block_number = row.block_number;
  params = map (λ (column, value). value) row.cells;
}

abbrev pub pos_index : Option ℕ → Option ℤ
pos_index none = none
pos_index (some i) = some (pos i)

-- What an input asks for.
abbrev pub to_store : ResultInput → Stored
to_store input = record {
  tx_hash = input.tx_hash;
  log_index = pos_index input.log_index;
  block_number = pos input.block_number;
  params = input.params;
}

pub to_i64-eq : (n : ℕ) (i : ℤ) → to_i64 n ≡ ok i → i ≡ pos n
unfolding to_i64
to_i64-eq n i h = ground (arith, h)

stored_index-eq : (n : Option ℕ) (i : Option ℤ) → stored_index n ≡ ok i → i ≡ pos_index n
stored_index-eq none i h = sym (ok_inj h)
stored_index-eq (some n) i h =
    let (found, fits, result) = >>=-eq-ok (to_i64 n) _ h in
    sym (ok_inj result) ∙ ap some (to_i64-eq n found fits)

map-zip :
    (columns : List String) (params : List DecodedValue)
    → length columns ≡ length params
    → map (λ (column, value). value) (zip columns params) ≡ params
map-zip [] [] h = refl
map-zip [] (v ∷ vs) h = absurd (omega arith)
map-zip (c ∷ cs) [] h = absurd (omega arith)
map-zip (c ∷ cs) (v ∷ vs) h = ap (λ rest. v ∷ rest) (map-zip cs vs (omega arith))

bind_row-stored :
    (params : List PgParam) (input : ResultInput) (row : ResultRow)
    → length params ≡ length input.params
    → bind_row params input ≡ ok row
    → stored row ≡ to_store input
unfolding bind_row
bind_row-stored params input row same h =
    let (index, has_index, after) = >>=-eq-ok (stored_index input.log_index) _ h in
    let (block_number, has_block, result) = >>=-eq-ok (to_i64 input.block_number) _ after in
    rw (sym (ok_inj result)) (
      rw (stored_index-eq input.log_index index has_index) (
        rw (to_i64-eq input.block_number block_number has_block) (
          rw (map-zip (map (λ p. p.column) params) input.params (length-map _ params ∙ same))
            refl)))

pub bind_rows-stored :
    (params : List PgParam) (inputs : List ResultInput) (rows : List ResultRow)
    → all (λ input. eqb (length params) (length input.params)) inputs ≡ true
    → traverse (bind_row params) inputs ≡ ok rows
    → map stored rows ≡ map to_store inputs
bind_rows-stored params [] rows same h = ap (map stored) (sym (ok_inj h))
bind_rows-stored params (i ∷ inputs) rows same h =
    let (row, bound, after) = >>=-eq-ok (bind_row params i) _ h in
    let (rest, more, result) = >>=-eq-ok (traverse (bind_row params) inputs) _ after in
    ap (map stored) (sym (ok_inj result))
    ∙ (ap (λ s. s ∷ map stored rest) (bind_row-stored params i row (ground (arith, same)) bound)
        ∙ ap (λ ss. to_store i ∷ ss)
            (bind_rows-stored params inputs rest (ground (arith, same)) more))

add_rows-append :
    (rows new' : List ResultRow) (after : List ResultRow)
    → add_rows rows new' ≡ some after
    → after ≡ rows ++ new'
unfolding add_rows
add_rows-append rows [] after h = sym (ground (arith, h)) ∙ sym (append-nil rows)
add_rows-append rows (r ∷ rs) after h =
    elim (Bool-cases (is_checked r && not (any (same_key r) rows))) [
      | inr refused ↦ absurd (ground (arith, refused, h))
      | inl free ↦
          add_rows-append (rows ++ r ∷ []) rs after (ground (arith, free, h))
          ∙ append_assoc rows (r ∷ []) rs
    ]

-- What an insertion into a table adds to one of an id.
abbrev pub added_at : ℤ → List Stored → ℤ → List Stored
added_at id new' i = if eqb_ℤ id i then new' else []

pub eqb_ℤ_apart : (a b c : ℤ) → eqb_ℤ a b ≡ false → eqb_ℤ a c ≡ true → eqb_ℤ b c ≡ false
eqb_ℤ_apart a b c apart same = rw (sym ((eqb_ℤ_iff a c).0 same)) (==_sym a b apart)

pub insert_into-adds :
    (id : ℤ) (new' : List ResultRow) (before after : List Table) (i : ℤ)
    → insert_into id new' before ≡ some after
    → map stored (rows_of i after)
      ≡ map stored (rows_of i before) ++ added_at id (map stored new') i
unfolding insert_into rows_of
insert_into-adds id new' [] after i h = absurd (ground (arith, h))
insert_into-adds id new' (t ∷ ts) after i h = elim (Bool-cases (eqb_ℤ t.id id)) [
  | inl here ↦ elim (Option-cases (add_rows t.rows new')) [
    | inl refused ↦ absurd (ground (arith, here, refused, h))
    | inr (rows, added) ↦
        let grown : map stored rows ≡ map stored t.rows ++ map stored new' =
          ap (map stored) (add_rows-append t.rows new' rows added)
          ∙ map-append stored t.rows new' in
        let result : record t { rows = rows } ∷ ts ≡ after = ground (arith, here, added, h) in
        let one : eqb_ℤ t.id i ≡ eqb_ℤ id i = ap (λ x. eqb_ℤ x i) ((eqb_ℤ_iff t.id id).0 here) in
        elim (Bool-cases (eqb_ℤ id i)) [
          | inl at ↦ rw (sym result) (rw (one ∙ at) (rw at grown))
          | inr off ↦
              rw (sym result)
                (rw (one ∙ off) (rw off (sym (append-nil (map stored (rows_of i ts))))))
        ]
  ]
  | inr later ↦ elim (Option-cases (insert_into id new' ts)) [
    | inl refused ↦ absurd (ground (arith, later, refused, h))
    | inr (tables, added) ↦
        let result : t ∷ tables ≡ after = ground (arith, later, added, h) in
        let rest = insert_into-adds id new' ts tables i added in
        elim (Bool-cases (eqb_ℤ t.id i)) [
          | inl at ↦
              rw (sym result)
                (rw at (rw (eqb_ℤ_apart t.id id i later at) (sym (append-nil (map stored t.rows)))))
          | inr off ↦ rw (sym result) (rw off rest)
        ]
  ]
]
