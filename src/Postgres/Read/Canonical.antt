-- ===== src/Postgres/Read/Canonical.antt =====
-- The parameters of a stored result, read by parseon-postgres/src/dyn_table.rs, and those that the sinks are given by
-- `canonical_params` of parseon-core/src/ports/storage.rs.
use parseon.Common.{
  ◌≡◌, refl, sym, ap, ◌∙◌, String, Bool, true, false, List, [], ◌∷◌, map, zip, length, eqb_iff,
  Result, ok, ensure, ◌>>◌, >>=-eq-ok, ok_inj, arith,
}
use parseon.Common.Eq.{◌==◌, string_eq}
use parseon.Common.Distinct.{contains, AreDistinct}
use parseon.Model.{Address, AbiParam, DecodedValue}
use parseon.Abi.{Alloy}
use parseon.Errors.{Error}
use parseon.Ports.Sink.{Format, ParamValue, Params, canonical_value, name_values, canonical_params}
use parseon.Postgres.Types.{to_i64}
use parseon.Postgres.Columns.{
  StoredParam, PgColumnType, numeric, bool, text, bytea, PgParam, MonitorKind, as_str,
  reserved_columns, free_column, base_column, from_param, name_columns, postgres_params,
}
use parseon.Postgres.Columns.Names.{columns, postgres_params-AreDistinct}
use parseon.Postgres.Bind.{ResultInput, bind_row, stored_index}
use parseon.Postgres.Tables.{ResultRow}
use parseon.Postgres.Read.{get_cell, read_value, read_params, stored_param}

-- A value of the kind that the column is for.
abbrev pub holds : PgColumnType → DecodedValue → Bool
holds numeric (DecodedValue.uint v) = true
holds numeric (DecodedValue.int v) = true
holds bool (DecodedValue.bool v) = true
holds text (DecodedValue.string v) = true
holds bytea (DecodedValue.address v) = true
holds bytea (DecodedValue.bytes v) = true
holds _ _ = false

-- The names of the parameters stay with the columns.
name_columns-names :
    (alloy : Alloy) (reserved used : List String) (params : List StoredParam) (named : List PgParam)
    → name_columns alloy reserved used params ≡ ok named
    → map (λ (p : PgParam). p.name) named ≡ map (λ (p : StoredParam). p.name) params
unfolding name_columns
name_columns-names alloy reserved used [] named h =
    ap (λ ps. map (λ (p : PgParam). p.name) ps) (sym (ok_inj h))
name_columns-names alloy reserved used (p ∷ ps) named h =
    let (kind, typed, after) = >>=-eq-ok (from_param alloy p) _ h in
    let used' = free_column (length used) (base_column reserved p.name) 0 used ∷ used in
    let (rest, more, result) = >>=-eq-ok (name_columns alloy reserved used' ps) _ after in
    ap (λ qs. map (λ (q : PgParam). q.name) qs) (sym (ok_inj result))
    ∙ ap (λ names. p.name ∷ names) (name_columns-names alloy reserved used' ps rest more)

bind_row-cells :
    (named : List PgParam) (input : ResultInput) (row : ResultRow)
    → bind_row named input ≡ ok row
    → row.cells ≡ zip (columns named) input.params
unfolding bind_row
bind_row-cells named input row h =
    let (index, has_index, after) = >>=-eq-ok (stored_index input.log_index) _ h in
    let (block_number, has_block, result) = >>=-eq-ok (to_i64 input.block_number) _ after in
    ap (λ (r : ResultRow). r.cells) (sym (ok_inj result))

map-stored_param :
    (alloy : Alloy) (schema : List AbiParam)
    → map (λ (p : StoredParam). p.name) (map (stored_param alloy) schema)
      ≡ map (λ (p : AbiParam). p.name) schema
map-stored_param alloy [] = refl
map-stored_param alloy (p ∷ ps) = ap (λ names. p.name ∷ names) (map-stored_param alloy ps)

-- As many values as columns, each of the kind of its column.
abbrev pub Hold : List PgParam → List DecodedValue → Type 0
Hold [] [] = Unit
Hold [] (v ∷ vs) = ⊥
Hold (p ∷ ps) [] = ⊥
Hold (p ∷ ps) (v ∷ vs) = (holds p.kind v ≡ true) × Hold ps vs

-- `format!("{address:#x}")` is the hex encoding of the bytes with the prefix 0x.
abbrev pub PrintsHex : Format → Type 0
PrintsHex format = (a : Address) → format.address a ≡ format.hex a

module _ (format : Format) (prints : PrintsHex format) where
  read_value-canonical :
      (kind : PgColumnType) (v : DecodedValue)
      → holds kind v ≡ true
      → read_value format kind v ≡ ok (canonical_value format v)
  read_value-canonical numeric (DecodedValue.uint v) h = refl
  read_value-canonical numeric (DecodedValue.int v) h = refl
  read_value-canonical bool (DecodedValue.bool v) h = refl
  read_value-canonical text (DecodedValue.string v) h = refl
  read_value-canonical bytea (DecodedValue.bytes v) h = refl
  read_value-canonical bytea (DecodedValue.address v) h =
      ap (λ s. ok (ParamValue.string s)) (sym (prints v))
  read_value-canonical kind v h = cc

  -- The names with the values.
  abbrev paired : List PgParam → List DecodedValue → Params
  paired (p ∷ ps) (v ∷ vs) = (p.name, canonical_value format v) ∷ paired ps vs
  paired _ _ = []

  -- A cell of a column that is not read makes no difference.
  read_params-skip :
      (c : String) (v : DecodedValue) (ps : List PgParam) (cells : List (String × DecodedValue))
      → contains c (columns ps) ≡ false
      → read_params format ps ((c, v) ∷ cells) ≡ read_params format ps cells
  unfolding read_params get_cell
  read_params-skip c v [] cells h = refl
  read_params-skip c v (p ∷ ps) cells h =
      let apart : (c == p.column) ≡ false = ground (arith, h) in
      rw apart (rw (read_params-skip c v ps cells (ground (arith, h, apart))) refl)

  read_params-paired :
      (ps : List PgParam) (vs : List DecodedValue)
      → AreDistinct (columns ps)
      → Hold ps vs
      → read_params format ps (zip (columns ps) vs) ≡ ok (paired ps vs)
  unfolding read_params get_cell
  read_params-paired [] [] d h = refl
  read_params-paired [] (v ∷ vs) d h = absurd h
  read_params-paired (p ∷ ps) [] d h = absurd h
  read_params-paired (p ∷ ps) (v ∷ vs) d h = rw ((string_eq.test_iff p.column p.column).1 refl) (
      rw (read_value-canonical p.kind v h.0) (
        rw (read_params-skip p.column v ps (zip (columns ps) vs) d.0)
          (rw (read_params-paired ps vs d.1 h.1) refl)))

  paired-names :
      (ps : List PgParam) (schema : List AbiParam) (vs : List DecodedValue)
      → map (λ (p : PgParam). p.name) ps ≡ map (λ (p : AbiParam). p.name) schema
      → Hold ps vs
      → (length schema ≡ length vs) × (paired ps vs ≡ name_values format (zip schema vs))
  paired-names [] [] [] names hold = (refl, refl)
  paired-names [] (q ∷ qs) vs names hold = absurd (ground (arith, names))
  paired-names (p ∷ ps) [] vs names hold = absurd (ground (arith, names))
  paired-names [] [] (v ∷ vs) names hold = absurd hold
  paired-names (p ∷ ps) (q ∷ qs) [] names hold = absurd hold
  paired-names (p ∷ ps) (q ∷ qs) (v ∷ vs) names hold =
      let name : p.name ≡ q.name = ground (arith, names) in
      let rest = paired-names ps qs vs (ground (arith, names)) hold.1 in
      (omega (arith, rest.0), ground (arith, name, rest.1))

  -- The parameters that are read from a row of a result table are those of `canonical_params`, with which the sinks
  -- were given the result: for values of the kinds of their columns, if addresses are printed as hex.
  pub read_params-canonical :
      (alloy : Alloy) (kind : MonitorKind) (schema : List AbiParam) (named : List PgParam)
      (input : ResultInput) (row : ResultRow)
      → postgres_params alloy (as_str kind) (map (stored_param alloy) schema) ≡ ok named
      → Hold named input.params
      → bind_row named input ≡ ok row
      → read_params format named row.cells ≡ canonical_params format schema input.params
  unfolding postgres_params canonical_params
  read_params-canonical alloy kind schema named input row made hold bound =
      let stored_schema = map (stored_param alloy) schema in
      let (reserved, known, after) = >>=-eq-ok (reserved_columns (as_str kind)) _ made in
      let distinct =
        postgres_params-AreDistinct alloy (as_str kind) reserved stored_schema named known made in
      let names =
        name_columns-names alloy reserved [] stored_schema named after
        ∙ map-stored_param alloy schema in
      let (counted, same) = paired-names named schema input.params names hold in
      ap (read_params format named) (bind_row-cells named input row bound)
      ∙ read_params-paired named input.params distinct.0 hold
      ∙ ap ok same
      ∙ sym (ap (λ test. after_count schema input.params test) ((eqb_iff _ _).1 counted))
    where
      after_count : List AbiParam → List DecodedValue → Bool → Result Error Params
      after_count schema vs test = do
        ensure test Error.param_count_mismatch
        ok (name_values format (zip schema vs))
