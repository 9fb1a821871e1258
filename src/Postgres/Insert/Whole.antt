-- ===== src/Postgres/Insert/Whole.antt =====
-- What a call of `insert_calls` or `insert_events` of parseon-postgres/src/dyn_table.rs leaves in the database.
use parseon.Common.{
  ℕ, zero, suc, ◌+◌, ◌/◌, ◌≤◌, ◌≡◌, refl, sym, ap, ◌∙◌, subst, inl, inr, Bool, true, Option, none,
  some, List, [], ◌∷◌, ◌++◌, all, all-append, map, take, drop, length, take-append-drop,
  length-drop_le, leb, leb_iff, eqb, ok, ensure, traverse, ensure-eq-ok, arith, Bool-cases,
  Option-cases,
}
use mathlib.Core.List.{flatten, append-nil, append_assoc, map-append}
use native.Mathlib.Nat.{le-div_iff_mul-le}
use parseon.Common.Int.{ℤ, eqb_ℤ}
use parseon.Common.Stateful.{>>=-ok, lift->>=-ok}
use parseon.Abi.{Alloy}
use parseon.Postgres.Columns.{
  StoredParam, PgParam, MonitorKind, call, event, as_str, postgres_params,
}
use parseon.Postgres.Bind.{
  ResultInput, bind_limit, identifier, chunks_on, chunks, bind_row, identity_width,
}
use parseon.Postgres.Tables.{ResultRow, Database, Session, statement, attempt, insert_into, rows_of}
use parseon.Postgres.Insert.{
  result_table_name, inserted, insert_rows, insert_chunks, insert_checked, insert_results,
}
use parseon.Postgres.Insert.Added.{
  Stored, stored, to_store, added_at, bind_rows-stored, insert_into-adds,
}

-- Rows were added to the result tables, and nothing else was changed.
pub record Adds (new' : ℤ → List Stored) (before after : Database) : Type 0 where
  pub chains : after.chains ≡ before.chains
  pub monitors : after.monitors ≡ before.monitors
  pub rows :
      (i : ℤ) → map stored (rows_of i after.tables) ≡ map stored (rows_of i before.tables) ++ new' i

pub Adds-none : (d : Database) → Adds (λ i. []) d d
Adds-none d = record {
  chains = refl;
  monitors = refl;
  rows = λ i. sym (append-nil (map stored (rows_of i d.tables)));
}

pub Adds-seq :
    (f g : ℤ → List Stored) (a b c : Database)
    → Adds f a b
    → Adds g b c
    → Adds (λ i. f i ++ g i) a c
Adds-seq f g a b c first second = record {
  chains = second.chains ∙ first.chains;
  monitors = second.monitors ∙ first.monitors;
  rows = λ i.
      second.rows i
      ∙ ap (λ rows. rows ++ g i) (first.rows i)
      ∙ append_assoc (map stored (rows_of i a.tables)) (f i) (g i);
}

pub Adds-eq :
    (f g : ℤ → List Stored) (a b : Database) → ((i : ℤ) → f i ≡ g i) → Adds f a b → Adds g a b
Adds-eq f g a b same h = record {
  chains = h.chains;
  monitors = h.monitors;
  rows = λ i. h.rows i ∙ ap (λ new'. map stored (rows_of i a.tables) ++ new') (same i);
}

pub statement-db : (s t : Session) (u : Unit {0}) → statement s ≡ (ok u, t) → t.db ≡ s.db
unfolding statement
statement-db s t u h = after s.statements_left h
  where
    after : (left : Option ℕ) → attempt left s ≡ (ok u, t) → t.db ≡ s.db
    after none e = sym (ap (λ p. (p.1).db) e)
    after (some zero) e = sym (ap (λ p. (p.1).db) e)
    after (some (suc n)) e = sym (ap (λ p. (p.1).db) e)

inserted-Adds :
    (id : ℤ) (rows : List ResultRow) (s t : Session) (u : Unit {0})
    → inserted (insert_into id rows s.db.tables) s ≡ (ok u, t)
    → Adds (added_at id (map stored rows)) s.db t.db
inserted-Adds id rows s t u h = elim (Option-cases (insert_into id rows s.db.tables)) [
  | inl refused ↦ absurd (ground (arith, refused, h))
  | inr (tables, added) ↦
      let db : record s.db { tables = tables } ≡ t.db = ground (arith, added, h) in
      subst (Adds (added_at id (map stored rows)) s.db) db (record {
        chains = refl;
        monitors = refl;
        rows = λ i. insert_into-adds id rows s.db.tables tables i added;
      })
]

insert_rows-Adds :
    (id : ℤ) (rows : List ResultRow) (s t : Session) (u : Unit {0})
    → insert_rows id rows s ≡ (ok u, t)
    → Adds (added_at id (map stored rows)) s.db t.db
unfolding insert_rows
insert_rows-Adds id rows s t u h =
    let (v, s', began, rest) = >>=-ok statement _ s t h in
    subst (λ d. Adds (added_at id (map stored rows)) d t.db) (statement-db s s' v began)
      (inserted-Adds id rows s' t u rest)

added_at-append :
    (id : ℤ) (xs ys : List Stored) (i : ℤ)
    → added_at id xs i ++ added_at id ys i ≡ added_at id (xs ++ ys) i
added_at-append id xs ys i = elim (Bool-cases (eqb_ℤ id i)) [
  | inl at ↦ rw at refl
  | inr off ↦ rw off refl
]

-- Each input has a value for every column.
abbrev fits : List PgParam → ResultInput → Bool
fits params input = eqb (length params) (length input.params)

-- The rows of a chunk, then those of the chunks after it.
together :
    (id : ℤ) (c : List ResultInput) (cs : List (List ResultInput)) (rows : List ResultRow) (i : ℤ)
    → map stored rows ≡ map to_store c
    → added_at id (map stored rows) i ++ added_at id (map to_store (flatten cs)) i
      ≡ added_at id (map to_store (c ++ flatten cs)) i
together id c cs rows i same =
    ap (λ xs. added_at id xs i ++ added_at id (map to_store (flatten cs)) i) same
    ∙ added_at-append id (map to_store c) (map to_store (flatten cs)) i
    ∙ ap (λ xs. added_at id xs i) (sym (map-append to_store c (flatten cs)))

insert_chunks-Adds :
    (id : ℤ) (params : List PgParam) (cs : List (List ResultInput)) (s t : Session) (u : Unit {0})
    → all (fits params) (flatten cs) ≡ true
    → insert_chunks id params cs s ≡ (ok u, t)
    → Adds (added_at id (map to_store (flatten cs))) s.db t.db
unfolding insert_chunks flatten
insert_chunks-Adds id params [] s t u fit h =
    subst (λ (d : Session). Adds (added_at id []) s.db d.db) (ap (λ p. p.1) h)
      (Adds-eq (λ i. []) (added_at id []) s.db s.db none-added (Adds-none s.db))
  where
    none-added : (i : ℤ) → [] ≡ added_at id [] i
    none-added i = elim (Bool-cases (eqb_ℤ id i)) [ inl at ↦ rw at refl | inr off ↦ rw off refl ]
insert_chunks-Adds id params (c ∷ cs) s t u fit h =
    let (front, back) = all-append (fits params) c (flatten cs) fit in
    let (columns, named, after_names) =
      lift->>=-ok (traverse identifier (map (λ p. p.column) params)) _ s t h in
    let (rows, bound, after_rows) = lift->>=-ok (traverse (bind_row params) c) _ s t after_names in
    let (v, s', done, more) = >>=-ok (insert_rows id rows) _ s t after_rows in
    Adds-eq _ _ s.db t.db
      (λ i. together id c cs rows i (bind_rows-stored params c rows front bound))
      (Adds-seq (added_at id (map stored rows)) (added_at id (map to_store (flatten cs))) s.db s'.db
        t.db (insert_rows-Adds id rows s s' v done)
        (insert_chunks-Adds id params cs s' t u back more))

flatten-chunks_on :
    (rounds size : ℕ) (inputs : List ResultInput)
    → length inputs ≤ rounds
    → flatten (chunks_on rounds (suc size) inputs) ≡ inputs
unfolding chunks_on flatten
flatten-chunks_on zero size [] h = refl
flatten-chunks_on zero size (i ∷ inputs) h = absurd (omega arith)
flatten-chunks_on (suc rounds) size [] h = refl
flatten-chunks_on (suc rounds) size (i ∷ inputs) h =
    ap (λ rest. i ∷ take size inputs ++ rest)
      (flatten-chunks_on rounds size (drop size inputs) (omega (arith, length-drop_le size inputs)))
    ∙ ap (λ rest. i ∷ rest) (take-append-drop size inputs)

-- The chunks are the inputs in their order, if there is room for a row in a statement.
flatten-chunks :
    (size : ℕ) (inputs : List ResultInput) → 1 ≤ size → flatten (chunks size inputs) ≡ inputs
unfolding chunks
flatten-chunks zero inputs h = absurd (omega arith)
flatten-chunks (suc size) inputs h = flatten-chunks_on (length inputs) size inputs (omega arith)

has_room : (width : ℕ) → 1 ≤ width → width ≤ bind_limit → 1 ≤ bind_limit / width
has_room width some' fit =
    (le-div_iff_mul-le {k = width} {x = 1} {y = bind_limit} some').1 (omega arith)

width-pos : (kind : MonitorKind) (n : ℕ) → 1 ≤ n + identity_width kind
width-pos call n = omega arith
width-pos event n = omega arith

pub result_table_name-eq : (id table : ℤ) → result_table_name id ≡ ok table → table ≡ id
unfolding result_table_name
result_table_name-eq id table h = ground (arith, h)

insert_checked-Adds :
    (kind : MonitorKind) (id : ℤ) (params : List PgParam) (inputs : List ResultInput)
    (s t : Session) (u : Unit {0})
    → insert_checked kind id params inputs s ≡ (ok u, t)
    → Adds (added_at id (map to_store inputs)) s.db t.db
unfolding insert_checked
insert_checked-Adds kind id params inputs s t u h =
    let width = length params + identity_width kind in
    let (v, fit, after) = lift->>=-ok (ensure (all (fits params) inputs) _) _ s t h in
    let (w, narrow, after') = lift->>=-ok (ensure (leb width bind_limit) _) _ s t after in
    let (table, tabled, inserts) = lift->>=-ok (result_table_name id) _ s t after' in
    let whole = flatten-chunks (bind_limit / width) inputs (
      has_room width (width-pos kind (length params))
        ((leb_iff _ _).0 (ensure-eq-ok _ _ w narrow))) in
    let done =
      insert_chunks-Adds table params (chunks (bind_limit / width) inputs) s t u
        (ap (all (fits params)) whole ∙ ensure-eq-ok _ _ v fit) inserts in
    subst (λ i. Adds (added_at i (map to_store inputs)) s.db t.db)
      (result_table_name-eq id table tabled)
      (subst (λ xs. Adds (added_at table (map to_store xs)) s.db t.db) whole done)

-- An insertion that succeeds adds the inputs to the table of the id, in their order.
pub insert_results-Adds :
    (alloy : Alloy) (kind : MonitorKind) (id : ℤ) (schema : List StoredParam)
    (inputs : List ResultInput) (s t : Session) (u : Unit {0})
    → insert_results alloy kind id schema inputs s ≡ (ok u, t)
    → Adds (added_at id (map to_store inputs)) s.db t.db
unfolding insert_results
insert_results-Adds alloy kind id schema inputs s t u h =
    let (params, named, after) = lift->>=-ok (postgres_params alloy (as_str kind) schema) _ s t h in
    insert_checked-Adds kind id params inputs s t u after
