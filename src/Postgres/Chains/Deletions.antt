-- ===== src/Postgres/Chains/Deletions.antt =====
-- How `delete` of parseon-postgres/src/chain_repo.rs ends.
use parseon.Common.{ℕ, refl, ap, ◌∙◌, none, List, [], ◌∷◌, if◌then◌else◌, Result, ok, err, ok_or}
use parseon.Common.Int.{ℤ, pos, eqb_ℤ}
use parseon.Common.Eq.{int_eq}
use parseon.Common.Stateful.{lift, ◌>>=◌, ◌>>◌, Ends, Ends-bind, Ends-lift}
use parseon.Errors.{Error}
use parseon.Postgres.Tables.{Session, Query, statement, rolled_back, transaction}
use parseon.Postgres.Insert.{result_table_name}
use parseon.Postgres.Chains.Rows.{chain_by-delete}
use parseon.Postgres.Chains.{
  chain_by, not_found, select, select, monitors_of, drop_table, drop_tables, delete_rows,
  delete_body, delete_row,
}
use parseon.Postgres.Chains.Steps.{
  Unchanged, Deleted, since, step-Ends, to_i64-Ends, statement-Ends,
}

drop_tables-Ends :
    (ids : List ℤ) (s : Session) → Ends (λ u t. Unchanged s t) (Unchanged s) (drop_tables ids s)
unfolding drop_tables
drop_tables-Ends [] s = refl
drop_tables-Ends (id ∷ ids) s =
    Ends-bind (λ i t. Unchanged s t) (λ u t. Unchanged s t) (Unchanged s)
      (lift (result_table_name id)) _ s (Ends-lift _ _ (result_table_name id) s (λ i h. refl) refl)
      (λ i t same.
        step-Ends _ _ statement _ s t statement-Ends (λ y h. h)
          (λ y h.
            step-Ends (λ u t. Unchanged s t) (Unchanged s) (drop_table i) (drop_tables ids) s y
              (λ x. refl) (λ z k. k)
              (λ z k.
                since s z (Unchanged s) (drop_tables ids z) k (λ y h. h) (drop_tables-Ends ids z))
              h)
          same)

-- The deletion in its transaction.
delete_body-Ends :
    (id : ℕ) (s : Session) → Ends (λ u t. Deleted id s t) (λ t. Unit {0}) (delete_body (pos id) s)
unfolding delete_body
delete_body-Ends id s =
    step-Ends P R statement _ s s statement-Ends (λ y h. tt)
      (λ t same.
        step-Ends P R statement _ s t statement-Ends (λ y h. tt) (λ t same. found t same) same)
      refl
  where
    P : Unit {0} → Session → Type 0
    P u t = Deleted id s t

    R : Session → Type 0
    R t = Unit {0}

    last :
        (t : Session) (out : Result Error (Unit {0}) × Session)
        → Deleted id s t
        → Ends (λ u y. Unchanged t y) (Unchanged t) out
        → Ends P R out
    last t (ok u, y) gone h = λ i. ap (chain_by i) h ∙ gone i
    last t (err e, y) gone h = tt

    dropped : (t : Session) → Unchanged s t → Ends P R ((delete_rows (pos id) >> statement) t)
    dropped t same =
        let left = (delete_rows (pos id) t).1 in
        last left (statement left)
          (λ i.
            chain_by-delete (pos id) i t.db.chains
            ∙ ap (λ rows. if eqb_ℤ (pos id) i then none else chain_by i rows) same)
          (statement-Ends left)

    row_found :
        (t : Session)
        → Unchanged s t
        → Ends P R (
            (statement
                >> (select (monitors_of (pos id)) >>= λ ids.
                    drop_tables ids >> (statement >> (delete_rows (pos id) >> statement))))
              t)
    row_found t same =
        step-Ends P R statement _ s t statement-Ends (λ y h. tt)
          (λ y h.
            step-Ends P R (drop_tables (monitors_of (pos id) y.db))
              (statement >> (delete_rows (pos id) >> statement)) s y
              (drop_tables-Ends (monitors_of (pos id) y.db)) (λ y h. tt)
              (λ z k.
                step-Ends P R statement (delete_rows (pos id) >> statement) s z statement-Ends
                  (λ y h. tt) dropped k)
              h)
          same

    found :
        (t : Session)
        → Unchanged s t
        → Ends P R (
            (lift (ok_or (chain_by (pos id) t.db.chains) not_found) >>= λ row.
            statement
            >> (select (monitors_of (pos id)) >>= λ ids.
                drop_tables ids >> (statement >> (delete_rows (pos id) >> statement))))
              t)
    found t same =
        Ends-bind (λ row y. Unchanged s y) P R
          (lift (ok_or (chain_by (pos id) t.db.chains) not_found)) _ t
          (Ends-lift _ _ (ok_or (chain_by (pos id) t.db.chains) not_found) t (λ row h. same) tt)
          (λ row y h. row_found y h)

transaction-Ends :
    {A : Type 0} (P : A → Session → Type 0) (body : Query A) (s : Session)
    → Ends P (λ t. Unit {0}) (body s)
    → Ends P (Unchanged s) (transaction body s)
unfolding transaction
transaction-Ends {A} P body s h = after (body s) h
  where
    after :
        (out : Result Error A × Session)
        → Ends P (λ t. Unit {0}) out
        → Ends P (Unchanged s) (rolled_back s.db out)
    after (ok a, t) p = p
    after (err e, t) p = refl

pub delete_row-Ends :
    (id : ℕ) (s : Session) → Ends (λ u t. Deleted id s t) (Unchanged s) (delete_row id s)
unfolding delete_row
delete_row-Ends id s =
    to_i64-Ends id s _ _ (λ i. transaction (delete_body i)) refl
      (transaction-Ends (λ u t. Deleted id s t) (delete_body (pos id)) s (delete_body-Ends id s))
