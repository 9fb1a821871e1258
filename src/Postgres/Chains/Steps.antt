-- ===== src/Postgres/Chains/Steps.antt =====
-- How each function of parseon-postgres/src/chain_repo.rs ends, by the rows that the table has.
use parseon.Common.{
  ℕ, zero, suc, ◌≡◌, refl, sym, ap, ◌∙◌, subst, inl, inr, String, Bool, Option, none, some, any,
  if◌then◌else◌, Result, ok, err, ok_or, ok_or-eq-ok, Bool-cases,
}
use parseon.Common.Int.{ℤ, pos, eqb_ℤ}
use parseon.Common.Eq.{int_eq}
use parseon.Common.Stateful.{lift, ◌>>=◌, ◌>>◌, Ends, Ends-bind, Ends-lift}
use parseon.Model.{Chain}
use parseon.Errors.{Error}
use parseon.Postgres.Types.{to_i64}
use parseon.Postgres.Tables.{ChainRow, Session, Query, statement, attempt}
use parseon.Postgres.Insert.Added.{to_i64-eq}
use parseon.Postgres.Chains.Rows.{chain_by-append, chain_by-new}
use parseon.Postgres.Chains.{chain_by, not_found, insert_row, create_row, get_row, coalesced}

-- A statement changes no table, whether the server fails or not.
pub statement-Ends :
    (s : Session)
    → Ends (λ u t. t.db.chains ≡ s.db.chains) (λ t. t.db.chains ≡ s.db.chains) (statement s)
unfolding statement
statement-Ends s = after s.statements_left
  where
    after :
        (left : Option ℕ)
        → Ends (λ u t. t.db.chains ≡ s.db.chains) (λ t. t.db.chains ≡ s.db.chains) (attempt left s)
    after none = refl
    after (some zero) = refl
    after (some (suc n)) = refl

abbrev pub Unchanged : Session → Session → Type 0
Unchanged s t = t.db.chains ≡ s.db.chains

-- What the INSERT leaves.
abbrev pub Inserted : ℕ → String → Bool → Session → ChainRow → Session → Type 0
Inserted id url on s row t =
    (row ≡ record { chain_id = pos id; rpc_url = url; enabled = on })
    × (chain_by (pos id) s.db.chains ≡ none)
    × ((i : ℤ)
        → chain_by i t.db.chains ≡ (if eqb_ℤ (pos id) i then some row else chain_by i s.db.chains))

pub insert_row-Ends :
    (id : ℕ) (url : String) (on : Bool) (s t : Session)
    → Unchanged s t
    → Ends
        (Inserted id url on s)
        (Unchanged s)
        (insert_row (record { chain_id = pos id; rpc_url = url; enabled = on }) t)
insert_row-Ends id url on s t same =
    elim (Bool-cases (any (λ r. eqb_ℤ r.chain_id (pos id)) t.db.chains)) [
      | inl taken ↦ rw taken same
      | inr free ↦
          let row : ChainRow = record { chain_id = pos id; rpc_url = url; enabled = on } in
          rw free (
            refl,
            ap (chain_by (pos id)) (sym same) ∙ chain_by-new (pos id) t.db.chains free,
            λ i.
                chain_by-append i row t.db.chains free
                ∙ ap (λ rows. if eqb_ℤ (pos id) i then some row else chain_by i rows) same,
          )
    ]

-- What a step that keeps the chains leaves, seen from an earlier state.
pub since :
    {A : Type 0} (s t : Session) (R : Session → Type 0) (out : Result Error A × Session)
    → Unchanged s t
    → ((y : Session) → Unchanged s y → R y)
    → Ends (λ u y. Unchanged t y) (Unchanged t) out
    → Ends (λ u y. Unchanged s y) R out
since s t R (ok u, y) same fails h = h ∙ same
since s t R (err e, y) same fails h = fails y (h ∙ same)

-- A step that keeps the chains, then the rest.
pub step-Ends :
    {B : Type 0} (P : B → Session → Type 0) (R : Session → Type 0) (step : Query (Unit {0}))
    (rest : Query B) (s t : Session)
    → ((x : Session) → Ends (λ u y. Unchanged x y) (Unchanged x) (step x))
    → ((y : Session) → Unchanged s y → R y)
    → ((y : Session) → Unchanged s y → Ends P R (rest y))
    → Unchanged s t
    → Ends P R ((step >> rest) t)
step-Ends P R step rest s t keeps fails next same =
    Ends-bind (λ u y. Unchanged s y) P R step (λ u. rest) t
      (since s t R (step t) same fails (keeps t)) (λ u y h. next y h)

-- The conversion of the id, then the rest.
pub to_i64-Ends :
    {A : Type 0} (id : ℕ) (s : Session) (P : A → Session → Type 0) (R : Session → Type 0)
    (rest : ℤ → Query A)
    → R s
    → Ends P R (rest (pos id) s)
    → Ends P R ((lift (to_i64 id) >>= rest) s)
to_i64-Ends id s P R rest fails next =
    Ends-bind (λ i t. (i ≡ pos id) × (t ≡ s)) P R (lift (to_i64 id)) rest s
      (Ends-lift _ _ (to_i64 id) s (λ i h. (to_i64-eq id i h, refl)) fails)
      (λ i t h.
        subst (λ x. Ends P R (rest i x)) (sym h.1)
          (subst (λ n. Ends P R (rest n s)) (sym h.0) next))

-- The conversion of the id, then a statement, then the rest of a query.
pub number-Ends :
    {A : Type 0} (id : ℕ) (s : Session) (P : A → Session → Type 0) (R : Session → Type 0)
    (rest : ℤ → Query A)
    → ((t : Session) → Unchanged s t → R t)
    → ((t : Session) → Unchanged s t → Ends P R (rest (pos id) t))
    → Ends P R ((lift (to_i64 id) >>= λ i. statement >> rest i) s)
number-Ends id s P R rest fails next =
    to_i64-Ends id s P R (λ i. statement >> rest i) (fails s refl)
      (step-Ends P R statement (rest (pos id)) s s statement-Ends fails next refl)

pub create_row-Ends :
    (chain : Chain) (url : String) (on : Bool) (s : Session)
    → Ends (Inserted chain.id url on s) (Unchanged s) (create_row chain url on s)
unfolding create_row
create_row-Ends chain url on s =
    number-Ends chain.id s _ _ _ (λ t h. h) (λ t same. insert_row-Ends chain.id url on s t same)

pub get_row-Ends :
    (id : ℕ) (s : Session)
    → Ends
        (λ row t. (chain_by (pos id) s.db.chains ≡ some row) × Unchanged s t)
        (Unchanged s)
        (get_row id s)
unfolding get_row
get_row-Ends id s =
    number-Ends id s _ _ _ (λ t h. h)
      (λ t same.
        Ends-lift _ _ (ok_or (chain_by (pos id) t.db.chains) not_found) t
          (λ row h. (ap (chain_by (pos id)) (sym same) ∙ ok_or-eq-ok _ not_found h, same)) same)

-- Each id has the row that it had.
abbrev pub Kept : Session → Session → Type 0
Kept s t = (i : ℤ) → chain_by i t.db.chains ≡ chain_by i s.db.chains

abbrev pub Updated : ℕ → Option String → Option Bool → Session → ChainRow → Session → Type 0
Updated id url on s row t =
    (old : ChainRow) × (chain_by (pos id) s.db.chains ≡ some old)
    × (row ≡ coalesced url on old)
    × ((i : ℤ)
        → chain_by i t.db.chains ≡ (if eqb_ℤ (pos id) i then some row else chain_by i s.db.chains))

abbrev pub Deleted : ℕ → Session → Session → Type 0
Deleted id s t =
    (i : ℤ) → chain_by i t.db.chains ≡ (if eqb_ℤ (pos id) i then none else chain_by i s.db.chains)
