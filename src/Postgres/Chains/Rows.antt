-- ===== src/Postgres/Chains/Rows.antt =====
-- The row of a chain in the table of chain_repo.rs, after each statement that changes the table.
use parseon.Common.{
  ◌≡◌, refl, sym, ap, ◌∙◌, inl, inr, String, Bool, false, not, Option, none, some, List, [], ◌∷◌,
  ◌++◌, any, keep, map, if◌then◌else◌, arith, Bool-cases,
}
use mathlib.Core.Option
use parseon.Common.Int.{ℤ, eqb_ℤ, eqb_ℤ_iff}
use parseon.Common.Eq.{int_eq}
use parseon.Common.Distinct.{==_sym}
use parseon.Postgres.Tables.{ChainRow}
use parseon.Postgres.Insert.Added.{eqb_ℤ_apart}
use parseon.Postgres.Chains.{chain_by, coalesced, update_at}

pub chain_by-append :
    (i : ℤ) (row : ChainRow) (rows : List ChainRow)
    → any (λ r. eqb_ℤ r.chain_id row.chain_id) rows ≡ false
    → chain_by i (rows ++ row ∷ []) ≡ (if eqb_ℤ row.chain_id i then some row else chain_by i rows)
unfolding chain_by
chain_by-append i row [] new' = refl
chain_by-append i row (r ∷ rs) new' = elim (Bool-cases (eqb_ℤ r.chain_id i)) [
  | inr later ↦ rw later (chain_by-append i row rs (ground (arith, new')))
  | inl here ↦
      let apart : eqb_ℤ r.chain_id row.chain_id ≡ false = ground (arith, new') in
      let other : eqb_ℤ row.chain_id i ≡ false =
        ap (eqb_ℤ row.chain_id) (sym ((eqb_ℤ_iff r.chain_id i).0 here))
        ∙ ==_sym r.chain_id row.chain_id apart in
      rw here (rw other refl)
]

pub chain_by-new :
    (id : ℤ) (rows : List ChainRow)
    → any (λ r. eqb_ℤ r.chain_id id) rows ≡ false
    → chain_by id rows ≡ none
unfolding chain_by
chain_by-new id [] h = refl
chain_by-new id (r ∷ rs) h = ground (arith, h, chain_by-new id rs)

pub chain_by-update :
    (id i : ℤ) (url : Option String) (on : Option Bool) (rows : List ChainRow)
    → chain_by i (map (update_at id url on) rows)
      ≡ (if eqb_ℤ id i then Option.map (coalesced url on) (chain_by i rows) else chain_by i rows)
unfolding chain_by
chain_by-update id i url on [] = elim (Bool-cases (eqb_ℤ id i)) [
  | inl a ↦ rw a refl
  | inr b ↦ rw b refl
]
chain_by-update id i url on (r ∷ rs) = elim (Bool-cases (eqb_ℤ r.chain_id id)) [
  | inl own ↦
      let same : eqb_ℤ r.chain_id i ≡ eqb_ℤ id i =
        ap (λ x. eqb_ℤ x i) ((eqb_ℤ_iff r.chain_id id).0 own) in
      elim (Bool-cases (eqb_ℤ id i)) [
        | inl here ↦ rw own (rw (same ∙ here) (rw here refl))
        | inr there ↦ rw own (
            rw (same ∙ there)
              (rw there (chain_by-update id i url on rs ∙ ap (λ b. at_or b (chain_by i rs)) there)))
      ]
  | inr other ↦ elim (Bool-cases (eqb_ℤ r.chain_id i)) [
    | inl here ↦ rw other (rw here (rw (eqb_ℤ_apart r.chain_id id i other here) refl))
    | inr there ↦ rw other (rw there (chain_by-update id i url on rs))
  ]
]
  where
    at_or : Bool → Option ChainRow → Option ChainRow
    at_or b found = if b then Option.map (coalesced url on) found else found

pub chain_by-delete :
    (id i : ℤ) (rows : List ChainRow)
    → chain_by i (keep (λ r. not (eqb_ℤ r.chain_id id)) rows)
      ≡ (if eqb_ℤ id i then none else chain_by i rows)
unfolding chain_by
chain_by-delete id i [] = elim (Bool-cases (eqb_ℤ id i)) [ inl a ↦ rw a refl | inr b ↦ rw b refl ]
chain_by-delete id i (r ∷ rs) = elim (Bool-cases (eqb_ℤ r.chain_id id)) [
  | inl own ↦
      let same : eqb_ℤ r.chain_id i ≡ eqb_ℤ id i =
        ap (λ x. eqb_ℤ x i) ((eqb_ℤ_iff r.chain_id id).0 own) in
      elim (Bool-cases (eqb_ℤ id i)) [
        | inl here ↦
            rw own (rw here (chain_by-delete id i rs ∙ ap (λ b. none_or b (chain_by i rs)) here))
        | inr there ↦ rw own (
            rw (same ∙ there)
              (rw there (chain_by-delete id i rs ∙ ap (λ b. none_or b (chain_by i rs)) there)))
      ]
  | inr other ↦ elim (Bool-cases (eqb_ℤ r.chain_id i)) [
    | inl here ↦ rw other (rw here (rw (eqb_ℤ_apart r.chain_id id i other here) refl))
    | inr there ↦ rw other (rw there (chain_by-delete id i rs))
  ]
]
  where
    none_or : Bool → Option ChainRow → Option ChainRow
    none_or b found = if b then none else found

pub chain_by-id :
    (id : ℤ) (rows : List ChainRow) (row : ChainRow)
    → chain_by id rows ≡ some row
    → row.chain_id ≡ id
unfolding chain_by
chain_by-id id [] row h = absurd (ground (arith, h))
chain_by-id id (r ∷ rs) row h = elim (Bool-cases (eqb_ℤ r.chain_id id)) [
  | inl here ↦
      let is : r ≡ row = ground (arith, here, h) in
      ap (λ (x : ChainRow). x.chain_id) (sym is) ∙ (eqb_ℤ_iff r.chain_id id).0 here
  | inr there ↦ chain_by-id id rs row (ground (arith, there, h))
]
