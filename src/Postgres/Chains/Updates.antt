-- ===== src/Postgres/Chains/Updates.antt =====
-- How `update` of parseon-postgres/src/chain_repo.rs ends.
use parseon.Common.{
  ℕ, ◌≡◌, refl, sym, ap, ◌∙◌, subst, inl, inr, String, Bool, true, Option, none, some, List, map,
  if◌then◌else◌, ok_or, Bool-cases,
}
use mathlib.Core.Option
use parseon.Common.Int.{ℤ, pos, eqb_ℤ, eqb_ℤ_iff}
use parseon.Common.Eq.{int_eq}
use parseon.Common.Stateful.{lift, ◌>>=◌, Ends}
use parseon.Postgres.Tables.{ChainRow, Session}
use parseon.Postgres.Chains.Rows.{chain_by-update}
use parseon.Postgres.Chains.{
  chain_by, not_found, with_chains, coalesced, update_at, update_rows, update_row,
}
use parseon.Postgres.Chains.Steps.{Unchanged, Kept, Updated, number-Ends}

pub update_rows-Ends :
    (id : ℕ) (url : Option String) (on : Option Bool) (s t : Session)
    → Unchanged s t
    → Ends
        (Updated id url on s)
        (Kept s)
        ((update_rows (pos id) url on >>= λ updated. lift (ok_or updated not_found)) t)
update_rows-Ends id url on s t same =
    subst (λ found. Ends (Updated id url on s) (Kept s) (lift (ok_or found not_found) left))
      (sym own) (finish (chain_by (pos id) s.db.chains) refl)
  where
    rows : List ChainRow
    rows = map (update_at (pos id) url on) t.db.chains

    left : Session
    left = with_chains rows t

    itself : eqb_ℤ (pos id) (pos id) ≡ true
    itself = (eqb_ℤ_iff (pos id) (pos id)).1 refl

    after : Bool → Option ChainRow → Option ChainRow
    after here found = if here then Option.map (coalesced url on) found else found

    updated : (i : ℤ) → chain_by i rows ≡ after (eqb_ℤ (pos id) i) (chain_by i s.db.chains)
    updated i =
        chain_by-update (pos id) i url on t.db.chains
        ∙ ap (λ chains. after (eqb_ℤ (pos id) i) (chain_by i chains)) same

    own : chain_by (pos id) rows ≡ Option.map (coalesced url on) (chain_by (pos id) s.db.chains)
    own = updated (pos id) ∙ ap (λ here. after here (chain_by (pos id) s.db.chains)) itself

    at_id :
        (found : Option ChainRow) (i : ℤ)
        → chain_by (pos id) s.db.chains ≡ found
        → chain_by i rows ≡ (
            if eqb_ℤ (pos id) i
            then Option.map (coalesced url on) found
            else chain_by i s.db.chains)
    at_id found i h = elim (Bool-cases (eqb_ℤ (pos id) i)) [
      | inl here ↦
          let is = (eqb_ℤ_iff (pos id) i).0 here in
          rw here (ap (λ j. chain_by j rows) (sym is) ∙ own ∙ ap (Option.map (coalesced url on)) h)
      | inr other ↦ rw other (updated i ∙ ap (λ here. after here (chain_by i s.db.chains)) other)
    ]

    finish :
        (found : Option ChainRow)
        → chain_by (pos id) s.db.chains ≡ found
        → Ends
            (Updated id url on s)
            (Kept s)
            (lift (ok_or (Option.map (coalesced url on) found) not_found) left)
    finish none absent = λ i. elim (Bool-cases (eqb_ℤ (pos id) i)) [
      | inl here ↦
          let is = (eqb_ℤ_iff (pos id) i).0 here in
          ap (λ j. chain_by j rows) (sym is)
          ∙ own
          ∙ ap (Option.map (coalesced url on)) absent
          ∙ sym absent
          ∙ ap (λ j. chain_by j s.db.chains) is
      | inr other ↦ updated i ∙ ap (λ here. after here (chain_by i s.db.chains)) other
    ]
    finish (some old) found = (old, found, refl, λ i. at_id (some old) i found)

pub update_row-Ends :
    (id : ℕ) (url : Option String) (on : Option Bool) (s : Session)
    → Ends (Updated id url on s) (Kept s) (update_row id url on s)
unfolding update_row
update_row-Ends id url on s =
    number-Ends id s _ _ _ (λ t h i. ap (chain_by i) h)
      (λ t same. update_rows-Ends id url on s t same)
