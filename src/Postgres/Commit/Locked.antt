-- ===== src/Postgres/Commit/Locked.antt =====
-- The rows that the UPDATE of `commit_block` in parseon-postgres/src/storage.rs locks, as many as the ids asked for.
use parseon.Common.{
  ℕ, ◌≡◌, refl, sym, ap, ◌∙◌, inl, inr, Bool, true, false, ◌||◌, Option, none, some, List, [], ◌∷◌,
  any, keep, map, length, length-map, eqb, if◌then◌else◌, ok, traverse, >>=-eq-ok, ok_inj, arith,
  Bool-cases,
}
use parseon.Common.Int.{ℤ, pos, ltb_ℤ, eqb_ℤ, eqb_ℤ_iff}
use parseon.Common.Eq.{◌==◌, int_eq}
use mathlib.Core.Option
use parseon.Common.Distinct.{contains, ==_sym, AreDistinct, Within, Within-all}
use parseon.Monitor.{Monitor}
use parseon.Postgres.Types.{to_i64, to_monitor_id}
use parseon.Postgres.Group.{insert_id, sort_dedup}
use parseon.Postgres.Tables.{MonitorRow}
use parseon.Postgres.Commit.{is_locked, advanced, advance_locked}

-- The row of an id.
abbrev pub row_by : ℤ → List MonitorRow → Option MonitorRow
row_by i [] = none
row_by i (r ∷ rs) = if eqb_ℤ r.id i then some r else row_by i rs

abbrev pub row_ids : List MonitorRow → List ℤ
row_ids rows = map (λ (r : MonitorRow). r.id) rows

equal_of_not_less : (a b : ℤ) → ltb_ℤ a b ≡ false → ltb_ℤ b a ≡ false → a ≡ b
equal_of_not_less a b h k = ground (arith, h, k)

contains-insert_id :
    (i x : ℤ) (ys : List ℤ) → contains i (insert_id x ys) ≡ ((i == x) || contains i ys)
unfolding insert_id
contains-insert_id i x [] = refl
contains-insert_id i x (y ∷ ys) = elim (Bool-cases (ltb_ℤ x y)) [
  | inl less ↦ rw less refl
  | inr not_less ↦ elim (Bool-cases (ltb_ℤ y x)) [
    | inl more ↦ rw not_less (
        rw more (
          ap (λ b. (i == y) || b) (contains-insert_id i x ys)
          ∙ swap_or (i == y) (i == x) (contains i ys)))
    | inr not_more ↦
        let e = equal_of_not_less x y not_less not_more in
        rw not_less (rw not_more (rw e (twice_or (i == y) (contains i ys))))
  ]
]
  where
    swap_or : (a b c : Bool) → (a || (b || c)) ≡ (b || (a || c))
    swap_or a b c = ground arith

    twice_or : (a b : Bool) → (a || b) ≡ (a || (a || b))
    twice_or a b = ground arith

pub contains-sort_dedup : (i : ℤ) (xs : List ℤ) → contains i (sort_dedup xs) ≡ contains i xs
unfolding sort_dedup
contains-sort_dedup i [] = refl
contains-sort_dedup i (x ∷ xs) =
    contains-insert_id i x (sort_dedup xs) ∙ ap (λ b. (i == x) || b) (contains-sort_dedup i xs)

-- The ids that are asked for.
abbrev pub names_monitor : ℕ → List Monitor → Bool
names_monitor j monitors = any (λ m. eqb j m.id) monitors

pub contains-ids :
    (j : ℕ) (monitors : List Monitor) (ids : List ℤ)
    → traverse (λ m. to_monitor_id m.id) monitors ≡ ok ids
    → contains (pos j) ids ≡ names_monitor j monitors
unfolding to_monitor_id to_i64
contains-ids j [] ids h = ap (contains (pos j)) (sym (ok_inj h))
contains-ids j (m ∷ ms) ids h =
    let (id, fits, after) = >>=-eq-ok (to_monitor_id m.id) _ h in
    let (rest, more, result) = >>=-eq-ok (traverse (λ m. to_monitor_id m.id) ms) _ after in
    let is : pos m.id ≡ id = ground (arith, fits) in
    ap (contains (pos j)) (sym (ok_inj result))
    ∙ ap (λ x. (pos j == x) || contains (pos j) rest) (sym is)
    ∙ ap (λ b. eqb j m.id || b) (contains-ids j ms rest more)

module _ (ids : List ℤ) (chain_id : ℤ) where
  abbrev locked : List MonitorRow → List MonitorRow
  locked rows = keep (is_locked ids chain_id) rows

  locked-Within : (rows : List MonitorRow) → Within (row_ids (locked rows)) ids
  locked-Within [] = tt
  locked-Within (r ∷ rs) = elim (Bool-cases (is_locked ids chain_id r)) [
    | inl in' ↦ rw in' (ground (arith, in'), locked-Within rs)
    | inr out ↦ rw out (locked-Within rs)
  ]

  locked-new :
      (i : ℤ) (rows : List MonitorRow)
      → contains i (row_ids rows) ≡ false
      → contains i (row_ids (locked rows)) ≡ false
  locked-new i [] h = refl
  locked-new i (r ∷ rs) h = elim (Bool-cases (is_locked ids chain_id r)) [
    | inl in' ↦ rw in' (ground (arith, h, locked-new i rs))
    | inr out ↦ rw out (ground (arith, h, locked-new i rs))
  ]

  locked-AreDistinct :
      (rows : List MonitorRow) → AreDistinct (row_ids rows) → AreDistinct (row_ids (locked rows))
  locked-AreDistinct [] d = tt
  locked-AreDistinct (r ∷ rs) d = elim (Bool-cases (is_locked ids chain_id r)) [
    | inl in' ↦ rw in' (locked-new r.id rs d.0, locked-AreDistinct rs d.1)
    | inr out ↦ rw out (locked-AreDistinct rs d.1)
  ]

  -- The row of an id whose locked rows have the id is locked.
  found-locked :
      (i : ℤ) (rows : List MonitorRow)
      → AreDistinct (row_ids rows)
      → contains i (row_ids (locked rows)) ≡ true
      → (row : MonitorRow) × (row_by i rows ≡ some row) × (is_locked ids chain_id row ≡ true)
  found-locked i [] d h = absurd (ground (arith, h))
  found-locked i (r ∷ rs) d h = elim (Bool-cases (eqb_ℤ r.id i)) [
    | inl here ↦
        let same = (eqb_ℤ_iff r.id i).0 here in
        (
          r,
          rw here refl,
          elim (Bool-cases (is_locked ids chain_id r)) [
            | inl in' ↦ in'
            | inr out ↦
                let absent =
                  ap (λ x. contains x (row_ids (locked rs))) (sym same) ∙ locked-new r.id rs d.0 in
                absurd (ground (arith, out, h, absent))
          ],
        )
    | inr there ↦
        let other : (i == r.id) ≡ false = ==_sym r.id i there in
        let later : contains i (row_ids (locked rs)) ≡ true =
          elim (Bool-cases (is_locked ids chain_id r)) [
            | inl in' ↦ ground (arith, in', h, other)
            | inr out ↦ ground (arith, out, h)
          ] in
        let (row, found, in') = found-locked i rs d.1 later in (row, rw there found, in')
  ]

  advance_locked-id : (b : ℤ) (r : MonitorRow) → (advance_locked ids chain_id b r).id ≡ r.id
  advance_locked-id b r = elim (Bool-cases (is_locked ids chain_id r)) [
    | inl in' ↦ rw in' refl
    | inr out ↦ rw out refl
  ]

  pub row_ids-advanced :
      (b : ℤ) (rows : List MonitorRow)
      → row_ids (map (advance_locked ids chain_id b) rows) ≡ row_ids rows
  row_ids-advanced b [] = refl
  row_ids-advanced b (r ∷ rs) =
      ap (λ i. i ∷ row_ids (map (advance_locked ids chain_id b) rs)) (advance_locked-id b r)
      ∙ ap (λ is. r.id ∷ is) (row_ids-advanced b rs)

  pub row_by-advanced :
      (b i : ℤ) (rows : List MonitorRow)
      → row_by i (map (advance_locked ids chain_id b) rows)
        ≡ Option.map (advance_locked ids chain_id b) (row_by i rows)
  row_by-advanced b i [] = refl
  row_by-advanced b i (r ∷ rs) =
      let same = ap (λ x. eqb_ℤ x i) (advance_locked-id b r) in
      elim (Bool-cases (eqb_ℤ r.id i)) [
        | inl here ↦ rw (same ∙ here) (rw here refl)
        | inr there ↦ rw (same ∙ there) (rw there (row_by-advanced b i rs))
      ]

  -- A row whose id is not asked for stays as it is.
  pub row_by-other :
      (b i : ℤ) (rows : List MonitorRow)
      → contains i ids ≡ false
      → row_by i (map (advance_locked ids chain_id b) rows) ≡ row_by i rows
  row_by-other b i [] out = refl
  row_by-other b i (r ∷ rs) out =
      let same = ap (λ x. eqb_ℤ x i) (advance_locked-id b r) in
      elim (Bool-cases (eqb_ℤ r.id i)) [
        | inl here ↦
            let unasked = ap (λ x. contains x ids) ((eqb_ℤ_iff r.id i).0 here) ∙ out in
            let free : is_locked ids chain_id r ≡ false = ground (arith, unasked) in
            rw (same ∙ here) (rw here (rw free refl))
        | inr there ↦ rw (same ∙ there) (rw there (row_by-other b i rs out))
      ]

  -- If as many rows were locked as ids were asked for, the row of each id was.
  pub asked-locked :
      (b i : ℤ) (rows : List MonitorRow)
      → AreDistinct (row_ids rows)
      → length (map (advanced b) (locked rows)) ≡ length ids
      → contains i ids ≡ true
      → (row : MonitorRow) × (row_by i rows ≡ some row)
        × (row.chain_id ≡ chain_id)
        × (row_by i (map (advance_locked ids chain_id b) rows) ≡ some (advanced b row))
  asked-locked b i rows d count asked =
      let kept =
        Within-all (row_ids (locked rows)) ids i (locked-AreDistinct rows d) (locked-Within rows)
          (omega (
            arith,
            count,
            length-map (advanced b) (locked rows),
            length-map (λ (r : MonitorRow). r.id) (locked rows),
          ))
          asked in
      let (row, found, in') = found-locked i rows d kept in
      let on_chain : eqb_ℤ row.chain_id chain_id ≡ true = ground (arith, in') in
      (
        row,
        found,
        (eqb_ℤ_iff row.chain_id chain_id).0 on_chain,
        row_by-advanced b i rows
            ∙ ap (Option.map (advance_locked ids chain_id b)) found
            ∙ ap (λ c. some (if c then advanced b row else row)) in',
      )
