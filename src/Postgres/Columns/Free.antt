-- ===== src/Postgres/Columns/Free.antt =====
-- The loop of `postgres_params` of parseon-postgres/src/dyn_table.rs ends at the first candidate that is free.
use Prim.Native.String.{◌++◌}
use text.Mathlib.TextLemmas.{append-nil, append_cancel_left, cons-ne-nil, cons-append, nil-append}
use parseon.Common.{
  ℕ, zero, suc, ◌≤◌, ◌<◌, ◌≡◌, refl, ap, sym, ◌∙◌, inl, inr, String, true, false, List, [], ◌∷◌,
  length, ltb, arith, Bool-cases,
}
use parseon.Common.Eq.{◌==◌, string_eq}
use parseon.Common.Decimal.{decimal, decimal_inj}
use parseon.Common.Distinct.{contains, without, contains-without, length-without}
use parseon.Postgres.Columns.{candidate, free_column}

suffix-ne-nil : (n : ℕ) → ¬ ("_" ++ decimal (suc n) ≡ "")
suffix-ne-nil n h = cons-ne-nil "_" (decimal (suc n)) (
    sym (cons-append "_" "" (decimal (suc n)) ∙ ap (String.◌∷◌ "_") (nil-append (decimal (suc n))))
    ∙ h)

-- No candidate is tried twice.
candidate_inj : (base : String) (m n : ℕ) → candidate base m ≡ candidate base n → m ≡ n
candidate_inj base zero zero h = refl
candidate_inj base zero (suc n) h = absurd (
    suffix-ne-nil n
      (sym (append_cancel_left base "" ("_" ++ decimal (suc n)) (append-nil base ∙ h))))
candidate_inj base (suc m) zero h = absurd (
    suffix-ne-nil m
      (append_cancel_left base ("_" ++ decimal (suc m)) "" (h ∙ sym (append-nil base))))
candidate_inj base (suc m) (suc n) h = decimal_inj (suc m) (suc n) (
    append_cancel_left "_" (decimal (suc m)) (decimal (suc n))
      (append_cancel_left base ("_" ++ decimal (suc m)) ("_" ++ decimal (suc n)) h))

-- The loop sees of the set only whether it holds the candidates that are left.
free_column_ext :
    (rounds n : ℕ) (base : String) (used used' : List String)
    → ((m : ℕ) → n ≤ m → contains (candidate base m) used ≡ contains (candidate base m) used')
    → free_column rounds base n used ≡ free_column rounds base n used'
unfolding free_column
free_column_ext zero n base used used' same = refl
free_column_ext (suc rounds) n base used used' same = ground (
  arith,
  same n (omega arith),
  free_column_ext rounds (suc n) base used used' (λ m h. same m (omega arith)),
)

-- The loop returns a candidate, and those before it are used.
pub free_column_first :
    (rounds n : ℕ) (base : String) (used : List String)
    → (k : ℕ) × (n ≤ k)
      × (free_column rounds base n used ≡ candidate base k)
      × ((j : ℕ) → n ≤ j → j < k → contains (candidate base j) used ≡ true)
unfolding free_column
free_column_first zero n base used = (n, omega arith, refl, λ j lo hi. absurd (omega arith))
free_column_first (suc rounds) n base used = elim (Bool-cases (contains (candidate base n) used)) [
  | inr free ↦ (n, omega arith, rw free, λ j lo hi. absurd (omega arith))
  | inl taken ↦
      let (k, above, found, before) = free_column_first rounds (suc n) base used in
      (
        k,
        omega arith,
        rw taken found,
        λ j lo hi. elim (Bool-cases (ltb n j)) [
          | inl later ↦ before j (ground (arith, later)) hi
          | inr now ↦
              let e : j ≡ n = ground (arith, now, lo) in
              ap (λ i. contains (candidate base i) used) e ∙ taken
        ],
      )
]

-- The candidates after one are found in the set as in the set less that one.
contains-later :
    (base : String) (n : ℕ) (used : List String) (m : ℕ)
    → suc n ≤ m
    → contains (candidate base m) used
      ≡ contains (candidate base m) (without (candidate base n) used)
contains-later base n used m h =
    sym (contains-without (candidate base n) (candidate base m) used apart)
  where
    apart : (candidate base m == candidate base n) ≡ false
    apart = elim (Bool-cases (candidate base m == candidate base n)) [
      | inr other ↦ other
      | inl same ↦
          let e : m ≡ n = candidate_inj base m n ((string_eq.test_iff _ _).0 same) in
          absurd (omega arith)
    ]

-- As many rounds as columns are used are enough: the column that is found is free.
pub free_column-is_free :
    (rounds n : ℕ) (base : String) (used : List String)
    → length used ≤ rounds
    → contains (free_column rounds base n used) used ≡ false
unfolding free_column
free_column-is_free zero n base [] enough = refl
free_column-is_free zero n base (u ∷ us) enough = absurd (omega arith)
free_column-is_free (suc rounds) n base used enough =
    elim (Bool-cases (contains (candidate base n) used)) [
      | inr free ↦ rw free free
      | inl taken ↦
          let rest = without (candidate base n) used in
          let same = contains-later base n used in
          let (k, above, found, before) = free_column_first rounds (suc n) base used in
          rw taken (
            ap (λ r. contains r used) found
            ∙ same k above
            ∙ ap (λ r. contains r rest)
                (sym found ∙ free_column_ext rounds (suc n) base used rest same)
            ∙ free_column-is_free rounds (suc n) base rest
                (omega (arith, length-without (candidate base n) used taken)))
    ]
