-- ===== src/Postgres/Columns/Names.antt =====
-- The columns of a result table, of parseon-postgres/src/dyn_table.rs: no two are the same, and none is one of the
-- identity columns.
use Prim.Native.Char.{code}
use Prim.Native.String.{◌++◌}
use text.Mathlib.TextLemmas.{nil-append, cons-append, append_assoc}
use parseon.Common.{
  ℕ, zero, suc, ◌+◌, ◌≤◌, ◌<◌, ◌≡◌, refl, ap, sym, ◌∙◌, inl, inr, ◌⊎◌, String, false, List, [], ◌∷◌,
  length, map, ok, >>=-eq-ok, ok_inj, All, arith, Bool-cases,
}
use parseon.Common.Eq.{◌==◌, string_eq}
use parseon.Common.Decimal.{digit, decimal, EndsInDigit, append-decimal-EndsInDigit}
use parseon.Common.Distinct.{
  contains, AreNew, AreDistinct, contains-AreNew, AreNew-tail, contains-All,
}
use parseon.Abi.{Alloy}
use parseon.Postgres.Columns.{
  StoredParam, PgParam, call_reserved, event_reserved, reserved_columns, base_column, candidate,
  free_column, from_param, name_columns, postgres_params,
}
use parseon.Postgres.Columns.Free.{free_column_first, free_column-is_free}

-- The code point at the end of a text.
last_code : ℕ → String → ℕ
last_code c String.[] = c
last_code c (String.◌∷◌ d s) = last_code (code d) s

last_code-digit : (c d : ℕ) → d < 10 → last_code c (digit d) ≡ 48 + d
unfolding last_code
last_code-digit c zero h = refl
last_code-digit c (suc zero) h = omega arith
last_code-digit c (suc (suc zero)) h = omega arith
last_code-digit c (suc (suc (suc zero))) h = omega arith
last_code-digit c (suc (suc (suc (suc zero)))) h = omega arith
last_code-digit c (suc (suc (suc (suc (suc zero))))) h = omega arith
last_code-digit c (suc (suc (suc (suc (suc (suc zero)))))) h = omega arith
last_code-digit c (suc (suc (suc (suc (suc (suc (suc zero))))))) h = omega arith
last_code-digit c (suc (suc (suc (suc (suc (suc (suc (suc zero)))))))) h = omega arith
last_code-digit c (suc (suc (suc (suc (suc (suc (suc (suc (suc zero))))))))) h = omega arith
last_code-digit c (suc (suc (suc (suc (suc (suc (suc (suc (suc (suc d)))))))))) h =
    absurd (omega arith)

last_code-append : (c d : ℕ) (s : String) → d < 10 → last_code c (s ++ digit d) ≡ 48 + d
unfolding last_code
last_code-append c d String.[] h = ap (last_code c) (nil-append (digit d)) ∙ last_code-digit c d h
last_code-append c d (String.◌∷◌ e s) h =
    ap (last_code c) (cons-append e s (digit d)) ∙ last_code-append (code e) d s h

-- A text that ends in a digit is none that ends otherwise.
EndsInDigit-ne : (s word : String) → EndsInDigit s → 58 ≤ last_code 0 word → (s == word) ≡ false
EndsInDigit-ne s word (front, d, small, e) end = elim (Bool-cases (s == word)) [
  | inr other ↦ other
  | inl same ↦
      let at_end = ap (last_code 0) (sym ((string_eq.test_iff s word).0 same) ∙ e) in
      absurd (omega (arith, at_end, last_code-append 0 d front small))
]

-- The lists that `postgres_params` takes.
abbrev IsReserved : List String → Type 0
IsReserved reserved = (reserved ≡ call_reserved) ⊎ (reserved ≡ event_reserved)

reserved_columns-IsReserved :
    (kind : String) (reserved : List String)
    → reserved_columns kind ≡ ok reserved
    → IsReserved reserved
reserved_columns-IsReserved kind reserved h = elim (Bool-cases (kind == "call")) [
  | inl call ↦ inl (sym (ground (arith, call, h)))
  | inr other ↦ elim (Bool-cases (kind == "event")) [
    | inl event ↦ inr (sym (ground (arith, other, event, h)))
    | inr neither ↦ absurd (ground (arith, other, neither, h))
  ]
]

numbered-is_free :
    (reserved : List String) (s : String)
    → IsReserved reserved
    → EndsInDigit s
    → contains s reserved ≡ false
unfolding last_code
numbered-is_free reserved s (inl call) end = rw call (
    ground (
      arith,
      EndsInDigit-ne s "tx_hash" end (omega arith),
      EndsInDigit-ne s "block_number" end (omega arith),
    ))
numbered-is_free reserved s (inr event) end = rw event (
    ground (
      arith,
      EndsInDigit-ne s "tx_hash" end (omega arith),
      EndsInDigit-ne s "log_index" end (omega arith),
      EndsInDigit-ne s "block_number" end (omega arith),
    ))

suffixed-is_free :
    (reserved : List String)
    → IsReserved reserved
    → All (λ word. contains (word ++ "_param") reserved ≡ false) reserved
suffixed-is_free reserved (inl call) = rw call (refl, (refl, tt))
suffixed-is_free reserved (inr event) = rw event (refl, (refl, (refl, tt)))

base_column-is_free :
    (reserved : List String) (name : String)
    → IsReserved reserved
    → contains (base_column reserved name) reserved ≡ false
base_column-is_free reserved name is = elim (Bool-cases (contains name reserved)) [
  | inr free ↦ rw free free
  | inl taken ↦ rw taken (
      contains-All (λ word. contains (word ++ "_param") reserved ≡ false) name reserved
        (suffixed-is_free reserved is) taken)
]

candidate-is_free :
    (reserved : List String) (name : String) (n : ℕ)
    → IsReserved reserved
    → contains (candidate (base_column reserved name) n) reserved ≡ false
candidate-is_free reserved name zero is = base_column-is_free reserved name is
candidate-is_free reserved name (suc n) is =
    numbered-is_free reserved (base_column reserved name ++ ("_" ++ decimal (suc n))) is
      (after (append-decimal-EndsInDigit "_" (suc n)))
  where
    after :
        EndsInDigit ("_" ++ decimal (suc n))
        → EndsInDigit (candidate (base_column reserved name) (suc n))
    after (front, d, small, e) = (
      base_column reserved name ++ front,
      d,
      small,
      ap (λ s. base_column reserved name ++ s) e
          ∙ sym (append_assoc (base_column reserved name) front (digit d)),
    )

abbrev pub columns : List PgParam → List String
columns params = map (λ p. p.column) params

name_columns-AreFree :
    (alloy : Alloy) (reserved used : List String) (params : List StoredParam) (named : List PgParam)
    → IsReserved reserved
    → name_columns alloy reserved used params ≡ ok named
    → AreNew (columns named) used × AreDistinct (columns named) × AreNew (columns named) reserved
unfolding name_columns
name_columns-AreFree alloy reserved used [] named is h = rw (sym (ok_inj h)) (tt, tt, tt)
name_columns-AreFree alloy reserved used (p ∷ ps) named is h =
    let base = base_column reserved p.name in
    let column = free_column (length used) base 0 used in
    let (kind, typed, after) = >>=-eq-ok (from_param alloy p) _ h in
    let (rest, more, result) = >>=-eq-ok (name_columns alloy reserved (column ∷ used) ps) _ after in
    let (new', distinct, free) =
      name_columns-AreFree alloy reserved (column ∷ used) ps rest is more in
    let (k, above, found, before) = free_column_first (length used) 0 base used in
    rw (sym (ok_inj result)) (
      (
        free_column-is_free (length used) 0 base used (omega arith),
        AreNew-tail column (columns rest) used new',
      ),
      (contains-AreNew column (columns rest) used new', distinct),
      (ap (λ c. contains c reserved) found ∙ candidate-is_free reserved p.name k is, free),
    )

-- The columns of the parameters of a result table are pairwise distinct, and none is one of the table's identity
-- columns, whatever the parameters are called.
pub postgres_params-AreDistinct :
    (alloy : Alloy) (kind : String) (reserved : List String) (params : List StoredParam)
    (named : List PgParam)
    → reserved_columns kind ≡ ok reserved
    → postgres_params alloy kind params ≡ ok named
    → AreDistinct (columns named) × AreNew (columns named) reserved
unfolding postgres_params
postgres_params-AreDistinct alloy kind reserved params named known h =
    let (found, kinds, after) = >>=-eq-ok (reserved_columns kind) _ h in
    let same = ok_inj (sym kinds ∙ known) in
    let (new', distinct, free) =
      name_columns-AreFree alloy reserved [] params named
        (reserved_columns-IsReserved kind reserved known)
        (ap (λ r. name_columns alloy r [] params) (sym same) ∙ after) in
    (distinct, free)
