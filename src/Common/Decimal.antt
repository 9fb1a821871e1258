-- ===== src/Common/Decimal.antt =====
-- `format!("{n}")` of Rust's unsigned integers: the decimal digits.
use Prim.Native.Nat.{ℕ, zero, suc, ◌+◌, ◌-◌, ◌*◌, ◌/◌, ◌%◌, ◌<◌}
use Prim.Native.Char.{code}
use Prim.Native.String.{String, ◌++◌}
use mathlib.Core.Path.{◌≡◌, sym, ap, ◌∙◌}
use native.Mathlib.Omega.{arith}
use text.Mathlib.TextLemmas.{nil-append, cons-append, append_assoc}
use parseon.Common.Tests.{ltb, eqb, if◌then◌else◌, Bool-cases}
use mathlib.Core.Logic.{inl, inr}

abbrev pub digit : ℕ → String
digit d =
    if eqb d 0
    then "0"
    else if eqb d 1
    then "1"
    else if eqb d 2
    then "2"
    else if eqb d 3
    then "3"
    else if eqb d 4
    then "4"
    else if eqb d 5
    then "5"
    else if eqb d 6
    then "6"
    else if eqb d 7
    then "7"
    else if eqb d 8
    then "8"
    else "9"

-- On as many rounds as there may be digits.
unfoldable pub digits : ℕ → ℕ → String
digits zero n = ""
digits (suc rounds) n =
    let rest = digits rounds (n / 10) ++ digit (n % 10) in if ltb n 10 then digit n else rest

unfoldable pub decimal : ℕ → String
unfolding digits
decimal n = digits (suc n) n

-- The number that a text of digits stands for, after those that were read.
read_from : ℕ → String → ℕ
read_from acc String.[] = acc
read_from acc (String.◌∷◌ c s) = read_from (acc * 10 + (code c - 48)) s

read_from-append : (acc : ℕ) (s t : String) → read_from acc (s ++ t) ≡ read_from (read_from acc s) t
unfolding read_from
read_from-append acc String.[] t = ap (read_from acc) (nil-append t)
read_from-append acc (String.◌∷◌ c s) t =
    ap (read_from acc) (cons-append c s t) ∙ read_from-append (acc * 10 + (code c - 48)) s t

read_from-digit : (acc d : ℕ) → d < 10 → read_from acc (digit d) ≡ acc * 10 + d
unfolding read_from
read_from-digit acc zero h = omega arith
read_from-digit acc (suc zero) h = omega arith
read_from-digit acc (suc (suc zero)) h = omega arith
read_from-digit acc (suc (suc (suc zero))) h = omega arith
read_from-digit acc (suc (suc (suc (suc zero)))) h = omega arith
read_from-digit acc (suc (suc (suc (suc (suc zero))))) h = omega arith
read_from-digit acc (suc (suc (suc (suc (suc (suc zero)))))) h = omega arith
read_from-digit acc (suc (suc (suc (suc (suc (suc (suc zero))))))) h = omega arith
read_from-digit acc (suc (suc (suc (suc (suc (suc (suc (suc zero)))))))) h = omega arith
read_from-digit acc (suc (suc (suc (suc (suc (suc (suc (suc (suc zero))))))))) h = omega arith
read_from-digit acc (suc (suc (suc (suc (suc (suc (suc (suc (suc (suc n)))))))))) h =
    absurd (omega arith)

read_from-digits : (rounds n : ℕ) → n < rounds → read_from 0 (digits rounds n) ≡ n
unfolding digits
read_from-digits zero n h = elim h [ ]
read_from-digits (suc rounds) n h = elim (Bool-cases (ltb n 10)) [
  | inl one ↦ rw one (read_from-digit 0 n (ground (arith, one)) ∙ omega arith)
  | inr more ↦ rw more (
      read_from-append 0 (digits rounds (n / 10)) (digit (n % 10))
      ∙ ap (λ acc. read_from acc (digit (n % 10)))
          (read_from-digits rounds (n / 10) (ground (arith, more)))
      ∙ read_from-digit (n / 10) (n % 10) (omega arith)
      ∙ omega arith)
]

-- Two numbers with the same digits are equal.
pub decimal_inj : (m n : ℕ) → decimal m ≡ decimal n → m ≡ n
unfolding decimal
decimal_inj m n same =
    sym (read_from-digits (suc m) m (omega arith))
    ∙ ap (read_from 0) same
    ∙ read_from-digits (suc n) n (omega arith)

-- A text ends in a digit.
abbrev pub EndsInDigit : String → Type 0
EndsInDigit s = (front : String) × (d : ℕ) × (d < 10) × (s ≡ front ++ digit d)

digits-EndsInDigit : (rounds n : ℕ) → n < rounds → EndsInDigit (digits rounds n)
unfolding digits
digits-EndsInDigit zero n h = elim h [ ]
digits-EndsInDigit (suc rounds) n h = elim (Bool-cases (ltb n 10)) [
  | inl one ↦ ("", n, ground (arith, one), rw one (sym (nil-append (digit n))))
  | inr more ↦ (digits rounds (n / 10), n % 10, omega arith, rw more)
]

pub append-decimal-EndsInDigit : (s : String) (n : ℕ) → EndsInDigit (s ++ decimal n)
unfolding decimal
append-decimal-EndsInDigit s n =
    let (front, d, small, e) = digits-EndsInDigit (suc n) n (omega arith) in
    (s ++ front, d, small, ap (λ t. s ++ t) e ∙ sym (append_assoc s front (digit d)))
