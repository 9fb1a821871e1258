-- ===== src/Common/Distinct.antt =====
-- Rust's HashSet, as a list: membership, and lists without a repeated element.
use Prim.Native.Nat.{◌≤◌, ◌<◌}
use mathlib.Core.Path.{◌≡◌, refl, sym, ap, ◌∙◌, subst}
use mathlib.Core.Bool.{Bool, true, false, ◌||◌}
use mathlib.Core.Logic.{inl, inr}
use mathlib.Core.List.{List, [], ◌∷◌}
use native.Mathlib.Omega.{arith}
use parseon.Common.Tests.{Bool-cases, if◌then◌else◌}
use parseon.Common.Lists.{All, length}
use parseon.Common.Eq.{Eq, ◌==◌}

module _ {A : Type 0} ⦃e : Eq A⦄ where
  -- `contains`
  abbrev pub contains : A → List A → Bool
  contains x [] = false
  contains x (y ∷ ys) = x == y || contains x ys

  -- None of the list is in the other.
  abbrev pub AreNew : List A → List A → Type 0
  AreNew xs seen = All (λ x. contains x seen ≡ false) xs

  -- Nothing stands twice.
  abbrev pub AreDistinct : List A → Type 0
  AreDistinct [] = Unit
  AreDistinct (x ∷ xs) = (contains x xs ≡ false) × AreDistinct xs

  pub ==_sym : (x y : A) → (x == y) ≡ false → (y == x) ≡ false
  ==_sym x y h = elim (Bool-cases (y == x)) [
    | inr other ↦ other
    | inl same ↦ ground (arith, h, (e.test_iff x y).1 (sym ((e.test_iff y x).0 same)))
  ]

  -- What is not among a set with `x` is not `x`, and not in the set.
  pub contains-AreNew : (x : A) (xs seen : List A) → AreNew xs (x ∷ seen) → contains x xs ≡ false
  contains-AreNew x [] seen h = refl
  contains-AreNew x (y ∷ ys) seen h =
      let head : (y == x) ≡ false = ground (arith, h.0) in
      ground (arith, ==_sym y x head, contains-AreNew x ys seen h.1)

  pub AreNew-tail : (x : A) (xs seen : List A) → AreNew xs (x ∷ seen) → AreNew xs seen
  AreNew-tail x [] seen h = tt
  AreNew-tail x (y ∷ ys) seen h = (ground (arith, h.0), AreNew-tail x ys seen h.1)

  -- What holds of every element of a set holds of one that it contains.
  pub contains-All : (P : A → Type 0) (x : A) (ys : List A) → All P ys → contains x ys ≡ true → P x
  contains-All P x [] h found = absurd (ground (arith, found))
  contains-All P x (y ∷ ys) h found = elim (Bool-cases (x == y)) [
    | inl same ↦ subst P (sym ((e.test_iff x y).0 same)) h.0
    | inr other ↦ contains-All P x ys h.1 (ground (arith, other, found))
  ]

  -- The set less an element.
  pub without : A → List A → List A
  without x [] = []
  without x (y ∷ ys) = let rest = without x ys in if x == y then rest else y ∷ rest

  pub contains-without :
      (x y : A) (used : List A) → (y == x) ≡ false → contains y (without x used) ≡ contains y used
  unfolding without
  contains-without x y [] h = refl
  contains-without x y (z ∷ zs) h = elim (Bool-cases (x == z)) [
    | inr other ↦ ground (arith, other, contains-without x y zs h)
    | inl same ↦
        let apart : (y == z) ≡ false = ap (λ t. y == t) (sym ((e.test_iff x z).0 same)) ∙ h in
        ground (arith, same, apart, contains-without x y zs h)
  ]

  length-without_le : (x : A) (used : List A) → length (without x used) ≤ length used
  unfolding without
  length-without_le x [] = omega arith
  length-without_le x (z ∷ zs) = ground (arith, length-without_le x zs)

  pub length-without :
      (x : A) (used : List A) → contains x used ≡ true → length (without x used) < length used
  unfolding without
  length-without x [] h = absurd (ground (arith, h))
  length-without x (z ∷ zs) h = ground (arith, length-without_le x zs, length-without x zs)

  abbrev pub Within : List A → List A → Type 0
  Within xs ys = All (λ x. contains x ys ≡ true) xs

  Within-without :
      (x : A) (xs ys : List A) → contains x xs ≡ false → Within xs ys → Within xs (without x ys)
  Within-without x [] ys new' h = tt
  Within-without x (y ∷ xs) ys new' h =
      let apart : (x == y) ≡ false = ground (arith, new') in
      (
        contains-without x y ys (==_sym x y apart) ∙ h.0,
        Within-without x xs ys (ground (arith, new', apart)) h.1,
      )

  -- Distinct elements of a set are not more than the set has.
  length-Within : (xs ys : List A) → AreDistinct xs → Within xs ys → length xs ≤ length ys
  length-Within [] ys distinct h = omega arith
  length-Within (x ∷ xs) ys distinct h = omega (
    arith,
    length-Within xs (without x ys) distinct.1 (Within-without x xs ys distinct.0 h.1),
    length-without x ys h.0,
  )

  -- If they are as many, they are all of it.
  pub Within-all :
      (xs ys : List A) (y : A)
      → AreDistinct xs
      → Within xs ys
      → length ys ≤ length xs
      → contains y ys ≡ true
      → contains y xs ≡ true
  Within-all xs ys y distinct h many found = elim (Bool-cases (contains y xs)) [
    | inl in' ↦ in'
    | inr out ↦ absurd (
        omega (
          arith,
          length-Within xs (without y ys) distinct (Within-without y xs ys out h),
          length-without y ys found,
        ))
  ]
