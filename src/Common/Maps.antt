-- ===== src/Common/Maps.antt =====
-- Rust's HashMap with integer keys, as an association list.
use parseon.Common.{
  ℕ, ◌≡◌, refl, false, Option, none, some, List, [], ◌∷◌, eqb, if◌then◌else◌, arith,
}

abbrev pub Map : Type 0 → Type 0
Map V = List (ℕ × V)

module _ {V : Type 0} where
  -- `get`
  unfoldable pub lookup : ℕ → Map V → Option V
  lookup k [] = none
  lookup k ((j, v) ∷ m) = let later = lookup k m in if eqb j k then some v else later

  -- `insert`
  unfoldable pub insert : ℕ → V → Map V → Map V
  insert k v [] = (k, v) ∷ []
  insert k v ((j, w) ∷ m) =
      let later = insert k v m in if eqb j k then (k, v) ∷ m else (j, w) ∷ later

  -- `remove`
  unfoldable pub remove : ℕ → Map V → Map V
  remove k [] = []
  remove k ((j, v) ∷ m) = let later = remove k m in if eqb j k then later else (j, v) ∷ later

  pub lookup-insert : (k : ℕ) (v : V) (m : Map V) → lookup k (insert k v m) ≡ some v
  unfolding lookup insert
  lookup-insert k v [] = ground arith
  lookup-insert k v ((j, w) ∷ m) = ground (arith, lookup-insert k v m)

  pub lookup-insert_other :
      (k j : ℕ) (v : V) (m : Map V) → eqb k j ≡ false → lookup j (insert k v m) ≡ lookup j m
  unfolding lookup insert
  lookup-insert_other k j v [] h = ground arith
  lookup-insert_other k j v ((i, w) ∷ m) h = ground (arith, lookup-insert_other k j v m h)

  pub lookup-remove : (k : ℕ) (m : Map V) → lookup k (remove k m) ≡ none
  unfolding lookup remove
  lookup-remove k [] = refl
  lookup-remove k ((j, w) ∷ m) = ground (arith, lookup-remove k m)

  pub lookup-remove_other :
      (k j : ℕ) (m : Map V) → eqb k j ≡ false → lookup j (remove k m) ≡ lookup j m
  unfolding lookup remove
  lookup-remove_other k j [] h = refl
  lookup-remove_other k j ((i, w) ∷ m) h = ground (arith, lookup-remove_other k j m h)

  -- A second insertion of the same changes nothing.
  pub insert-insert : (k : ℕ) (v : V) (m : Map V) → insert k v (insert k v m) ≡ insert k v m
  unfolding insert
  insert-insert k v [] = ground arith
  insert-insert k v ((j, w) ∷ m) = ground (arith, insert-insert k v m)
