-- ===== src/Common/Ordered.antt =====
-- Rust's BTreeMap from integers to vectors, as an association list in the order of its keys.
use Prim.Native.Nat.{ℕ, suc, ◌≤◌, ◌<◌}
use mathlib.Core.Path.{◌≡◌, refl}
use mathlib.Core.List.{List, [], ◌∷◌, ◌++◌, append-nil}
use native.Mathlib.Omega.{arith}
use parseon.Common.Tests.{ltb, eqb, if◌then◌else◌}

abbrev pub Entries : Type 0 → Type 0
Entries V = List (ℕ × List V)

module _ {V : Type 0} where
  -- `map.entry(k).or_default().push(v)`
  unfoldable pub push_entry : ℕ → V → Entries V → Entries V
  push_entry k v [] = (k, v ∷ []) ∷ []
  push_entry k v ((j, vs) ∷ m) =
      let later = push_entry k v m in
      if ltb k j
      then (k, v ∷ []) ∷ (j, vs) ∷ m
      else if eqb k j
      then (j, vs ++ v ∷ []) ∷ m
      else (j, vs) ∷ later

  -- The vector under a key, empty if there is none.
  unfoldable pub entry_at : ℕ → Entries V → List V
  entry_at k [] = []
  entry_at k ((j, vs) ∷ m) = if eqb j k then vs else entry_at k m

  -- Keys strictly ascending from a bound, and no vector is empty.
  abbrev pub IsOrdered : ℕ → Entries V → Type 0
  IsOrdered lo [] = Unit
  IsOrdered lo ((j, []) ∷ m) = ⊥
  IsOrdered lo ((j, v ∷ vs) ∷ m) = (lo ≤ j) × IsOrdered (suc j) m

  IsOrdered-mono : (lo hi : ℕ) (m : Entries V) → lo ≤ hi → IsOrdered hi m → IsOrdered lo m
  IsOrdered-mono lo hi [] h o = tt
  IsOrdered-mono lo hi ((j, []) ∷ m) h o = o
  IsOrdered-mono lo hi ((j, v ∷ vs) ∷ m) h o = (omega arith, o.1)

  pub push_entry-IsOrdered :
      (lo k : ℕ) (v : V) (m : Entries V) → lo ≤ k → IsOrdered lo m → IsOrdered lo (push_entry k v m)
  unfolding push_entry
  push_entry-IsOrdered lo k v [] h o = (h, tt)
  push_entry-IsOrdered lo k v ((j, []) ∷ m) h o = absurd o
  push_entry-IsOrdered lo k v ((j, w ∷ ws) ∷ m) h o =
      ground (arith, push_entry-IsOrdered (suc j) k v m)

  entry_at_below : (k lo : ℕ) (m : Entries V) → k < lo → IsOrdered lo m → entry_at k m ≡ []
  unfolding entry_at
  entry_at_below k lo [] h o = refl
  entry_at_below k lo ((j, []) ∷ m) h o = absurd o
  entry_at_below k lo ((j, v ∷ vs) ∷ m) h o = ground (arith, entry_at_below k (suc j) m)

  pub entry_at-push_entry :
      (k b lo : ℕ) (v : V) (m : Entries V)
      → IsOrdered lo m
      → entry_at b (push_entry k v m) ≡ entry_at b m ++ (if eqb k b then v ∷ [] else [])
  unfolding entry_at push_entry
  entry_at-push_entry k b lo v [] o = ground arith
  entry_at-push_entry k b lo v ((j, []) ∷ m) o = absurd o
  entry_at-push_entry k b lo v ((j, w ∷ ws) ∷ m) o = ground (
    arith,
    entry_at-push_entry k b (suc j) v m o.1,
    entry_at_below b (suc j) m,
    append-nil (w ∷ ws),
    append-nil (entry_at b m),
  )
