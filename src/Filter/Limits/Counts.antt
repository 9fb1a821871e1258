-- ===== src/Filter/Limits/Counts.antt =====
-- What `validate_limits` accepts, against a description of the limits by recursion.
use parseon.Common.{
  ℕ, suc, ◌+◌, ◌≤◌, ◌≡◌, ◌↔◌, List, [], ◌∷◌, ◌++◌, String, ok, ok_or, ensure, leb, arith, max, some,
  >>=-eq-ok,
}
use parseon.Filter.Ast.{FilterExpression, Expressions, Segment, key, index, Codecs}
use parseon.Filter.Limits.{
  enter, enter_children, length_of, visit, visit_children, validate_limits, root, max_bytes,
  max_nodes, max_depth, max_children,
}

-- The number of nodes, the height, and the arities of a tree.
unfoldable mutual
  pub count : FilterExpression → ℕ
  count (FilterExpression.and es) = suc (count_all es)
  count (FilterExpression.or es) = suc (count_all es)
  count (FilterExpression.not e) = suc (count e)
  count (FilterExpression.compare c) = 1

  pub count_all : Expressions → ℕ
  count_all Expressions.nil = 0
  count_all (Expressions.cons e es) = count e + count_all es

unfoldable mutual
  pub height : FilterExpression → ℕ
  height (FilterExpression.and es) = suc (height_all es)
  height (FilterExpression.or es) = suc (height_all es)
  height (FilterExpression.not e) = suc (height e)
  height (FilterExpression.compare c) = 1

  pub height_all : Expressions → ℕ
  height_all Expressions.nil = 0
  height_all (Expressions.cons e es) = max (height e) (height_all es)

unfoldable mutual
  unfolding length_of

  pub IsBranching : FilterExpression → Type 0
  IsBranching (FilterExpression.and es) =
      (2 ≤ length_of es) × (length_of es ≤ max_children) × AreBranching es
  IsBranching (FilterExpression.or es) =
      (2 ≤ length_of es) × (length_of es ≤ max_children) × AreBranching es
  IsBranching (FilterExpression.not e) = IsBranching e
  IsBranching (FilterExpression.compare c) = Unit

  pub AreBranching : Expressions → Type 0
  AreBranching Expressions.nil = Unit
  AreBranching (Expressions.cons e es) = IsBranching e × AreBranching es

enter-eq-ok :
    (d n : ℕ) (p : List Segment) (m : ℕ)
    → enter d n p ≡ ok m
    → (m ≡ n + 1) × (m ≤ max_nodes) × (d ≤ max_depth)
unfolding enter
enter-eq-ok d n p m h = ground arith

enter_children-eq-ok :
    (es : Expressions) (d n : ℕ) (p : List Segment) (s : String) (m : ℕ)
    → enter_children es d n p s ≡ ok m
    → (m ≡ n + 1)
      × (m ≤ max_nodes)
      × (d ≤ max_depth)
      × (2 ≤ length_of es)
      × (length_of es ≤ max_children)
unfolding enter_children
enter_children-eq-ok es d n p s m h = ground arith

-- What an accepted node says of the counter, the limits and its own branching.
abbrev Accepted : ℕ → ℕ → ℕ → ℕ → ℕ → Type 0 → Type 0
Accepted d n m nodes levels branching =
    (m ≡ n + nodes) × (m ≤ max_nodes) × (d + levels ≤ suc max_depth) × branching

mutual
  unfolding visit count height IsBranching

  visit_sound :
      (e : FilterExpression) (d n : ℕ) (p : List Segment) (m : ℕ)
      → visit e d n p ≡ ok m
      → Accepted d n m (count e) (height e) (IsBranching e)
  visit_sound (FilterExpression.and es) d n p m h =
      let (c, h₁, h₂) = >>=-eq-ok (enter_children es d n p "and") _ h in
      let k = enter_children-eq-ok es d n p "and" c h₁ in
      let r = visit_children_sound es (d + 1) c _ 0 m h₂ k.1 (omega arith) in
      (omega arith, r.1, omega arith, (k.3, k.4, r.3))
  visit_sound (FilterExpression.or es) d n p m h =
      let (c, h₁, h₂) = >>=-eq-ok (enter_children es d n p "or") _ h in
      let k = enter_children-eq-ok es d n p "or" c h₁ in
      let r = visit_children_sound es (d + 1) c _ 0 m h₂ k.1 (omega arith) in
      (omega arith, r.1, omega arith, (k.3, k.4, r.3))
  visit_sound (FilterExpression.not e) d n p m h =
      let (c, h₁, h₂) = >>=-eq-ok (enter d n p) _ h in
      let k = enter-eq-ok d n p c h₁ in
      let r = visit_sound e (d + 1) c _ m h₂ in (omega arith, r.1, omega arith, r.3)
  visit_sound (FilterExpression.compare c) d n p m h =
      let k = enter-eq-ok d n p m h in (k.0, k.1, omega arith, tt)

  visit_children_sound :
      (es : Expressions) (d n : ℕ) (p : List Segment) (i : ℕ) (m : ℕ)
      → visit_children es d n p i ≡ ok m
      → n ≤ max_nodes
      → d ≤ suc max_depth
      → Accepted d n m (count_all es) (height_all es) (AreBranching es)
  visit_children_sound Expressions.nil d n p i m h a b =
      let e : n ≡ m = cc in (omega arith, omega arith, omega arith, tt)
  visit_children_sound (Expressions.cons e es) d n p i m h a b =
      let (c, h₁, h₂) = >>=-eq-ok (visit e d n _) _ h in
      let k = visit_sound e d n _ c h₁ in
      let r = visit_children_sound es d c p (i + 1) m h₂ k.1 b in
      (omega arith, r.1, omega arith, (k.3, r.3))

mutual
  unfolding visit count height IsBranching enter enter_children

  visit_complete :
      (e : FilterExpression) (d n : ℕ) (p : List Segment)
      → n + count e ≤ max_nodes
      → d + height e ≤ suc max_depth
      → IsBranching e
      → visit e d n p ≡ ok (n + count e)
  visit_complete (FilterExpression.and es) d n p a b k =
      ground (arith, visit_children_complete es (d + 1) (n + 1) (p ++ key "and" ∷ []) 0)
  visit_complete (FilterExpression.or es) d n p a b k =
      ground (arith, visit_children_complete es (d + 1) (n + 1) (p ++ key "or" ∷ []) 0)
  visit_complete (FilterExpression.not e) d n p a b k =
      ground (arith, visit_complete e (d + 1) (n + 1) (p ++ key "not" ∷ []))
  visit_complete (FilterExpression.compare c) d n p a b k = ground arith

  visit_children_complete :
      (es : Expressions) (d n : ℕ) (p : List Segment) (i : ℕ)
      → n + count_all es ≤ max_nodes
      → d + height_all es ≤ suc max_depth
      → AreBranching es
      → visit_children es d n p i ≡ ok (n + count_all es)
  visit_children_complete Expressions.nil d n p i a b k = ground arith
  visit_children_complete (Expressions.cons e es) d n p i a b k = ground (
    arith,
    visit_complete e d n (p ++ index i ∷ []),
    visit_children_complete es d (n + count e) p (i + 1),
  )

-- What is within the limits: the length of the encoding, the nodes, the height, the arities.
abbrev pub IsWithinLimits : Codecs → FilterExpression → Type 0
IsWithinLimits codecs e =
    (bytes : ℕ) × (codecs.encoded_len e ≡ some bytes)
    × (bytes ≤ max_bytes)
    × (count e ≤ max_nodes)
    × (height e ≤ max_depth)
    × IsBranching e

-- An expression is accepted exactly when it encodes in at most 16 KiB, has at most 128 nodes, is at
-- most 16 high, and each `and` and `or` in it has 2 to 32 children.
pub validate_limits_iff :
    (codecs : Codecs) (e : FilterExpression)
    → (validate_limits codecs e ≡ ok tt) ↔ IsWithinLimits codecs e
unfolding validate_limits
validate_limits_iff codecs e = (sound, complete)
  where
    sound : validate_limits codecs e ≡ ok tt → IsWithinLimits codecs e
    sound h =
        let (bytes, h₁, h₂) = >>=-eq-ok (ok_or (codecs.encoded_len e) _) _ h in
        let (_, h₃, h₄) = >>=-eq-ok (ensure (leb bytes max_bytes) _) _ h₂ in
        let (m, h₅, _) = >>=-eq-ok (visit e 1 0 root) _ h₄ in
        let k = visit_sound e 1 0 root m h₅ in
        (bytes, ground arith, ground arith, omega arith, omega arith, k.3)

    complete : IsWithinLimits codecs e → validate_limits codecs e ≡ ok tt
    complete (bytes, a, b, c, d, k) = ground (arith, visit_complete e 1 0 root)
