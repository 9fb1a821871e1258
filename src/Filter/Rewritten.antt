-- ===== src/Filter/Rewritten.antt =====
-- The canonical form of an expression in parseon-core/src/filter.rs rewrites its literals, each into one of its kind that
-- is not longer.
use parseon.Common.{
  ℕ, ◌+◌, ◌≤◌, ◌≡◌, refl, sym, ap, ◌∙◌, inl, inr, ◌⊎◌, Bool, true, ◌||◌, String, Option, some, List,
  all, eqb, length, arith, ok, Option-cases, >>=-eq-ok,
}
use parseon.Common.Text.{codes, strip_prefix, is_hex_digit}
use parseon.Common.Int.{ℤ}
use parseon.Model.{Target}
use parseon.Filter.Ast.{
  Json, FilterExpression, FilterValue, Filter, ValueType, CompiledExpression, Segment,
  FilterDefinition, Codecs,
}
use parseon.Filter.Limits.{root, validate_limits}
use parseon.Filter.Limits.Counts.{validate_limits_iff}
use parseon.Filter.Literals.{
  parse_value, parse_uint, parse_int, parse_bool, parse_address, parse_string, parse_bytes,
  is_decimal, is_signed_decimal, is_address, is_even_hex, prefix_hex,
}
use parseon.Filter.Compile.{compile_expression}
use parseon.Filter.Shape.{SameTree, compile-SameTree}
use parseon.Filter.Definition.{prepare, compile}
use parseon.Filter.Canonical.{AreCanonical, prepare-compile}

-- A literal of the same kind: a text stays a text, and a Boolean the same one.
abbrev pub SameKind : Json → Json → Type 0
SameKind (Json.string s) (Json.string t) = Unit
SameKind (Json.bool a) (Json.bool b) = b ≡ a
SameKind _ _ = ⊥

-- What each parser read and what it printed.
module _ (codecs : Codecs) (path : List Segment) where
  parse_uint-eq-ok :
      (bits : ℕ) (value : Json) (v : FilterValue) (canonical : Json)
      → parse_uint codecs path bits value ≡ ok (v, canonical)
      → (s : String) × (n : ℕ) × (value ≡ Json.string s)
        × (is_decimal s ≡ true)
        × (codecs.coerce_uint bits s ≡ some n)
        × (canonical ≡ Json.string (codecs.show_uint n))
  unfolding parse_uint
  parse_uint-eq-ok bits (Json.string s) v canonical h =
      elim (Option-cases (codecs.coerce_uint bits s)) [
        | inl e ↦ absurd (ground arith)
        | inr (n, e) ↦ (s, n, refl, ground (arith, h), e, ground (arith, h, e))
      ]
  parse_uint-eq-ok bits _ v canonical h = absurd (cc)

  parse_int-eq-ok :
      (bits : ℕ) (value : Json) (v : FilterValue) (canonical : Json)
      → parse_int codecs path bits value ≡ ok (v, canonical)
      → (s : String) × (n : ℤ) × (value ≡ Json.string s)
        × (is_signed_decimal s ≡ true)
        × (codecs.coerce_int bits s ≡ some n)
        × (canonical ≡ Json.string (codecs.show_int n))
  unfolding parse_int
  parse_int-eq-ok bits (Json.string s) v canonical h =
      elim (Option-cases (codecs.coerce_int bits s)) [
        | inl e ↦ absurd (ground arith)
        | inr (n, e) ↦ (s, n, refl, ground (arith, h), e, ground (arith, h, e))
      ]
  parse_int-eq-ok bits _ v canonical h = absurd (cc)

  parse_address-eq-ok :
      (value : Json) (v : FilterValue) (canonical : Json)
      → parse_address codecs path value ≡ ok (v, canonical)
      → (s : String) × (a : List ℕ) × (value ≡ Json.string s)
        × (is_address s ≡ true)
        × (codecs.parse_address s ≡ some a)
        × (canonical ≡ Json.string (codecs.show_address a))
  unfolding parse_address
  parse_address-eq-ok (Json.string s) v canonical h = elim (Option-cases (codecs.parse_address s)) [
    | inl e ↦ absurd (ground arith)
    | inr (a, e) ↦ (s, a, refl, ground (arith, h), e, ground (arith, h, e))
  ]
  parse_address-eq-ok _ v canonical h = absurd (cc)

  parse_bytes-eq-ok :
      (size : Option ℕ) (value : Json) (v : FilterValue) (canonical : Json)
      → parse_bytes codecs path size value ≡ ok (v, canonical)
      → (s hex : String) × (b : List ℕ) × (value ≡ Json.string s)
        × (strip_prefix "0x" s ≡ some hex)
        × (is_even_hex hex ≡ true)
        × (codecs.hex_decode hex ≡ some b)
        × (canonical ≡ Json.string (prefix_hex (codecs.hex_encode b)))
  unfolding parse_bytes
  parse_bytes-eq-ok size (Json.string s) v canonical h = elim (Option-cases (strip_prefix "0x" s)) [
    | inl e ↦ absurd (ground arith)
    | inr (hex, e) ↦ elim (Option-cases (codecs.hex_decode hex)) [
      | inl e' ↦ absurd (ground arith)
      | inr (b, e') ↦ (s, hex, b, refl, e, ground (arith, h, e), e', ground (arith, h, e, e'))
    ]
  ]
  parse_bytes-eq-ok size _ v canonical h = absurd (cc)

  parse_bool-eq-ok :
      (value : Json) (v : FilterValue) (canonical : Json)
      → parse_bool codecs path value ≡ ok (v, canonical)
      → (b : Bool) × (value ≡ Json.bool b) × (canonical ≡ Json.bool b)
  unfolding parse_bool
  parse_bool-eq-ok (Json.bool b) v canonical h = (b, refl, ground (arith, h))
  parse_bool-eq-ok _ v canonical h = absurd (cc)

  parse_string-eq-ok :
      (value : Json) (v : FilterValue) (canonical : Json)
      → parse_string codecs path value ≡ ok (v, canonical)
      → (s : String) × (value ≡ Json.string s) × (canonical ≡ Json.string s)
  unfolding parse_string
  parse_string-eq-ok (Json.string s) v canonical h = (s, refl, ground (arith, h))
  parse_string-eq-ok _ v canonical h = absurd (cc)

module _ (codecs : Codecs) where
  SameKind-string :
      (value canonical : Json) (s t : String)
      → value ≡ Json.string s
      → canonical ≡ Json.string t
      → SameKind value canonical
  SameKind-string value canonical s t read printed = rw (read, printed) tt

  parse_value-SameKind :
      (path : List Segment) (ty : ValueType) (value : Json) (v : FilterValue) (canonical : Json)
      → parse_value codecs path ty value ≡ ok (v, canonical)
      → SameKind value canonical
  unfolding parse_value
  parse_value-SameKind path (ValueType.uint bits) value v canonical h =
      let (s, n, read, form, coerced, printed) =
        parse_uint-eq-ok codecs path bits value v canonical h in
      SameKind-string value canonical s (codecs.show_uint n) read printed
  parse_value-SameKind path (ValueType.int bits) value v canonical h =
      let (s, n, read, form, coerced, printed) =
        parse_int-eq-ok codecs path bits value v canonical h in
      SameKind-string value canonical s (codecs.show_int n) read printed
  parse_value-SameKind path ValueType.bool value v canonical h =
      let (b, read, printed) = parse_bool-eq-ok codecs path value v canonical h in
      rw (read, printed) refl
  parse_value-SameKind path ValueType.address value v canonical h =
      let (s, a, read, form, coerced, printed) =
        parse_address-eq-ok codecs path value v canonical h in
      SameKind-string value canonical s (codecs.show_address a) read printed
  parse_value-SameKind path ValueType.string value v canonical h =
      let (s, read, printed) = parse_string-eq-ok codecs path value v canonical h in
      SameKind-string value canonical s s read printed
  parse_value-SameKind path (ValueType.bytes size) value v canonical h =
      let (s, hex, b, read, prefixed, form, decoded, printed) =
        parse_bytes-eq-ok codecs path size value v canonical h in
      SameKind-string value canonical s (prefix_hex (codecs.hex_encode b)) read printed

  -- The canonical form of an expression that compiles differs from it in its literals only: it has the same connectives
  -- over the same number of children in the same order, and compares the same fields by the same operators, a text with
  -- a text and a Boolean with the same Boolean.
  pub compile-SameKind :
      (target : Target) (e : FilterExpression) (path : List Segment) (source : FilterExpression)
      (c : CompiledExpression)
      → compile_expression codecs target e path ≡ ok (source, c)
      → SameTree SameKind e source
  compile-SameKind target e path source c h =
      compile-SameTree SameKind codecs target parse_value-SameKind e path source c h

-- The text of a number, an address or hexadecimal bytes, which JSON writes as it is.
abbrev pub is_plain : String → Bool
is_plain s = all (λ c. is_hex_digit c || eqb c b'x' || eqb c b'-') (codes s)

-- A plain text that is not longer than another text.
abbrev pub IsShort : String → String → Type 0
IsShort s t = (length (codes t) ≤ length (codes s)) × (is_plain t ≡ true)

-- A literal that JSON does not write longer.
abbrev pub NoLonger : Json → Json → Type 0
NoLonger (Json.string s) (Json.string t) = (t ≡ s) ⊎ IsShort s t
NoLonger (Json.bool a) (Json.bool b) = b ≡ a
NoLonger _ _ = ⊥

-- What alloy, hex and serde_json document of their printers: a number is printed without leading zeros, an address and
-- bytes with two digits for each byte, and an expression is written part by part, a plain text as it is and any other
-- in as many bytes at least as it has characters.
pub record AreCompact (codecs : Codecs) : Type 0 where
  pub uint :
      (bits : ℕ) (s : String) (v : ℕ)
      → is_decimal s ≡ true
      → codecs.coerce_uint bits s ≡ some v
      → IsShort s (codecs.show_uint v)
  pub int :
      (bits : ℕ) (s : String) (v : ℤ)
      → is_signed_decimal s ≡ true
      → codecs.coerce_int bits s ≡ some v
      → IsShort s (codecs.show_int v)
  pub address :
      (s : String) (a : List ℕ)
      → is_address s ≡ true
      → codecs.parse_address s ≡ some a
      → IsShort s (codecs.show_address a)
  pub hex :
      (s : String) (b : List ℕ)
      → is_even_hex s ≡ true
      → codecs.hex_decode s ≡ some b
      → IsShort s (codecs.hex_encode b)
  pub encoded :
      (e f : FilterExpression) (n : ℕ)
      → SameTree NoLonger e f
      → codecs.encoded_len e ≡ some n
      → (m : ℕ) × (codecs.encoded_len f ≡ some m) × (m ≤ n)

length-strip_prefix :
    (p s r : String)
    → strip_prefix p s ≡ some r
    → length (codes s) ≡ length (codes p) + length (codes r)
length-strip_prefix String.[] s r h =
    omega (arith, ap (λ (t : String). length (codes t)) (some_inj h))
  where
    some_inj : {a b : String} → ◌≡◌ {A = Option String} (some a) (some b) → a ≡ b
    some_inj k = ground (arith, k)
length-strip_prefix (String.◌∷◌ c p) String.[] r h = absurd (ground (arith, h))
length-strip_prefix (String.◌∷◌ c p) (String.◌∷◌ d s) r h =
    omega (arith, length-strip_prefix p s r (ground (arith, h)))

module _ (codecs : Codecs) (compact : AreCompact codecs) where
  NoLonger-short :
      (value canonical : Json) (s t : String)
      → value ≡ Json.string s
      → canonical ≡ Json.string t
      → IsShort s t
      → NoLonger value canonical
  NoLonger-short value canonical s t read printed short = rw (read, printed) (inr short)

  -- Both texts after 0x.
  prefixed-IsShort :
      (s hex : String) (b : List ℕ)
      → strip_prefix "0x" s ≡ some hex
      → IsShort hex (codecs.hex_encode b)
      → IsShort s (prefix_hex (codecs.hex_encode b))
  prefixed-IsShort s hex b h (short, plain) =
      (omega (arith, length-strip_prefix "0x" s hex h, short), ground (arith, plain))

  parse_value-NoLonger :
      (path : List Segment) (ty : ValueType) (value : Json) (v : FilterValue) (canonical : Json)
      → parse_value codecs path ty value ≡ ok (v, canonical)
      → NoLonger value canonical
  unfolding parse_value
  parse_value-NoLonger path (ValueType.uint bits) value v canonical h =
      let (s, n, read, form, coerced, printed) =
        parse_uint-eq-ok codecs path bits value v canonical h in
      NoLonger-short value canonical s (codecs.show_uint n) read printed
        (compact.uint bits s n form coerced)
  parse_value-NoLonger path (ValueType.int bits) value v canonical h =
      let (s, n, read, form, coerced, printed) =
        parse_int-eq-ok codecs path bits value v canonical h in
      NoLonger-short value canonical s (codecs.show_int n) read printed
        (compact.int bits s n form coerced)
  parse_value-NoLonger path ValueType.bool value v canonical h =
      let (b, read, printed) = parse_bool-eq-ok codecs path value v canonical h in
      rw (read, printed) refl
  parse_value-NoLonger path ValueType.address value v canonical h =
      let (s, a, read, form, parsed, printed) =
        parse_address-eq-ok codecs path value v canonical h in
      NoLonger-short value canonical s (codecs.show_address a) read printed
        (compact.address s a form parsed)
  parse_value-NoLonger path ValueType.string value v canonical h =
      let (s, read, printed) = parse_string-eq-ok codecs path value v canonical h in
      rw (read, printed) (inl refl)
  parse_value-NoLonger path (ValueType.bytes size) value v canonical h =
      let (s, hex, b, read, prefixed, form, decoded, printed) =
        parse_bytes-eq-ok codecs path size value v canonical h in
      NoLonger-short value canonical s (prefix_hex (codecs.hex_encode b)) read printed
        (prefixed-IsShort s hex b prefixed (compact.hex hex b form decoded))

  -- What `prepare` persists compiles again to the same filter.
  pub prepare-compiles :
      (laws : AreCanonical codecs) (e : FilterExpression) (target : Target)
      (definition : FilterDefinition) (filter : Filter)
      → prepare codecs e target ≡ ok (definition, filter)
      → compile codecs definition target ≡ ok filter
  unfolding prepare
  prepare-compiles laws e target definition filter h =
      let (u, valid, after) = >>=-eq-ok (validate_limits codecs e) _ h in
      let ((source, c), compiled, result) =
        >>=-eq-ok (compile_expression codecs target e root) _ after in
      let (bytes, encoded, fits, nodes, levels, branching) =
        (validate_limits_iff codecs e).0 valid in
      let tree =
        compile-SameTree NoLonger codecs target parse_value-NoLonger e root source c compiled in
      let (fewer, again, less) = compact.encoded e source bytes tree encoded in
      let is : source ≡ definition.expression = ground (arith, result) in
      prepare-compile codecs laws target e definition filter fewer h
        (ap codecs.encoded_len (sym is) ∙ again) (omega (arith, fits, less))
