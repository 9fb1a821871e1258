-- ===== src/Filter/Canonical.antt =====
-- The canonical form of a filter in parseon-core/src/filter.rs: what `prepare` persists compiles again
-- to the same filter.
use parseon.Common.{
  ℕ, ◌+◌, ◌≤◌, ◌≡◌, inl, inr, true, Option, some, List, [], ◌∷◌, ◌++◌, String, arith, ok,
  Option-cases, Result-cases, subst,
}
use parseon.Common.Text.{strip_prefix}
use parseon.Common.Int.{ℤ}
use parseon.Model.{Target}
use parseon.Filter.Ast.{
  Json, Comparison, FilterExpression, Expressions, FilterValue, ValueType, CompiledExpression,
  CompiledExpressions, Filter, Segment, key, index, FilterDefinition, Codecs,
}
use parseon.Filter.Limits.{max_bytes, root, validate_limits}
use parseon.Filter.Limits.Counts.{validate_limits_iff}
use parseon.Filter.Fields.{resolve_field}
use parseon.Filter.Literals.{
  parse_value, parse_uint, parse_int, parse_address, parse_bytes, is_decimal, is_signed_decimal,
  is_address, is_even_hex, has_size, prefix_hex,
}
use parseon.Filter.Compile.{compile_comparison, compile_expression, compile_all}
use parseon.Filter.Shape.{SameShape, SameTree-SameShape, compile-SameTree}
use parseon.Filter.Definition.{prepare, compile}

-- What alloy and hex document of their printers: a printed value has the form that the parser asks
-- for, and parses to the same value.
pub record AreCanonical (codecs : Codecs) : Type 0 where
  pub uint :
      (bits : ℕ) (s : String) (v : ℕ)
      → codecs.coerce_uint bits s ≡ some v
      → (is_decimal (codecs.show_uint v) ≡ true)
        × (codecs.coerce_uint bits (codecs.show_uint v) ≡ some v)
  pub int :
      (bits : ℕ) (s : String) (v : ℤ)
      → codecs.coerce_int bits s ≡ some v
      → (is_signed_decimal (codecs.show_int v) ≡ true)
        × (codecs.coerce_int bits (codecs.show_int v) ≡ some v)
  pub address :
      (s : String) (a : List ℕ)
      → codecs.parse_address s ≡ some a
      → (is_address (codecs.show_address a) ≡ true)
        × (codecs.parse_address (codecs.show_address a) ≡ some a)
  pub hex :
      (s : String) (b : List ℕ)
      → codecs.hex_decode s ≡ some b
      → (is_even_hex (codecs.hex_encode b) ≡ true)
        × (codecs.hex_decode (codecs.hex_encode b) ≡ some b)

module _ (codecs : Codecs) (laws : AreCanonical codecs) (path : List Segment) where
  parse_uint-canonical :
      (bits : ℕ) (j : Json) (w : FilterValue) (c : Json)
      → parse_uint codecs path bits j ≡ ok (w, c)
      → parse_uint codecs path bits c ≡ ok (w, c)
  unfolding parse_uint
  parse_uint-canonical bits (Json.string s) w c h =
      elim (Option-cases (codecs.coerce_uint bits s)) [
        | inl e ↦ absurd (ground arith)
        | inr (v, e) ↦ ground (arith, laws.uint bits s v e)
      ]
  parse_uint-canonical bits _ w c h = absurd (cc)

  parse_int-canonical :
      (bits : ℕ) (j : Json) (w : FilterValue) (c : Json)
      → parse_int codecs path bits j ≡ ok (w, c)
      → parse_int codecs path bits c ≡ ok (w, c)
  unfolding parse_int
  parse_int-canonical bits (Json.string s) w c h = elim (Option-cases (codecs.coerce_int bits s)) [
    | inl e ↦ absurd (ground arith)
    | inr (v, e) ↦ ground (arith, laws.int bits s v e)
  ]
  parse_int-canonical bits _ w c h = absurd (cc)

  parse_address-canonical :
      (j : Json) (w : FilterValue) (c : Json)
      → parse_address codecs path j ≡ ok (w, c)
      → parse_address codecs path c ≡ ok (w, c)
  unfolding parse_address
  parse_address-canonical (Json.string s) w c h = elim (Option-cases (codecs.parse_address s)) [
    | inl e ↦ absurd (ground arith)
    | inr (v, e) ↦ ground (arith, laws.address s v e)
  ]
  parse_address-canonical _ w c h = absurd (cc)

  parse_bytes-encode :
      (size : Option ℕ) (hex : String) (b : List ℕ)
      → codecs.hex_decode hex ≡ some b
      → has_size size b ≡ true
      → parse_bytes codecs path size (Json.string (prefix_hex (codecs.hex_encode b)))
        ≡ ok (FilterValue.bytes b, Json.string (prefix_hex (codecs.hex_encode b)))
  unfolding parse_bytes
  parse_bytes-encode size hex b e fits =
      let (even, back) = laws.hex hex b e in rw (even, back, fits)

  parse_bytes-canonical :
      (size : Option ℕ) (j : Json) (w : FilterValue) (c : Json)
      → parse_bytes codecs path size j ≡ ok (w, c)
      → parse_bytes codecs path size c ≡ ok (w, c)
  unfolding parse_bytes
  parse_bytes-canonical size (Json.string s) w c h = elim (Option-cases (strip_prefix "0x" s)) [
    | inl e ↦ absurd (ground arith)
    | inr (hex, e) ↦ elim (Option-cases (codecs.hex_decode hex)) [
      | inl e' ↦ absurd (ground arith)
      | inr (b, e') ↦
          let fits : has_size size b ≡ true = ground arith in
          let q : ◌≡◌ {A = FilterValue × Json}
              (FilterValue.bytes b, Json.string (prefix_hex (codecs.hex_encode b))) (w, c) =
            ground arith in
          subst (λ (x : FilterValue × Json). parse_bytes codecs path size x.1 ≡ ok x) q
            (parse_bytes-encode size hex b e' fits)
    ]
  ]
  parse_bytes-canonical size _ w c h = absurd (cc)

  parse_value-canonical :
      (ty : ValueType) (j : Json) (w : FilterValue) (c : Json)
      → parse_value codecs path ty j ≡ ok (w, c)
      → parse_value codecs path ty c ≡ ok (w, c)
  unfolding parse_value
  parse_value-canonical (ValueType.uint bits) j w c h = parse_uint-canonical bits j w c h
  parse_value-canonical (ValueType.int bits) j w c h = parse_int-canonical bits j w c h
  parse_value-canonical ValueType.bool j w c h = ground arith
  parse_value-canonical ValueType.address j w c h = parse_address-canonical j w c h
  parse_value-canonical ValueType.string j w c h = ground arith
  parse_value-canonical (ValueType.bytes size) j w c h = parse_bytes-canonical size j w c h

module _ (codecs : Codecs) (laws : AreCanonical codecs) (target : Target) where
  compile_comparison-canonical :
      (value : Comparison) (path : List Segment) (source : FilterExpression)
      (c : CompiledExpression)
      → compile_comparison codecs target value path ≡ ok (source, c)
      → compile_expression codecs target source path ≡ ok (source, c)
  unfolding compile_expression
  compile_comparison-canonical value path source c h =
      elim (Result-cases (resolve_field target value.field (path ++ key "field" ∷ []))) [
        | inr (failure, e) ↦ absurd (ground arith)
        | inl ((field, ty), e) ↦
            elim (Result-cases (parse_value codecs (path ++ key "value" ∷ []) ty value.value)) [
              | inr (failure, e') ↦ absurd (ground arith)
              | inl ((w, canonical), e') ↦
                  let again =
                    parse_value-canonical codecs laws (path ++ key "value" ∷ []) ty value.value w
                      canonical e' in
                  let q : FilterExpression.compare (record value { value = canonical }) ≡ source =
                    ground arith in
                  subst (λ x. compile_expression codecs target x path ≡ ok (x, c)) q (ground arith)
            ]
      ]

  mutual
    unfolding compile_expression

    compile-canonical :
        (e : FilterExpression) (path : List Segment) (source : FilterExpression)
        (c : CompiledExpression)
        → compile_expression codecs target e path ≡ ok (source, c)
        → compile_expression codecs target source path ≡ ok (source, c)
    compile-canonical (FilterExpression.and es) path source c h =
        elim (Result-cases (compile_all codecs target es (path ++ key "and" ∷ []) 0)) [
          | inr (failure, e) ↦ absurd (ground arith)
          | inl ((sources, cs), e) ↦
              let again = compile_all-canonical es (path ++ key "and" ∷ []) 0 sources cs e in
              let q : FilterExpression.and sources ≡ source = ground arith in
              subst (λ x. compile_expression codecs target x path ≡ ok (x, c)) q (ground arith)
        ]
    compile-canonical (FilterExpression.or es) path source c h =
        elim (Result-cases (compile_all codecs target es (path ++ key "or" ∷ []) 0)) [
          | inr (failure, e) ↦ absurd (ground arith)
          | inl ((sources, cs), e) ↦
              let again = compile_all-canonical es (path ++ key "or" ∷ []) 0 sources cs e in
              let q : FilterExpression.or sources ≡ source = ground arith in
              subst (λ x. compile_expression codecs target x path ≡ ok (x, c)) q (ground arith)
        ]
    compile-canonical (FilterExpression.not f) path source c h =
        elim (Result-cases (compile_expression codecs target f (path ++ key "not" ∷ []))) [
          | inr (failure, e) ↦ absurd (ground arith)
          | inl ((inner, d), e) ↦
              let again = compile-canonical f (path ++ key "not" ∷ []) inner d e in
              let q : FilterExpression.not inner ≡ source = ground arith in
              subst (λ x. compile_expression codecs target x path ≡ ok (x, c)) q (ground arith)
        ]
    compile-canonical (FilterExpression.compare value) path source c h =
        compile_comparison-canonical value path source c h

    compile_all-canonical :
        (es : Expressions) (path : List Segment) (i : ℕ) (sources : Expressions)
        (cs : CompiledExpressions)
        → compile_all codecs target es path i ≡ ok (sources, cs)
        → compile_all codecs target sources path i ≡ ok (sources, cs)
    compile_all-canonical Expressions.nil path i sources cs h =
        let q : Expressions.nil ≡ sources = ground arith in
        subst (λ x. compile_all codecs target x path i ≡ ok (x, cs)) q (ground arith)
    compile_all-canonical (Expressions.cons f es) path i sources cs h =
        elim (Result-cases (compile_expression codecs target f (path ++ index i ∷ []))) [
          | inr (failure, e) ↦ absurd (ground arith)
          | inl ((inner, d), e) ↦ elim (Result-cases (compile_all codecs target es path (i + 1))) [
            | inr (failure, e') ↦ absurd (ground arith)
            | inl ((others, ds), e') ↦
                let first = compile-canonical f (path ++ index i ∷ []) inner d e in
                let later = compile_all-canonical es path (i + 1) others ds e' in
                let q : Expressions.cons inner others ≡ sources = ground arith in
                subst (λ x. compile_all codecs target x path i ≡ ok (x, cs)) q (ground arith)
          ]
        ]

abbrev Any : Json → Json → Type 0
Any a b = Unit

module _ (codecs : Codecs) (laws : AreCanonical codecs) (target : Target) where
  -- What `prepare` returns for persistence compiles, at the next poll, to the same filter, if its
  -- canonical form still encodes within the limit on bytes and the printed values parse again.
  pub prepare-compile :
      (e : FilterExpression) (definition : FilterDefinition) (filter : Filter) (bytes : ℕ)
      → prepare codecs e target ≡ ok (definition, filter)
      → codecs.encoded_len definition.expression ≡ some bytes
      → bytes ≤ max_bytes
      → compile codecs definition target ≡ ok filter
  unfolding prepare compile
  prepare-compile e definition filter bytes h encoded fits =
      elim (Result-cases (validate_limits codecs e)) [
        | inr (failure, e₁) ↦ absurd (ground arith)
        | inl (_, e₁) ↦ elim (Result-cases (compile_expression codecs target e root)) [
          | inr (failure, e₂) ↦ absurd (ground arith)
          | inl ((source, c), e₂) ↦
              let (_, _, _, nodes, levels, branching) = (validate_limits_iff codecs e).0 e₁ in
              let shape : SameShape e source = SameTree-SameShape Any e source (
                compile-SameTree Any codecs target (λ path ty value v canonical h. tt) e root source
                  c e₂) in
              let q : definition.expression ≡ source = ground arith in
              let again = compile-canonical codecs laws target e root source c e₂ in
              let valid : validate_limits codecs source ≡ ok tt =
                (validate_limits_iff codecs source).1 (
                  bytes,
                  rw (← q) encoded,
                  fits,
                  omega arith,
                  omega arith,
                  shape.branching branching,
                ) in
              ground arith
        ]
      ]
