-- ===== src/Filter/Meaning.antt =====
-- A compiled filter of parseon-core/src/filter.rs never fails on a result that fits the schema that
-- it was compiled against, and its loops compute plain conjunctions and disjunctions.
use parseon.Common.{
  ℕ, ◌+◌, ◌≡◌, refl, inl, inr, Bool, true, false, not, ◌&&◌, ◌||◌, List, [], ◌∷◌, ◌++◌, arith,
  Result, ok, err, ◌>>=◌, Result-cases, subst,
}
use parseon.Common.Eq.{string_eq}
use parseon.Model.{Target}
use parseon.Filter.Ast.{
  Comparison, ComparisonOperator, FilterExpression, Expressions, ResolvedField, FilterValue,
  ValueType, RuntimeValue, CompiledExpression, CompiledExpressions, FilterContext, Segment, key,
  index, FilterError, Codecs,
}
use parseon.Filter.Fields.{resolve_field}
use parseon.Filter.Literals.{parse_value}
use parseon.Filter.Compile.{compile_comparison, compile_expression, compile_all}
use parseon.Filter.Evaluate.{resolve_value, compare, evaluate, evaluate_and, evaluate_or}
use parseon.Filter.Kinds.{
  kind_of_runtime, kind_of_literal, Conforms, Resolves, Resolves-field, parse_value-kind,
  kind_of_type,
}

-- Whether an evaluation found the value true.
abbrev pub is_true : Result FilterError Bool → Bool
is_true (ok b) = b
is_true (err e) = false

compare-total :
    (v : RuntimeValue) (op : ComparisonOperator) (w : FilterValue)
    → kind_of_runtime v ≡ kind_of_literal w
    → compare v op w ≡ ok (is_true (compare v op w))
unfolding compare
compare-total v op w h = ground arith

-- What an expression means: conjunction and disjunction over all children, with no short cut.
unfoldable mutual
  pub meaning : CompiledExpression → FilterContext → Bool
  meaning (CompiledExpression.and es) context = meaning_and es context
  meaning (CompiledExpression.or es) context = meaning_or es context
  meaning (CompiledExpression.not e) context = not (meaning e context)
  meaning (CompiledExpression.compare field op value) context =
      is_true (do left ← resolve_value field context; compare left op value)

  pub meaning_and : CompiledExpressions → FilterContext → Bool
  meaning_and CompiledExpressions.nil context = true
  meaning_and (CompiledExpressions.cons e es) context = meaning e context && meaning_and es context

  pub meaning_or : CompiledExpressions → FilterContext → Bool
  meaning_or CompiledExpressions.nil context = false
  meaning_or (CompiledExpressions.cons e es) context = meaning e context || meaning_or es context

-- Every comparison in the expression is between values of one kind.
unfoldable mutual
  pub IsTyped : FilterContext → CompiledExpression → Type 0
  IsTyped context (CompiledExpression.and es) = AreTyped context es
  IsTyped context (CompiledExpression.or es) = AreTyped context es
  IsTyped context (CompiledExpression.not e) = IsTyped context e
  IsTyped context (CompiledExpression.compare field op value) =
      (v : RuntimeValue) × (resolve_value field context ≡ ok v)
      × (kind_of_runtime v ≡ kind_of_literal value)

  pub AreTyped : FilterContext → CompiledExpressions → Type 0
  AreTyped context CompiledExpressions.nil = Unit
  AreTyped context (CompiledExpressions.cons e es) = IsTyped context e × AreTyped context es

mutual
  unfolding evaluate meaning IsTyped

  evaluate-meaning :
      (e : CompiledExpression) (context : FilterContext)
      → IsTyped context e
      → evaluate e context ≡ ok (meaning e context)
  evaluate-meaning (CompiledExpression.and es) context t = evaluate_and-meaning es context t
  evaluate-meaning (CompiledExpression.or es) context t = evaluate_or-meaning es context t
  evaluate-meaning (CompiledExpression.not e) context t = rw (evaluate-meaning e context t)
  evaluate-meaning (CompiledExpression.compare field op value) context (v, a, b) =
      rw a (compare-total v op value b)

  evaluate_and-meaning :
      (es : CompiledExpressions) (context : FilterContext)
      → AreTyped context es
      → evaluate_and es context ≡ ok (meaning_and es context)
  evaluate_and-meaning CompiledExpressions.nil context t = refl
  evaluate_and-meaning (CompiledExpressions.cons e es) context t =
      ground (arith, evaluate-meaning e context t.0, evaluate_and-meaning es context t.1)

  evaluate_or-meaning :
      (es : CompiledExpressions) (context : FilterContext)
      → AreTyped context es
      → evaluate_or es context ≡ ok (meaning_or es context)
  evaluate_or-meaning CompiledExpressions.nil context t = refl
  evaluate_or-meaning (CompiledExpressions.cons e es) context t =
      ground (arith, evaluate-meaning e context t.0, evaluate_or-meaning es context t.1)

comparison-IsTyped :
    (context : FilterContext) (field : ResolvedField) (ty : ValueType) (op : ComparisonOperator)
    (w : FilterValue)
    → Resolves field ty context
    → kind_of_literal w ≡ kind_of_type ty
    → IsTyped context (CompiledExpression.compare field op w)
unfolding IsTyped
comparison-IsTyped context field ty op w r k = elim (Result-cases (resolve_value field context)) [
  | inl (v, e) ↦ (v, e, ground arith)
  | inr (failure, e) ↦ absurd (ground arith)
]

module _ (codecs : Codecs) (target : Target) (context : FilterContext)
    (fits : Conforms target context) where
  compile_comparison-IsTyped :
      (value : Comparison) (path : List Segment) (source : FilterExpression)
      (c : CompiledExpression)
      → compile_comparison codecs target value path ≡ ok (source, c)
      → IsTyped context c
  unfolding compile_comparison IsTyped
  compile_comparison-IsTyped value path source c h =
      elim (Result-cases (resolve_field target value.field (path ++ key "field" ∷ []))) [
        | inr (failure, e) ↦ absurd (ground arith)
        | inl ((field, ty), e) ↦
            elim (Result-cases (parse_value codecs (path ++ key "value" ∷ []) ty value.value)) [
              | inr (failure, e') ↦ absurd (ground arith)
              | inl ((w, canonical), e') ↦
                  let q : CompiledExpression.compare field value.op w ≡ c = ground arith in
                  subst (IsTyped context) q (
                    comparison-IsTyped context field ty value.op w
                      (Resolves-field target value.field _ context field ty fits e)
                      (parse_value-kind codecs _ ty value.value w canonical e'))
            ]
      ]

  mutual
    unfolding compile_expression IsTyped

    compile-IsTyped :
        (e : FilterExpression) (path : List Segment) (source : FilterExpression)
        (c : CompiledExpression)
        → compile_expression codecs target e path ≡ ok (source, c)
        → IsTyped context c
    compile-IsTyped (FilterExpression.and es) path source c h =
        elim (Result-cases (compile_all codecs target es (path ++ key "and" ∷ []) 0)) [
          | inl ((sources, cs), e) ↦
              let q : CompiledExpression.and cs ≡ c = ground arith in
              subst (IsTyped context) q (compile_all-AreTyped es _ 0 sources cs e)
          | inr (failure, e) ↦ absurd (ground arith)
        ]
    compile-IsTyped (FilterExpression.or es) path source c h =
        elim (Result-cases (compile_all codecs target es (path ++ key "or" ∷ []) 0)) [
          | inl ((sources, cs), e) ↦
              let q : CompiledExpression.or cs ≡ c = ground arith in
              subst (IsTyped context) q (compile_all-AreTyped es _ 0 sources cs e)
          | inr (failure, e) ↦ absurd (ground arith)
        ]
    compile-IsTyped (FilterExpression.not f) path source c h =
        elim (Result-cases (compile_expression codecs target f (path ++ key "not" ∷ []))) [
          | inl ((inner, d), e) ↦
              let q : CompiledExpression.not d ≡ c = ground arith in
              subst (IsTyped context) q (compile-IsTyped f _ inner d e)
          | inr (failure, e) ↦ absurd (ground arith)
        ]
    compile-IsTyped (FilterExpression.compare value) path source c h =
        compile_comparison-IsTyped value path source c h

    compile_all-AreTyped :
        (es : Expressions) (path : List Segment) (i : ℕ) (sources : Expressions)
        (cs : CompiledExpressions)
        → compile_all codecs target es path i ≡ ok (sources, cs)
        → AreTyped context cs
    compile_all-AreTyped Expressions.nil path i sources cs h =
        let q : CompiledExpressions.nil ≡ cs = ground arith in subst (AreTyped context) q tt
    compile_all-AreTyped (Expressions.cons f es) path i sources cs h =
        elim (Result-cases (compile_expression codecs target f (path ++ index i ∷ []))) [
          | inr (failure, e) ↦ absurd (ground arith)
          | inl ((inner, d), e) ↦ elim (Result-cases (compile_all codecs target es path (i + 1))) [
            | inr (failure, e') ↦ absurd (ground arith)
            | inl ((others, ds), e') ↦
                let q : CompiledExpressions.cons d ds ≡ cs = ground arith in
                subst (AreTyped context) q
                  (compile-IsTyped f _ inner d e, compile_all-AreTyped es path (i + 1) others ds e')
          ]
        ]

  -- The evaluation of a filter that was compiled against a target, on a context of the target's kind whose
  -- values have the kinds of its schema: no error, and the value of the plain conjunctions and
  -- disjunctions.
  pub compile-evaluate :
      (e : FilterExpression) (path : List Segment) (source : FilterExpression)
      (c : CompiledExpression)
      → compile_expression codecs target e path ≡ ok (source, c)
      → evaluate c context ≡ ok (meaning c context)
  compile-evaluate e path source c h =
      evaluate-meaning c context (compile-IsTyped e path source c h)
