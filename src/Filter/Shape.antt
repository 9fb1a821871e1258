-- ===== src/Filter/Shape.antt =====
-- What `compile_expression` of parseon-core/src/filter.rs keeps of an expression: all but its literals, so that the
-- canonical form is within the limits on nodes, depth and children where the source is.
use parseon.Common.{
  ℕ, ◌+◌, ◌≡◌, refl, ap, inl, inr, List, [], ◌∷◌, ◌++◌, arith, ok, Result-cases, subst, suc,
}
use parseon.Model.{Target}
use parseon.Filter.Ast.{
  Json, Comparison, FilterExpression, Expressions, FilterValue, ValueType, CompiledExpression,
  CompiledExpressions, Segment, key, index, Codecs,
}
use parseon.Filter.Limits.{length_of}
use parseon.Filter.Limits.Counts.{count, count_all, height, height_all, IsBranching, AreBranching}
use parseon.Filter.Fields.{resolve_field}
use parseon.Filter.Literals.{parse_value}
use parseon.Filter.Compile.{compile_comparison, compile_expression, compile_all}

-- The same tree but for its literals: the same connectives over the same number of children in the same order, and
-- comparisons of the same fields by the same operators, with literals that are related.
module _ (Related : Json → Json → Type 0) where
  unfoldable mutual
    pub SameTree : FilterExpression → FilterExpression → Type 0
    SameTree (FilterExpression.and es) (FilterExpression.and fs) = SameTrees es fs
    SameTree (FilterExpression.or es) (FilterExpression.or fs) = SameTrees es fs
    SameTree (FilterExpression.not e) (FilterExpression.not f) = SameTree e f
    SameTree (FilterExpression.compare c) (FilterExpression.compare d) =
        (d.field ≡ c.field) × (d.op ≡ c.op) × Related c.value d.value
    SameTree _ _ = ⊥

    pub SameTrees : Expressions → Expressions → Type 0
    SameTrees Expressions.nil Expressions.nil = Unit
    SameTrees (Expressions.cons e es) (Expressions.cons f fs) = SameTree e f × SameTrees es fs
    SameTrees _ _ = ⊥

  module _ (codecs : Codecs) (target : Target)
      (values : (path : List Segment) (ty : ValueType) (value : Json) (v : FilterValue)
          (canonical : Json)
        → parse_value codecs path ty value ≡ ok (v, canonical)
        → Related value canonical) where
    compile_comparison-SameTree :
        (value : Comparison) (path : List Segment) (source : FilterExpression)
        (c : CompiledExpression)
        → compile_comparison codecs target value path ≡ ok (source, c)
        → SameTree (FilterExpression.compare value) source
    unfolding compile_comparison SameTree
    compile_comparison-SameTree value path source c h =
        elim (Result-cases (resolve_field target value.field (path ++ key "field" ∷ []))) [
          | inr (failure, e) ↦ absurd (ground arith)
          | inl ((field, ty), e) ↦
              elim (Result-cases (parse_value codecs (path ++ key "value" ∷ []) ty value.value)) [
                | inr (failure, e') ↦ absurd (ground arith)
                | inl ((w, canonical), e') ↦
                    let q : FilterExpression.compare (record value { value = canonical }) ≡ source =
                      ground arith in
                    subst (SameTree (FilterExpression.compare value)) q
                      (refl, refl, values (path ++ key "value" ∷ []) ty value.value w canonical e')
              ]
        ]

    mutual
      unfolding compile_expression SameTree

      pub compile-SameTree :
          (e : FilterExpression) (path : List Segment) (source : FilterExpression)
          (c : CompiledExpression)
          → compile_expression codecs target e path ≡ ok (source, c)
          → SameTree e source
      compile-SameTree (FilterExpression.and es) path source c h =
          elim (Result-cases (compile_all codecs target es (path ++ key "and" ∷ []) 0)) [
            | inr (failure, e) ↦ absurd (ground arith)
            | inl ((sources, cs), e) ↦
                let q : FilterExpression.and sources ≡ source = ground arith in
                subst (SameTree (FilterExpression.and es)) q
                  (compile_all-SameTrees es (path ++ key "and" ∷ []) 0 sources cs e)
          ]
      compile-SameTree (FilterExpression.or es) path source c h =
          elim (Result-cases (compile_all codecs target es (path ++ key "or" ∷ []) 0)) [
            | inr (failure, e) ↦ absurd (ground arith)
            | inl ((sources, cs), e) ↦
                let q : FilterExpression.or sources ≡ source = ground arith in
                subst (SameTree (FilterExpression.or es)) q
                  (compile_all-SameTrees es (path ++ key "or" ∷ []) 0 sources cs e)
          ]
      compile-SameTree (FilterExpression.not f) path source c h =
          elim (Result-cases (compile_expression codecs target f (path ++ key "not" ∷ []))) [
            | inr (failure, e) ↦ absurd (ground arith)
            | inl ((inner, d), e) ↦
                let q : FilterExpression.not inner ≡ source = ground arith in
                subst (SameTree (FilterExpression.not f)) q
                  (compile-SameTree f (path ++ key "not" ∷ []) inner d e)
          ]
      compile-SameTree (FilterExpression.compare value) path source c h =
          compile_comparison-SameTree value path source c h

      compile_all-SameTrees :
          (es : Expressions) (path : List Segment) (i : ℕ) (sources : Expressions)
          (cs : CompiledExpressions)
          → compile_all codecs target es path i ≡ ok (sources, cs)
          → SameTrees es sources
      compile_all-SameTrees Expressions.nil path i sources cs h =
          let q : Expressions.nil ≡ sources = ground arith in subst (SameTrees Expressions.nil) q tt
      compile_all-SameTrees (Expressions.cons f es) path i sources cs h =
          elim (Result-cases (compile_expression codecs target f (path ++ index i ∷ []))) [
            | inr (failure, e) ↦ absurd (ground arith)
            | inl ((inner, d), e) ↦
                elim (Result-cases (compile_all codecs target es path (i + 1))) [
                  | inr (failure, e') ↦ absurd (ground arith)
                  | inl ((others, ds), e') ↦
                      let q : Expressions.cons inner others ≡ sources = ground arith in
                      subst (SameTrees (Expressions.cons f es)) q (
                        compile-SameTree f (path ++ index i ∷ []) inner d e,
                        compile_all-SameTrees es path (i + 1) others ds e',
                      )
                ]
          ]

-- The limits see no literals.
pub record SameShape (e f : FilterExpression) : Type 0 where
  pub nodes : count f ≡ count e
  pub levels : height f ≡ height e
  pub branching : IsBranching e → IsBranching f

record SameShapes (es fs : Expressions) : Type 0 where
  pub children : length_of fs ≡ length_of es
  pub nodes : count_all fs ≡ count_all es
  pub levels : height_all fs ≡ height_all es
  pub branching : AreBranching es → AreBranching fs

module _ (Related : Json → Json → Type 0) where
  mutual
    unfolding SameTree count height IsBranching length_of

    pub SameTree-SameShape : (e f : FilterExpression) → SameTree Related e f → SameShape e f
    SameTree-SameShape (FilterExpression.and es) (FilterExpression.and fs) h =
        let s = SameTrees-SameShapes es fs h in
        record {
          nodes = ap suc s.nodes;
          levels = ap suc s.levels;
          branching = λ k. (rw s.children k.0, rw s.children k.1, s.branching k.2);
        }
    SameTree-SameShape (FilterExpression.or es) (FilterExpression.or fs) h =
        let s = SameTrees-SameShapes es fs h in
        record {
          nodes = ap suc s.nodes;
          levels = ap suc s.levels;
          branching = λ k. (rw s.children k.0, rw s.children k.1, s.branching k.2);
        }
    SameTree-SameShape (FilterExpression.not e) (FilterExpression.not f) h =
        let s = SameTree-SameShape e f h in
        record { nodes = ap suc s.nodes; levels = ap suc s.levels; branching = s.branching }
    SameTree-SameShape (FilterExpression.compare c) (FilterExpression.compare d) h = record {
      nodes = refl;
      levels = refl;
      branching = λ k. tt;
    }
    SameTree-SameShape _ _ h = absurd h

    SameTrees-SameShapes : (es fs : Expressions) → SameTrees Related es fs → SameShapes es fs
    SameTrees-SameShapes Expressions.nil Expressions.nil h = record {
      children = refl;
      nodes = refl;
      levels = refl;
      branching = λ k. tt;
    }
    SameTrees-SameShapes (Expressions.cons e es) (Expressions.cons f fs) h =
        let s = SameTree-SameShape e f h.0 in
        let t = SameTrees-SameShapes es fs h.1 in
        record {
          children = ap suc t.children;
          nodes = rw (s.nodes, t.nodes) refl;
          levels = rw (s.levels, t.levels) refl;
          branching = λ k. (s.branching k.0, t.branching k.1);
        }
    SameTrees-SameShapes _ _ h = absurd h
