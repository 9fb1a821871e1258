-- ===== src/Filter/Compile.antt =====
-- `compile_expression` of parseon-core/src/filter.rs.
use parseon.Common.{
  ℕ, ◌+◌, Bool, true, false, not, ◌&&◌, List, [], ◌∷◌, ◌++◌, Result, ok, ◌>>=◌, ◌>>◌, ensure,
}
use parseon.Model.{Target}
use parseon.Filter.Ast.{
  ComparisonOperator, Comparison, FilterExpression, Expressions, ValueType, CompiledExpression,
  CompiledExpressions, Segment, key, index, Message, FilterError, Codecs,
}
use parseon.Filter.Limits.{error_at}
use parseon.Filter.Fields.{resolve_field}
use parseon.Filter.Literals.{parse_value}

-- `ComparisonOperator::ordered`
unfoldable pub ordered : ComparisonOperator → Bool
ordered ComparisonOperator.eq = false
ordered ComparisonOperator.ne = false
ordered _ = true

abbrev pub is_integer : ValueType → Bool
is_integer (ValueType.uint bits) = true
is_integer (ValueType.int bits) = true
is_integer _ = false

module _ (codecs : Codecs) (target : Target) where
  -- The `Compare` case.
  unfoldable pub compile_comparison :
      Comparison → List Segment → Result FilterError (FilterExpression × CompiledExpression)
  unfolding ordered
  compile_comparison value path = do
    (field, ty) ← resolve_field target value.field (path ++ key "field" ∷ [])
    ensure (not (ordered value.op && not (is_integer ty)))
        (error_at (path ++ key "op" ∷ []) (Message.needs_integer_field value.op))
    (literal, canonical) ← parse_value codecs (path ++ key "value" ∷ []) ty value.value
    ok (
      FilterExpression.compare (record value { value = canonical }),
      CompiledExpression.compare field value.op literal,
    )

  unfoldable mutual
    unfolding compile_comparison

    pub compile_expression :
        FilterExpression → List Segment → Result FilterError (FilterExpression × CompiledExpression)
    compile_expression (FilterExpression.and es) path = do
      (sources, compiled) ← compile_all es (path ++ key "and" ∷ []) 0
      ok (FilterExpression.and sources, CompiledExpression.and compiled)
    compile_expression (FilterExpression.or es) path = do
      (sources, compiled) ← compile_all es (path ++ key "or" ∷ []) 0
      ok (FilterExpression.or sources, CompiledExpression.or compiled)
    compile_expression (FilterExpression.not e) path = do
      (source, compiled) ← compile_expression e (path ++ key "not" ∷ [])
      ok (FilterExpression.not source, CompiledExpression.not compiled)
    compile_expression (FilterExpression.compare value) path = compile_comparison value path

    -- The iterator over the children, collected and unzipped.
    pub compile_all :
        Expressions → List Segment → ℕ → Result FilterError (Expressions × CompiledExpressions)
    compile_all Expressions.nil path i = ok (Expressions.nil, CompiledExpressions.nil)
    compile_all (Expressions.cons e es) path i = do
      (source, compiled) ← compile_expression e (path ++ index i ∷ [])
      (sources, rest) ← compile_all es path (i + 1)
      ok (Expressions.cons source sources, CompiledExpressions.cons compiled rest)
