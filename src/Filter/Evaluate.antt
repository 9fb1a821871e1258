-- ===== src/Filter/Evaluate.antt =====
-- The evaluator of parseon-core/src/filter.rs: `resolve_value`, `compare` and `evaluate`.
use parseon.Common.{
  ℕ, Bool, true, false, not, Option, none, some, List, [], ◌∷◌, eqb, ltb, if◌then◌else◌, Result, ok,
  err, ◌>>=◌, get_elem?,
}
use parseon.Common.Eq.{◌==◌, list_eq, nat_eq, string_eq, bool_eq}
use parseon.Common.Int.{eqb_ℤ, ltb_ℤ}
use parseon.Common.Text.{codes}
use parseon.Model.{Bytes, DecodedValue}
use parseon.Filter.Ast.{
  ComparisonOperator, ResolvedField, FilterValue, RuntimeValue, CompiledExpression,
  CompiledExpressions, Filter, FilterContext, Message, FilterError,
}
use parseon.Filter.Limits.{error_at, root}

-- `FilterContext::params`
abbrev pub params : FilterContext → List DecodedValue
params (FilterContext.call c) = c.params
params (FilterContext.event c) = c.params

abbrev pub to_runtime : DecodedValue → RuntimeValue
to_runtime (DecodedValue.uint v) = RuntimeValue.uint v
to_runtime (DecodedValue.int v) = RuntimeValue.int v
to_runtime (DecodedValue.bool v) = RuntimeValue.bool v
to_runtime (DecodedValue.address v) = RuntimeValue.address v
to_runtime (DecodedValue.string v) = RuntimeValue.string v
to_runtime (DecodedValue.bytes v) = RuntimeValue.bytes v

abbrev pub get_param : Option DecodedValue → Result FilterError RuntimeValue
get_param (some v) = ok (to_runtime v)
get_param none = err (error_at root Message.parameter_index_missing)

unfoldable pub resolve_value : ResolvedField → FilterContext → Result FilterError RuntimeValue
resolve_value ResolvedField.block_number (FilterContext.call c) =
    ok (RuntimeValue.uint c.block_number)
resolve_value ResolvedField.block_number (FilterContext.event c) =
    ok (RuntimeValue.uint c.block_number)
resolve_value ResolvedField.transaction_hash (FilterContext.call c) =
    ok (RuntimeValue.bytes32 c.tx_hash)
resolve_value ResolvedField.transaction_hash (FilterContext.event c) =
    ok (RuntimeValue.bytes32 c.tx_hash)
resolve_value ResolvedField.call_from (FilterContext.call c) = ok (RuntimeValue.address c.from)
resolve_value ResolvedField.call_to (FilterContext.call c) = ok (RuntimeValue.address c.to)
resolve_value ResolvedField.event_emitter (FilterContext.event c) =
    ok (RuntimeValue.address c.emitter)
resolve_value ResolvedField.event_log_index (FilterContext.event c) =
    ok (RuntimeValue.uint c.log_index)
resolve_value (ResolvedField.parameter i) context = get_param (get_elem? (params context) i)
resolve_value _ _ = err (error_at root Message.field_unavailable)

-- `Ord` of a byte slice or of a text: the lexicographic order.
unfoldable pub ltb_list : List ℕ → List ℕ → Bool
ltb_list [] [] = false
ltb_list [] (b ∷ bs) = true
ltb_list (a ∷ as') [] = false
ltb_list (a ∷ as') (b ∷ bs) =
    let rest = ltb_list as' bs in if ltb a b then true else if eqb a b then rest else false

abbrev pub ltb_bool : Bool → Bool → Bool
ltb_bool false true = true
ltb_bool _ _ = false

-- `apply`, over the equality and the strict order of a type with a total order.
unfoldable pub apply :
    {A : Type 0} → (A → A → Bool) → (A → A → Bool) → A → ComparisonOperator → A → Bool
apply equal less left ComparisonOperator.eq right = equal left right
apply equal less left ComparisonOperator.ne right = not (equal left right)
apply equal less left ComparisonOperator.gt right = less right left
apply equal less left ComparisonOperator.gte right = not (less left right)
apply equal less left ComparisonOperator.lt right = less left right
apply equal less left ComparisonOperator.lte right = not (less right left)

abbrev pub apply_bytes : Bytes → ComparisonOperator → Bytes → Bool
apply_bytes = apply ◌==◌ ltb_list

unfoldable pub compare : RuntimeValue → ComparisonOperator → FilterValue → Result FilterError Bool
unfolding apply ltb_list
compare (RuntimeValue.uint l) op (FilterValue.uint r) = ok (apply eqb ltb l op r)
compare (RuntimeValue.int l) op (FilterValue.int r) = ok (apply eqb_ℤ ltb_ℤ l op r)
compare (RuntimeValue.bool l) op (FilterValue.bool r) = ok (apply ◌==◌ ltb_bool l op r)
compare (RuntimeValue.address l) op (FilterValue.address r) = ok (apply_bytes l op r)
compare (RuntimeValue.string l) op (FilterValue.string r) =
    ok (apply ◌==◌ (λ a b. ltb_list (codes a) (codes b)) l op r)
compare (RuntimeValue.bytes32 l) op (FilterValue.bytes r) = ok (apply_bytes l op r)
compare (RuntimeValue.bytes l) op (FilterValue.bytes r) = ok (apply_bytes l op r)
compare _ _ _ = err (error_at root Message.type_mismatch)

-- `CompiledExpression::evaluate`: the loops over the children stop at the first that decides.
unfoldable mutual
  unfolding resolve_value compare

  pub evaluate : CompiledExpression → FilterContext → Result FilterError Bool
  evaluate (CompiledExpression.and es) context = evaluate_and es context
  evaluate (CompiledExpression.or es) context = evaluate_or es context
  evaluate (CompiledExpression.not e) context = do b ← evaluate e context; ok (not b)
  evaluate (CompiledExpression.compare field op value) context = do
    left ← resolve_value field context
    compare left op value

  pub evaluate_and : CompiledExpressions → FilterContext → Result FilterError Bool
  evaluate_and CompiledExpressions.nil context = ok true
  evaluate_and (CompiledExpressions.cons e es) context = do
    b ← evaluate e context
    let rest = evaluate_and es context
    if not b then ok false else rest

  pub evaluate_or : CompiledExpressions → FilterContext → Result FilterError Bool
  evaluate_or CompiledExpressions.nil context = ok false
  evaluate_or (CompiledExpressions.cons e es) context = do
    b ← evaluate e context
    let rest = evaluate_or es context
    if b then ok true else rest

-- `Filter::evaluate`
unfoldable pub evaluate_filter : Filter → FilterContext → Result FilterError Bool
unfolding evaluate
evaluate_filter Filter.all context = ok true
evaluate_filter (Filter.expr e) context = evaluate e context
