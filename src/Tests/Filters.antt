-- ===== src/Tests/Filters.antt =====
-- Filters of parseon-core/src/filter.rs at concrete inputs.
use parseon.Common.{ℕ, ◌≡◌, refl, ◌↔◌, true, false, [], ◌∷◌, ok, arith, ◌≤◌}
use parseon.Common.Int.{pos}
use parseon.Model.{Target, DecodedValue}
use parseon.Filter.Ast.{Filter, FilterContext, FilterDefinition}
use parseon.Filter.Limits.{root, validate_limits, max_bytes}
use parseon.Filter.Limits.Counts.{IsWithinLimits, validate_limits_iff}
use parseon.Filter.Fields.{resolve_field, value_type}
use parseon.Filter.Literals.{parse_value}
use parseon.Filter.Compile.{compile_expression}
use parseon.Filter.Evaluate.{evaluate}
use parseon.Filter.Definition.{prepare, compile}
use parseon.Filter.Meaning.{meaning, compile-evaluate}
use parseon.Filter.Shape.{SameTree}
use parseon.Filter.Rewritten.{SameKind, compile-SameKind}
use parseon.Filter.Canonical.{prepare-compile}
use parseon.Fixtures.{toy_codecs, toy_codecs-AreCanonical, call_target, expression, compiled}

abbrev target : Target
target = Target.call call_target

abbrev context : ℕ → FilterContext
context value = FilterContext.call (record {
  block_number = 10;
  tx_hash = [];
  from = [];
  to = [];
  params = DecodedValue.uint value ∷ [];
})

compiles : compile_expression toy_codecs target expression root ≡ ok (expression, compiled)
unfolding compile_expression resolve_field parse_value
compiles = refl

accepts : evaluate compiled (context 9) ≡ ok true
unfolding evaluate
accepts = refl

rejects : evaluate compiled (context 4) ≡ ok false
unfolding evaluate
rejects = refl

compile-evaluate_example : evaluate compiled (context 9) ≡ ok (meaning compiled (context 9))
unfolding value_type
compile-evaluate_example =
    compile-evaluate toy_codecs target (context 9) (refl, tt) expression root expression compiled
      compiles

validate_limits_iff_example :
    (validate_limits toy_codecs expression ≡ ok tt) ↔ IsWithinLimits toy_codecs expression
validate_limits_iff_example = validate_limits_iff toy_codecs expression

compile-SameKind_example : SameTree SameKind expression expression
compile-SameKind_example =
    compile-SameKind toy_codecs target expression root expression compiled compiles

abbrev definition : FilterDefinition
definition = record { version = pos 1; expression = expression }

prepares : prepare toy_codecs expression target ≡ ok (definition, Filter.expr compiled)
unfolding prepare validate_limits compile_expression resolve_field parse_value
prepares = refl

small : 100 ≤ max_bytes
small = omega arith

prepare-compile_example : compile toy_codecs definition target ≡ ok (Filter.expr compiled)
prepare-compile_example =
    prepare-compile toy_codecs toy_codecs-AreCanonical target expression definition
      (Filter.expr compiled) 100 prepares refl small
