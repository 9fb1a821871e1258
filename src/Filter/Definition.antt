-- ===== src/Filter/Definition.antt =====
-- `FilterDefinition`, `preview` and `decode_sample_params` of parseon-core/src/filter.rs.
use parseon.Common.{
  String, Bool, true, false, Option, none, some, List, [], ◌∷◌, eqb, if◌then◌else◌, Result, ok, err,
  ◌>>=◌, ◌>>◌, ensure, ok_or, length,
}
use parseon.Common.Eq.{◌==◌, string_eq}
use parseon.Common.Int.{ℤ, pos, eqb_ℤ}
use parseon.Model.{AbiParam, Target, DecodedValue}
use parseon.Filter.Ast.{
  Json, FilterExpression, FilterValue, Filter, FilterContext, FilterSample, FilterPreview, Segment,
  key, Message, FilterError, FilterDefinition, Codecs,
}
use parseon.Filter.Limits.{error_at, root, validate_limits}
use parseon.Filter.Fields.{value_type}
use parseon.Filter.Literals.{parse_value}
use parseon.Filter.Compile.{compile_expression}
use parseon.Filter.Evaluate.{evaluate_filter}

abbrev pub filter_version : ℤ
filter_version = pos 1

abbrev pub to_decoded : FilterValue → DecodedValue
to_decoded (FilterValue.uint v) = DecodedValue.uint v
to_decoded (FilterValue.int v) = DecodedValue.int v
to_decoded (FilterValue.bool v) = DecodedValue.bool v
to_decoded (FilterValue.address v) = DecodedValue.address v
to_decoded (FilterValue.string v) = DecodedValue.string v
to_decoded (FilterValue.bytes v) = DecodedValue.bytes v

module _ (codecs : Codecs) where
  -- `FilterDefinition::prepare`
  unfoldable pub prepare :
      FilterExpression → Target → Result FilterError (FilterDefinition × Filter)
  prepare expression target = do
    validate_limits codecs expression
    (source, compiled) ← compile_expression codecs target expression root
    ok (record { version = filter_version; expression = source }, Filter.expr compiled)

  -- `FilterDefinition::compile`
  unfoldable pub compile : FilterDefinition → Target → Result FilterError Filter
  compile definition target = do
    ensure (eqb_ℤ definition.version filter_version)
        (error_at (key "filter_version" ∷ []) (Message.unsupported_version definition.version))
    validate_limits codecs definition.expression
    (_, compiled) ← compile_expression codecs target definition.expression root
    ok (Filter.expr compiled)

-- `Map::remove`: the value under the name, and the map without it.
abbrev pub put_back :
    String × Json → Option (Json × List (String × Json)) → Option (Json × List (String × Json))
put_back entry none = none
put_back entry (some (value, others)) = some (value, entry ∷ others)

unfoldable pub take_entry : String → List (String × Json) → Option (Json × List (String × Json))
take_entry name [] = none
take_entry name ((k, v) ∷ rest) =
    let later = put_back (k, v) (take_entry name rest) in
    if k == name then some (v, rest) else later

abbrev sample_path : String → List Segment
sample_path name = key "sample" ∷ key "params" ∷ key name ∷ []

module _ (codecs : Codecs) where
  -- The iterator of `decode_sample_params`, over the schema.
  unfoldable pub decode_entries :
      List AbiParam → Bool → List (String × Json) → Result FilterError (List DecodedValue)
  unfolding take_entry
  decode_entries [] event values = ok []
  decode_entries (param ∷ params) event values = do
    (value, others) ←
        ok_or (take_entry param.name values)
          (error_at (sample_path param.name) Message.missing_parameter)
    ty ← value_type param event
    (literal, _) ← parse_value codecs (sample_path param.name) ty value
    rest ← decode_entries params event others
    ok (to_decoded literal ∷ rest)

  unfoldable pub decode_sample_params :
      List AbiParam → Bool → List (String × Json) → Result FilterError (List DecodedValue)
  unfolding decode_entries
  decode_sample_params params event values = do
    ensure (eqb (length values) (length params))
        (error_at (key "sample" ∷ key "params" ∷ []) Message.params_mismatch)
    decode_entries params event values

  -- The match on the target and the sample in `preview`.
  unfoldable pub preview_context : Target → FilterSample → Result FilterError FilterContext
  unfolding decode_sample_params
  preview_context (Target.call target) (FilterSample.call block_number tx_hash from to params) = do
    values ← decode_sample_params target.inputs false params
    ok (
        FilterContext.call (record {
          block_number = block_number;
          tx_hash = tx_hash;
          from = from;
          to = to;
          params = values;
        }))
  preview_context (Target.event target) (FilterSample.event block_number tx_hash emitter i params) =
      do
        values ← decode_sample_params target.params true params
        ok (
            FilterContext.event (record {
              block_number = block_number;
              tx_hash = tx_hash;
              emitter = emitter;
              log_index = i;
              params = values;
            }))
  preview_context _ _ = err (error_at (key "sample" ∷ key "kind" ∷ []) Message.kind_mismatch)

  -- `preview`
  unfoldable pub preview :
      Target → FilterExpression → FilterSample → Result FilterError FilterPreview
  unfolding prepare preview_context evaluate_filter
  preview target expression sample = do
    (definition, filter) ← prepare codecs expression target
    context ← preview_context target sample
    matches ← evaluate_filter filter context
    ok (record { filter = definition.expression; matches = matches })
