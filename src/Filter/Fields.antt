-- ===== src/Filter/Fields.antt =====
-- `resolve_field` and `value_type` of parseon-core/src/filter.rs.
use parseon.Common.{
  ℕ, String, Bool, true, false, ◌&&◌, Option, none, some, List, if◌then◌else◌, Result, ok, err,
  ◌>>=◌, ok_or, find, enumerate,
}
use parseon.Common.Eq.{◌==◌, string_eq}
use parseon.Common.Text.{strip_prefix}
use parseon.Model.{SolType, AbiParam, Target}
use parseon.Filter.Ast.{ResolvedField, ValueType, Segment, Message, FilterError}
use parseon.Filter.Limits.{error_at, root}

-- The lookup of a name that is the same for every target, then of one for the target's kind.
abbrev pub builtin_field : Target → String → Option (ResolvedField × ValueType)
builtin_field target field =
    if field == "block.number"
    then some (ResolvedField.block_number, ValueType.uint 64)
    else if field == "tx.hash"
    then some (ResolvedField.transaction_hash, ValueType.bytes (some 32))
    else elim target [
      | Target.call _ ↦
          if field == "tx.from"
          then some (ResolvedField.call_from, ValueType.address)
          else if field == "tx.to"
          then some (ResolvedField.call_to, ValueType.address)
          else none
      | Target.event _ ↦
          if field == "event.emitter"
          then some (ResolvedField.event_emitter, ValueType.address)
          else if field == "event.log_index"
          then some (ResolvedField.event_log_index, ValueType.uint 64)
          else none
    ]

abbrev pub is_event : Target → Bool
is_event (Target.call _) = false
is_event (Target.event _) = true

abbrev pub params_of : Target → List AbiParam
params_of (Target.call target) = target.inputs
params_of (Target.event target) = target.params

-- The match of `value_type` on a type that is not hashed.
abbrev pub plain_type : SolType → Result FilterError ValueType
plain_type (SolType.uint bits) = ok (ValueType.uint bits)
plain_type (SolType.int bits) = ok (ValueType.int bits)
plain_type SolType.bool = ok ValueType.bool
plain_type SolType.address = ok ValueType.address
plain_type SolType.string = ok ValueType.string
plain_type SolType.bytes = ok (ValueType.bytes none)
plain_type (SolType.fixed_bytes size) = ok (ValueType.bytes (some size))
plain_type SolType.function = ok (ValueType.bytes (some 24))
plain_type (SolType.composite name) = err (error_at root (Message.unsupported_type name))

-- `matches!(ty, DynSolType::String | DynSolType::Bytes)`
abbrev pub is_dynamic : SolType → Bool
is_dynamic SolType.string = true
is_dynamic SolType.bytes = true
is_dynamic _ = false

unfoldable pub value_type : AbiParam → Bool → Result FilterError ValueType
value_type param event =
    if event && param.indexed && is_dynamic param.ty
    then ok (ValueType.bytes (some 32))
    else plain_type param.ty

-- The lookup of a `params.` name.
unfoldable pub resolve_param :
    Target → String → List Segment → Result FilterError (ResolvedField × ValueType)
unfolding value_type
resolve_param target name path = do
  (i, param) ←
      ok_or (find (λ (entry : ℕ × AbiParam). entry.1.name == name) (enumerate 0 (params_of target)))
        (error_at path (Message.unknown_parameter name))
  ty ← value_type param (is_event target)
  ok (ResolvedField.parameter i, ty)

unfoldable pub resolve_field :
    Target → String → List Segment → Result FilterError (ResolvedField × ValueType)
unfolding resolve_param
resolve_field target field path = elim (builtin_field target field) [
  | some found ↦ ok found
  | none ↦ do
    name ← ok_or (strip_prefix "params." field) (error_at path (Message.unknown_field field))
    resolve_param target name path
]
