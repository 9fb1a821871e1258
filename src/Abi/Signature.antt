-- ===== src/Abi/Signature.antt =====
-- `parse_target_signature` of parseon-core/src/abi.rs, over alloy's parser of human-readable ABI items.
pub mod Schema
use Prim.Native.String.{◌++◌}
use parseon.Common.{
  ℕ, suc, ◌+◌, ◌≤◌, ◌<◌, ◌≡◌, refl, ap, sym, inl, inr, String, Bool, true, false, not, ◌&&◌, Option,
  none, some, List, [], ◌∷◌, map, keep, length, is_empty, leb, if◌then◌else◌, Result, ok, err,
  ◌>>=◌, ◌>>◌, ensure, ok_or, >>=-eq-ok, All, arith, Bool-cases,
}
use parseon.Common.Eq.{◌==◌, string_eq}
use parseon.Common.Decimal.{decimal}
use parseon.Common.Distinct.{contains, AreNew, AreDistinct, contains-AreNew, AreNew-tail}
use parseon.Model.{Selector, B256, SolType, AbiParam}
use parseon.Abi.{AbiError, is_supported_type, new_param}

-- alloy's `Param` and `EventParam`, with what `Specifier::resolve` makes of its type.
pub record AbiInput : Type 0 where
  pub name : String
  pub resolved : Option SolType
  pub indexed : Bool

-- alloy's `AbiItem`: the functions with their selector, the events with their topic, and the others.
pub data AbiItem : Type 0 where
  function : Selector → List AbiInput → AbiItem
  event : B256 → Bool → List AbiInput → AbiItem
  other : AbiItem

pub record MethodSpec : Type 0 where
  pub selector : Selector
  pub params : List AbiParam

pub record EventSpec : Type 0 where
  pub topic0 : B256
  pub params : List AbiParam

pub data TargetSpec : Type 0 where
  call : MethodSpec → TargetSpec
  event : EventSpec → TargetSpec

-- A parameter without a name has one by its position.
abbrev pub param_name : ℕ → String → String
param_name i name = if name == "" then "arg" ++ decimal i else name

-- The closures over the inputs, which keep the names seen; only an event's keeps the indexed flag.
unfoldable pub read_params :
    Bool → List String → ℕ → List AbiInput → Result AbiError (List AbiParam)
unfolding new_param
read_params is_event seen i [] = ok []
read_params is_event seen i (input ∷ inputs) = do
  ty ← ok_or input.resolved AbiError.invalid_type
  let name = param_name i input.name
  ensure (not (contains name seen)) AbiError.parse
  param ← new_param name ty
  rest ← read_params is_event (name ∷ seen) (suc i) inputs
  ok (record param { indexed = is_event && input.indexed } ∷ rest)

-- `method_spec`
unfoldable pub method_spec : Selector → List AbiInput → Result AbiError MethodSpec
unfolding read_params
method_spec selector inputs = do
  params ← read_params false [] 0 inputs
  ensure (not (is_empty params)) AbiError.parse
  ok (record { selector = selector; params = params })

-- `event_spec`
unfoldable pub event_spec : B256 → Bool → List AbiInput → Result AbiError EventSpec
unfolding read_params
event_spec topic0 anonymous inputs = do
  ensure (not anonymous) AbiError.parse
  ensure (leb (length (keep (λ input. input.indexed) inputs)) 3) AbiError.parse
  params ← read_params true [] 0 inputs
  ok (record { topic0 = topic0; params = params })

abbrev pub target_spec : Option AbiItem → Result AbiError TargetSpec
target_spec none = err AbiError.parse
target_spec (some (AbiItem.function selector inputs)) = do
  spec ← method_spec selector inputs
  ok (TargetSpec.call spec)
target_spec (some (AbiItem.event topic0 anonymous inputs)) = do
  spec ← event_spec topic0 anonymous inputs
  ok (TargetSpec.event spec)
target_spec (some AbiItem.other) = err AbiError.parse

-- `parse_target_signature`
unfoldable pub parse_target_signature :
    (String → Option AbiItem) → String → Result AbiError TargetSpec
unfolding method_spec event_spec
parse_target_signature parse_item signature = target_spec (parse_item signature)
