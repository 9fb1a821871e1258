-- ===== src/Abi/Signature/Schema.antt =====
-- The schemas that `parse_target_signature` of parseon-core/src/abi.rs accepts.
use Prim.Native.String.{◌++◌}
use text.Mathlib.TextLemmas.{cons-append, cons-ne-nil}
use parseon.Common.{
  ℕ, suc, ◌≤◌, ◌≡◌, refl, sym, ◌∙◌, inl, inr, String, Bool, true, false, not, ◌&&◌, Option, none,
  some, List, [], ◌∷◌, map, keep, length, is_empty, leb, leb_iff, if◌then◌else◌, ok, ensure, ok_or,
  >>=-eq-ok, ensure-eq-ok, ok_inj, All, arith, Bool-cases,
}
use parseon.Common.Eq.{◌==◌, string_eq}
use parseon.Common.Decimal.{decimal}
use parseon.Common.Distinct.{contains, AreNew, AreDistinct, contains-AreNew, AreNew-tail}
use parseon.Model.{Selector, B256, SolType, AbiParam}
use parseon.Abi.{AbiError, is_supported_type, new_param}
use parseon.Abi.Signature.{
  AbiInput, AbiItem, MethodSpec, EventSpec, TargetSpec, param_name, read_params, method_spec,
  event_spec, target_spec, parse_target_signature,
}

abbrev pub names : List AbiParam → List String
names params = map (λ p. p.name) params

-- A parameter of a scalar type that has a name.
abbrev pub IsColumn : AbiParam → Type 0
IsColumn p = (is_supported_type p.ty ≡ true) × ((p.name == "") ≡ false)

abbrev pub indexed_count : List AbiParam → ℕ
indexed_count params = length (keep (λ p. p.indexed) params)

-- What storages and indexes rely on: parameters with distinct names and scalar types, one at least for a
-- call, and three indexed ones at most for an event.
abbrev pub IsSchema : TargetSpec → Type 0
IsSchema (TargetSpec.call spec) =
    AreDistinct (names spec.params)
    × All IsColumn spec.params
    × (1 ≤ length spec.params)
    × (indexed_count spec.params ≡ 0)
IsSchema (TargetSpec.event spec) =
    AreDistinct (names spec.params) × All IsColumn spec.params × (indexed_count spec.params ≤ 3)

param_name-ne-empty : (i : ℕ) (name : String) → (param_name i name == "") ≡ false
param_name-ne-empty i name = elim (Bool-cases (name == "")) [
  | inr given ↦ rw given given
  | inl missing ↦ rw missing (elim (Bool-cases (("arg" ++ decimal i) == "")) [
    | inr given ↦ given
    | inl empty ↦ absurd (
        cons-ne-nil "a" ("rg" ++ decimal i) (
          sym (cons-append "a" "rg" (decimal i))
          ∙ (string_eq.test_iff ("arg" ++ decimal i) "").0 empty))
  ])
]

new_param_lem :
    (name : String) (ty : SolType) (p : AbiParam)
    → new_param name ty ≡ ok p
    → (is_supported_type ty ≡ true) × (p ≡ record { name = name; ty = ty; indexed = false })
unfolding new_param
new_param_lem name ty p h =
    let (u, scalar, made) = >>=-eq-ok (ensure (is_supported_type ty) AbiError.invalid_type) _ h in
    (ensure-eq-ok _ _ u scalar, sym (ground (arith, made)))

-- The number of parameters that are indexed, of those that the inputs say are.
indexed_inputs : Bool → List AbiInput → ℕ
indexed_inputs is_event [] = 0
indexed_inputs is_event (input ∷ inputs) =
    let rest = indexed_inputs is_event inputs in
    if is_event && input.indexed then suc rest else rest

abbrev Reads : Bool → List String → List AbiInput → List AbiParam → Type 0
Reads is_event seen inputs params =
    AreNew (names params) seen
    × AreDistinct (names params)
    × All IsColumn params
    × (indexed_count params ≡ indexed_inputs is_event inputs)

read_params-Reads :
    (is_event : Bool) (seen : List String) (i : ℕ) (inputs : List AbiInput) (params : List AbiParam)
    → read_params is_event seen i inputs ≡ ok params
    → Reads is_event seen inputs params
unfolding read_params new_param indexed_inputs
read_params-Reads is_event seen i [] params h = rw (sym (ok_inj h)) (tt, tt, tt, refl)
read_params-Reads is_event seen i (input ∷ inputs) params h =
    let (ty, resolved, after_type) = >>=-eq-ok (ok_or input.resolved AbiError.invalid_type) _ h in
    let name = param_name i input.name in
    let (u, unseen, after_name) =
      >>=-eq-ok (ensure (not (contains name seen)) AbiError.parse) _ after_type in
    let (p, made, after_param) = >>=-eq-ok (new_param name ty) _ after_name in
    let (rest, read, result) =
      >>=-eq-ok (read_params is_event (name ∷ seen) (suc i) inputs) _ after_param in
    let (scalar, is_p) = new_param_lem name ty p made in
    let (new', distinct, columns, count) =
      read_params-Reads is_event (name ∷ seen) (suc i) inputs rest read in
    rw (sym (ok_inj result)) (
      rw is_p (
        (ground (arith, ensure-eq-ok _ _ u unseen), AreNew-tail name (names rest) seen new'),
        (contains-AreNew name (names rest) seen new', distinct),
        ((scalar, param_name-ne-empty i input.name), columns),
        ground (arith, count),
      ))

filled_length : (params : List AbiParam) → not (is_empty params) ≡ true → 1 ≤ length params
filled_length [] h = absurd (ground (arith, h))
filled_length (p ∷ ps) h = omega arith

indexed_inputs_none : (inputs : List AbiInput) → indexed_inputs false inputs ≡ 0
unfolding indexed_inputs
indexed_inputs_none [] = refl
indexed_inputs_none (input ∷ inputs) = indexed_inputs_none inputs

indexed_inputs_event :
    (inputs : List AbiInput)
    → indexed_inputs true inputs ≡ length (keep (λ input. input.indexed) inputs)
unfolding indexed_inputs
indexed_inputs_event [] = refl
indexed_inputs_event (input ∷ inputs) = ground (arith, indexed_inputs_event inputs)

method_spec-IsSchema :
    (selector : Selector) (inputs : List AbiInput) (spec : MethodSpec)
    → method_spec selector inputs ≡ ok spec
    → IsSchema (TargetSpec.call spec)
unfolding method_spec
method_spec-IsSchema selector inputs spec h =
    let (params, read, after) = >>=-eq-ok (read_params false [] 0 inputs) _ h in
    let (u, filled, result) = >>=-eq-ok (ensure (not (is_empty params)) AbiError.parse) _ after in
    let (new', distinct, columns, count) = read_params-Reads false [] 0 inputs params read in
    rw (sym (ok_inj result)) (
      distinct,
      columns,
      filled_length params (ensure-eq-ok _ _ u filled),
      count ∙ indexed_inputs_none inputs,
    )

event_spec-IsSchema :
    (topic0 : B256) (anonymous : Bool) (inputs : List AbiInput) (spec : EventSpec)
    → event_spec topic0 anonymous inputs ≡ ok spec
    → IsSchema (TargetSpec.event spec)
unfolding event_spec
event_spec-IsSchema topic0 anonymous inputs spec h =
    let (u, named, counted) = >>=-eq-ok (ensure (not anonymous) AbiError.parse) _ h in
    let (v, few, after) =
      >>=-eq-ok (ensure (leb (length (keep (λ input. input.indexed) inputs)) 3) AbiError.parse) _
        counted in
    let (params, read, result) = >>=-eq-ok (read_params true [] 0 inputs) _ after in
    let (new', distinct, columns, count) = read_params-Reads true [] 0 inputs params read in
    let bound = (leb_iff _ _).0 (ensure-eq-ok _ _ v few) in
    rw (sym (ok_inj result))
      (distinct, columns, omega (arith, count, indexed_inputs_event inputs, bound))

target_spec-IsSchema :
    (item : Option AbiItem) (spec : TargetSpec) → target_spec item ≡ ok spec → IsSchema spec
target_spec-IsSchema none spec h = absurd (ground (arith, h))
target_spec-IsSchema (some AbiItem.other) spec h = absurd (ground (arith, h))
target_spec-IsSchema (some (AbiItem.function selector inputs)) spec h =
    let (method, made, result) = >>=-eq-ok (method_spec selector inputs) _ h in
    rw (sym (ok_inj result)) (method_spec-IsSchema selector inputs method made)
target_spec-IsSchema (some (AbiItem.event topic0 anonymous inputs)) spec h =
    let (event, made, result) = >>=-eq-ok (event_spec topic0 anonymous inputs) _ h in
    rw (sym (ok_inj result)) (event_spec-IsSchema topic0 anonymous inputs event made)

-- The schema of a signature that is accepted: its parameters have names that are distinct and not empty, and
-- scalar types. A call has one parameter at least and none that is indexed, an event has three indexed
-- ones at most.
pub parse_target_signature-IsSchema :
    (parse_item : String → Option AbiItem) (signature : String) (spec : TargetSpec)
    → parse_target_signature parse_item signature ≡ ok spec
    → IsSchema spec
unfolding parse_target_signature
parse_target_signature-IsSchema parse_item signature spec h =
    target_spec-IsSchema (parse_item signature) spec h
