-- ===== src/Filter/Kinds.antt =====
-- The kinds of values in parseon-core/src/filter.rs: a field that resolves at compile time has, in
-- every context that fits the schema, a value of the kind of its type.
use parseon.Common.{
  ℕ, suc, ◌+◌, ◌≡◌, refl, inl, inr, Bool, true, false, some, List, [], ◌∷◌, arith, Result, ok, err,
  get_elem?, find, enumerate, Bool-cases, Option-cases, String, subst,
}
use parseon.Common.Eq.{◌==◌, string_eq}
use parseon.Common.Text.{strip_prefix}
use parseon.Model.{AbiParam, Target, DecodedValue}
use parseon.Filter.Ast.{
  Json, ResolvedField, FilterValue, ValueType, RuntimeValue, FilterContext, Segment, FilterError,
  Codecs,
}
use parseon.Filter.Fields.{
  value_type, resolve_param, resolve_field, builtin_field, is_event, params_of,
}
use parseon.Filter.Literals.{parse_value}
use parseon.Filter.Evaluate.{params, to_runtime, get_param, resolve_value}

pub data Kind : Type 0 where
  uint int bool address string bytes : Kind

abbrev pub kind_of_type : ValueType → Kind
kind_of_type (ValueType.uint n) = Kind.uint
kind_of_type (ValueType.int n) = Kind.int
kind_of_type ValueType.bool = Kind.bool
kind_of_type ValueType.address = Kind.address
kind_of_type ValueType.string = Kind.string
kind_of_type (ValueType.bytes n) = Kind.bytes

abbrev pub kind_of_literal : FilterValue → Kind
kind_of_literal (FilterValue.uint v) = Kind.uint
kind_of_literal (FilterValue.int v) = Kind.int
kind_of_literal (FilterValue.bool v) = Kind.bool
kind_of_literal (FilterValue.address v) = Kind.address
kind_of_literal (FilterValue.string v) = Kind.string
kind_of_literal (FilterValue.bytes v) = Kind.bytes

abbrev pub kind_of_runtime : RuntimeValue → Kind
kind_of_runtime (RuntimeValue.uint v) = Kind.uint
kind_of_runtime (RuntimeValue.int v) = Kind.int
kind_of_runtime (RuntimeValue.bool v) = Kind.bool
kind_of_runtime (RuntimeValue.address v) = Kind.address
kind_of_runtime (RuntimeValue.string v) = Kind.string
kind_of_runtime (RuntimeValue.bytes32 v) = Kind.bytes
kind_of_runtime (RuntimeValue.bytes v) = Kind.bytes

-- A value that is found has the kind of its type; an unsupported type asks nothing.
abbrev pub Agrees : Result FilterError ValueType → Result FilterError RuntimeValue → Type 0
Agrees (ok ty) (ok v) = kind_of_runtime v ≡ kind_of_type ty
Agrees (ok ty) (err e) = ⊥
Agrees (err e) r = Unit

abbrev pub Fits : Bool → List AbiParam → List DecodedValue → Type 0
Fits event [] vs = Unit
Fits event (p ∷ ps) [] = ⊥
Fits event (p ∷ ps) (v ∷ vs) = Agrees (value_type p event) (ok (to_runtime v)) × Fits event ps vs

-- A context of the target's kind, whose values fit the schema.
abbrev pub Conforms : Target → FilterContext → Type 0
Conforms (Target.call t) (FilterContext.call c) = Fits false t.inputs c.params
Conforms (Target.event t) (FilterContext.event c) = Fits true t.params c.params
Conforms _ _ = ⊥

abbrev named : String → ℕ × AbiParam → Bool
named name entry = entry.1.name == name

find_param :
    (event : Bool) (name : String) (k : ℕ) (ps : List AbiParam) (vs : List DecodedValue) (i : ℕ)
    (p : AbiParam)
    → Fits event ps vs
    → find (named name) (enumerate k ps) ≡ some (i, p)
    → (j : ℕ) × (i ≡ k + j) × Agrees (value_type p event) (get_param (get_elem? vs j))
find_param event name k [] vs i p f h = cc
find_param event name k (q ∷ ps) [] i p f h = absurd f
find_param event name k (q ∷ ps) (v ∷ vs) i p f h = elim (Bool-cases (q.name == name)) [
  | inl hit ↦ (
    0,
    ground arith,
    subst (λ x. Agrees (value_type x event) (ok (to_runtime v))) (ground arith) f.0,
  )
  | inr miss ↦
      let (j, a, b) = find_param event name (suc k) ps vs i p f.1 (rw miss at h) in
      (suc j, omega arith, b)
]

found_param :
    (event : Bool) (name : String) (ps : List AbiParam) (vs : List DecodedValue) (i : ℕ)
    (p : AbiParam)
    → Fits event ps vs
    → find (named name) (enumerate 0 ps) ≡ some (i, p)
    → Agrees (value_type p event) (get_param (get_elem? vs i))
found_param event name ps vs i p f h =
    let (j, a, b) = find_param event name 0 ps vs i p f h in
    subst (λ x. Agrees (value_type p event) (get_param (get_elem? vs x))) (omega arith) b

-- The runtime value of a field, of the kind of its type.
abbrev pub Resolves : ResolvedField → ValueType → FilterContext → Type 0
Resolves field ty context = Agrees (ok ty) (resolve_value field context)

Resolves-builtin :
    (target : Target) (name : String) (context : FilterContext) (field : ResolvedField)
    (ty : ValueType)
    → Conforms target context
    → builtin_field target name ≡ some (field, ty)
    → Resolves field ty context
unfolding resolve_value
Resolves-builtin (Target.call t) name (FilterContext.call c) field ty f h = ground arith
Resolves-builtin (Target.event t) name (FilterContext.event c) field ty f h = ground arith
Resolves-builtin (Target.call t) name (FilterContext.event c) field ty f h = absurd f
Resolves-builtin (Target.event t) name (FilterContext.call c) field ty f h = absurd f

-- The parameters of a context fit the schema of the target, whatever its kind.
Conforms-Fits :
    (target : Target) (context : FilterContext)
    → Conforms target context
    → Fits (is_event target) (params_of target) (params context)
Conforms-Fits (Target.call t) (FilterContext.call c) f = f
Conforms-Fits (Target.event t) (FilterContext.event c) f = f
Conforms-Fits (Target.call t) (FilterContext.event c) f = absurd f
Conforms-Fits (Target.event t) (FilterContext.call c) f = absurd f

resolve_value-parameter :
    (i : ℕ) (context : FilterContext)
    → resolve_value (ResolvedField.parameter i) context ≡ get_param (get_elem? (params context) i)
unfolding resolve_value
resolve_value-parameter i (FilterContext.call c) = refl
resolve_value-parameter i (FilterContext.event c) = refl

Resolves-param :
    (target : Target) (name : String) (path : List Segment) (context : FilterContext)
    (field : ResolvedField) (ty : ValueType)
    → Conforms target context
    → resolve_param target name path ≡ ok (field, ty)
    → Resolves field ty context
unfolding resolve_param
Resolves-param target name path context field ty f h =
    elim (Option-cases (find (named name) (enumerate 0 (params_of target)))) [
      | inl e ↦ ground arith
      | inr ((i, p), e) ↦ ground (
        arith,
        found_param (is_event target) name (params_of target) (params context) i p
            (Conforms-Fits target context f) e,
        resolve_value-parameter i context,
      )
    ]

pub Resolves-field :
    (target : Target) (name : String) (path : List Segment) (context : FilterContext)
    (field : ResolvedField) (ty : ValueType)
    → Conforms target context
    → resolve_field target name path ≡ ok (field, ty)
    → Resolves field ty context
unfolding resolve_field
Resolves-field target name path context field ty f h =
    elim (Option-cases (builtin_field target name)) [
      | inr (found, e) ↦ Resolves-builtin target name context field ty f (ground arith)
      | inl e ↦ elim (Option-cases (strip_prefix "params." name)) [
        | inl none_left ↦ absurd (ground arith)
        | inr (rest, e') ↦ Resolves-param target rest path context field ty f (ground arith)
      ]
    ]

pub parse_value-kind :
    (codecs : Codecs) (path : List Segment) (ty : ValueType) (j : Json) (w : FilterValue) (c : Json)
    → parse_value codecs path ty j ≡ ok (w, c)
    → kind_of_literal w ≡ kind_of_type ty
unfolding parse_value
parse_value-kind codecs path ty j w c h = ground arith
