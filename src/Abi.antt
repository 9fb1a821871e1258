-- ===== src/Abi.antt =====
-- The decoders of parseon-core/src/abi.rs, over alloy's decoding of ABI data.
pub mod Signature
use parseon.Common.{
  ℕ, String, Bool, true, false, not, Option, List, [], ◌∷◌, map, keep, take, Result, ok, err, ◌>>=◌,
  ◌>>◌, ensure, ok_or, traverse,
}
use parseon.Common.Int.{ℤ}
use parseon.Model.{Bytes, B256, SolType, AbiParam, DecodedValue}

-- alloy's `DynSolValue`: the scalar kinds, and any composite one.
pub data SolValue : Type 0 where
  bool : Bool → SolValue
  address : Bytes → SolValue
  string : String → SolValue
  bytes : Bytes → SolValue
  fixed_bytes : Bytes → ℕ → SolValue
  function : Bytes → SolValue
  uint : ℕ → ℕ → SolValue
  int : ℤ → ℕ → SolValue
  composite : SolValue

-- The value of a decoded parameter tuple.
pub data SolParams : Type 0 where
  tuple : List SolValue → SolParams
  single : SolValue → SolParams

pub data AbiError : Type 0 where
  parse invalid_type : AbiError
  decode unsupported_value too_many_indexed count_mismatch : AbiError

-- What the decoders call in alloy; `none` is its error.
pub record Alloy : Type 0 where
  -- `Display` of a type
  pub type_name : SolType → String
  -- `DynSolType::from_str`
  pub parse_type : String → Option SolType
  -- `DynSolType::Tuple(types).abi_decode_params(data)`
  pub abi_decode_params : List SolType → Bytes → Option SolParams
  -- whether `DynSolEvent::new` accepts the topic, the indexed and the other types
  pub accepts_event : B256 → List SolType → List SolType → Bool
  -- `decode_log_parts` of that event: the indexed values and the others
  pub decode_log_parts :
      B256
      → List SolType
      → List SolType
      → List B256
      → Bytes
      → Option (List SolValue × List SolValue)

-- `ensure_supported_type`: whether the type is scalar.
unfoldable pub is_supported_type : SolType → Bool
is_supported_type (SolType.composite name) = false
is_supported_type ty = true

-- `AbiParam::new`
unfoldable pub new_param : String → SolType → Result AbiError AbiParam
unfolding is_supported_type
new_param name ty = do
  ensure (is_supported_type ty) AbiError.invalid_type
  ok (record { name = name; ty = ty; indexed = false })

-- `parse_abi_type`
unfoldable pub parse_abi_type : Alloy → String → Result AbiError SolType
unfolding is_supported_type
parse_abi_type alloy value = do
  ty ← ok_or (alloy.parse_type value) AbiError.invalid_type
  ensure (is_supported_type ty) AbiError.invalid_type
  ok ty

-- `decode_value`
unfoldable pub decode_value : SolValue → Result AbiError DecodedValue
decode_value (SolValue.bool v) = ok (DecodedValue.bool v)
decode_value (SolValue.address v) = ok (DecodedValue.address v)
decode_value (SolValue.string v) = ok (DecodedValue.string v)
decode_value (SolValue.bytes v) = ok (DecodedValue.bytes v)
decode_value (SolValue.fixed_bytes word size) = ok (DecodedValue.bytes (take size word))
decode_value (SolValue.function v) = ok (DecodedValue.bytes v)
decode_value (SolValue.uint v _) = ok (DecodedValue.uint v)
decode_value (SolValue.int v _) = ok (DecodedValue.int v)
decode_value SolValue.composite = err AbiError.unsupported_value

-- `CallDecoder`: the types of the parameter tuple.
pub record CallDecoder : Type 0 where
  pub params : List SolType

abbrev pub types : List AbiParam → List SolType
types params = map (λ p. p.ty) params

-- `CallDecoder::new`
abbrev pub new_call_decoder : List AbiParam → CallDecoder
new_call_decoder params = record { params = types params }

abbrev pub values : SolParams → List SolValue
values (SolParams.tuple vs) = vs
values (SolParams.single v) = v ∷ []

pub record EventDecoder : Type 0 where
  pub topic0 : B256
  pub indexed_types : List SolType
  pub body_types : List SolType
  pub indexed : List Bool

-- The values in the order of the schema, from the iterators over the indexed ones and the others.
unfoldable pub interleave :
    List Bool → List SolValue → List SolValue → Result AbiError (List DecodedValue)
unfolding decode_value
interleave [] indexed body = ok []
interleave (true ∷ flags) [] body = err AbiError.count_mismatch
interleave (true ∷ flags) (v ∷ indexed) body = do
  value ← decode_value v
  rest ← interleave flags indexed body
  ok (value ∷ rest)
interleave (false ∷ flags) indexed [] = err AbiError.count_mismatch
interleave (false ∷ flags) indexed (v ∷ body) = do
  value ← decode_value v
  rest ← interleave flags indexed body
  ok (value ∷ rest)

module _ (alloy : Alloy) where
  -- `CallDecoder::decode`
  unfoldable pub decode_call : CallDecoder → Bytes → Result AbiError (List DecodedValue)
  unfolding decode_value
  decode_call decoder input = do
    decoded ← ok_or (alloy.abi_decode_params decoder.params input) AbiError.decode
    traverse decode_value (values decoded)

  -- `EventDecoder::new`
  unfoldable pub new_event_decoder : List AbiParam → B256 → Result AbiError EventDecoder
  new_event_decoder params topic0 = do
    let indexed_types = types (keep (λ p. p.indexed) params)
    let body_types = types (keep (λ p. not p.indexed) params)
    ensure (alloy.accepts_event topic0 indexed_types body_types) AbiError.too_many_indexed
    ok (record {
      topic0 = topic0;
      indexed_types = indexed_types;
      body_types = body_types;
      indexed = map (λ p. p.indexed) params;
    })

  -- `EventDecoder::decode`
  unfoldable pub decode_event :
      EventDecoder → List B256 → Bytes → Result AbiError (List DecodedValue)
  unfolding interleave
  decode_event decoder topics log_data = do
    (indexed, body) ←
        ok_or
          (alloy.decode_log_parts decoder.topic0 decoder.indexed_types decoder.body_types topics
            log_data)
          AbiError.decode
    interleave decoder.indexed indexed body
