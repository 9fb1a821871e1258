-- ===== src/Filter/Ast.antt =====
-- The types of parseon-core/src/filter.rs: expressions, compiled expressions, contexts and errors.
use parseon.Common.{ℕ, String, Bool, Option, List}
use parseon.Common.Int.{ℤ}
use parseon.Model.{Address, B256, Bytes, BlockNumber, DecodedValue}

-- `serde_json::Value`. A number is kept by its text.
mutual
  pub data Json : Type 0 where
    null : Json
    bool : Bool → Json
    number : String → Json
    string : String → Json
    array : JsonItems → Json
    object : JsonFields → Json

  pub data JsonItems : Type 0 where
    nil : JsonItems
    cons : Json → JsonItems → JsonItems

  pub data JsonFields : Type 0 where
    end : JsonFields
    field : String → Json → JsonFields → JsonFields

pub data ComparisonOperator : Type 0 where
  eq ne gt gte lt lte : ComparisonOperator

pub record Comparison : Type 0 where
  pub field : String
  pub op : ComparisonOperator
  pub value : Json

mutual
  pub data FilterExpression : Type 0 where
    and : Expressions → FilterExpression
    or : Expressions → FilterExpression
    not : FilterExpression → FilterExpression
    compare : Comparison → FilterExpression

  -- `Vec<FilterExpression>`
  pub data Expressions : Type 0 where
    nil : Expressions
    cons : FilterExpression → Expressions → Expressions

-- `ResolvedField`
pub data ResolvedField : Type 0 where
  block_number transaction_hash call_from call_to event_emitter event_log_index : ResolvedField
  parameter : ℕ → ResolvedField

pub data FilterValue : Type 0 where
  uint : ℕ → FilterValue
  int : ℤ → FilterValue
  bool : Bool → FilterValue
  address : Address → FilterValue
  string : String → FilterValue
  bytes : Bytes → FilterValue

pub data ValueType : Type 0 where
  uint : ℕ → ValueType
  int : ℕ → ValueType
  bool : ValueType
  address : ValueType
  string : ValueType
  bytes : Option ℕ → ValueType

pub data RuntimeValue : Type 0 where
  uint : ℕ → RuntimeValue
  int : ℤ → RuntimeValue
  bool : Bool → RuntimeValue
  address : Address → RuntimeValue
  string : String → RuntimeValue
  bytes32 : B256 → RuntimeValue
  bytes : Bytes → RuntimeValue

mutual
  pub data CompiledExpression : Type 0 where
    and : CompiledExpressions → CompiledExpression
    or : CompiledExpressions → CompiledExpression
    not : CompiledExpression → CompiledExpression
    compare : ResolvedField → ComparisonOperator → FilterValue → CompiledExpression

  -- `Vec<CompiledExpression>`
  pub data CompiledExpressions : Type 0 where
    nil : CompiledExpressions
    cons : CompiledExpression → CompiledExpressions → CompiledExpressions

pub data Filter : Type 0 where
  all : Filter
  expr : CompiledExpression → Filter

pub record CallContext : Type 0 where
  pub block_number : BlockNumber
  pub tx_hash : B256
  pub from : Address
  pub to : Address
  pub params : List DecodedValue

pub record EventContext : Type 0 where
  pub block_number : BlockNumber
  pub tx_hash : B256
  pub emitter : Address
  pub log_index : ℕ
  pub params : List DecodedValue

pub data FilterContext : Type 0 where
  call : CallContext → FilterContext
  event : EventContext → FilterContext

-- A step of the JSON pointer in an error.
pub data Segment : Type 0 where
  key : String → Segment
  index : ℕ → Segment

-- The texts of the errors, with what they mention.
pub data Message : Type 0 where
  not_serializable filter_too_long too_many_nodes too_deep wrong_arity : Message
  unknown_field unknown_parameter : String → Message
  needs_integer_field : ComparisonOperator → Message
  unsupported_type : String → Message
  expected : String → Message
  not_coercible : Message
  expected_bytes : ℕ → Message
  unsupported_version : ℤ → Message
  params_mismatch missing_parameter kind_mismatch : Message
  parameter_index_missing field_unavailable type_mismatch : Message

pub record FilterError : Type 0 where
  pub path : List Segment
  pub message : Message

-- `FilterDefinition`
pub record FilterDefinition : Type 0 where
  pub version : ℤ
  pub expression : FilterExpression

-- `FilterSample`: the parameters are a JSON map, an entry for each name.
pub data FilterSample : Type 0 where
  call : BlockNumber → B256 → Address → Address → List (String × Json) → FilterSample
  event : BlockNumber → B256 → Address → ℕ → List (String × Json) → FilterSample

pub record FilterPreview : Type 0 where
  pub filter : FilterExpression
  pub matches : Bool

-- The operations of serde_json, alloy and hex that the compiler calls; `none` is their error.
pub record Codecs : Type 0 where
  -- `serde_json::to_vec(expression)`, its length
  pub encoded_len : FilterExpression → Option ℕ
  -- `DynSolType::Uint(bits).coerce_str`, `DynSolType::Int(bits).coerce_str`
  pub coerce_uint : ℕ → String → Option ℕ
  pub coerce_int : ℕ → String → Option ℤ
  -- `str::parse::<Address>`, `alloy::hex::decode`
  pub parse_address : String → Option Address
  pub hex_decode : String → Option Bytes
  -- `U256::to_string`, `I256::to_string`, `format!("{address:#x}")`, `alloy::hex::encode`
  pub show_uint : ℕ → String
  pub show_int : ℤ → String
  pub show_address : Address → String
  pub hex_encode : Bytes → String
