-- ===== src/Fixtures.antt =====
-- Concrete libraries, monitors and blocks for the tests: a decoder that reads one byte per parameter, and
-- codecs that know one number.
use parseon.Common.{
  ℕ, zero, suc, ◌≡◌, refl, sym, ap, ◌∙◌, String, true, false, Option, none, some, List, [], ◌∷◌,
  eqb, is_empty, if◌then◌else◌, arith,
}
use parseon.Common.Eq.{string_eq, ◌==◌}
use parseon.Common.Text.{codes}
use parseon.Model.{
  SolType, AbiParam, CallTarget, EventTarget, Target, DecodedValue, BlockTransaction, SourceBlock,
  ExecutionOutcome, SourceLog, DecodedCall, DecodedEvent,
}
use parseon.Abi.{Alloy, SolValue, SolParams}
use parseon.Filter.Ast.{
  Json, ComparisonOperator, FilterExpression, Expressions, ResolvedField, FilterValue,
  CompiledExpression, CompiledExpressions, Filter, Codecs,
}
use parseon.Filter.Canonical.{AreCanonical}
use parseon.Monitor.{Monitor}
use parseon.Index.Built.{NamesTypes}

-- A number in unary.
abbrev unary : ℕ → String
unary zero = String.[]
unary (suc n) = String.◌∷◌ "1" (unary n)

abbrev count_code : String → ℕ
count_code String.[] = 0
count_code (String.◌∷◌ c s) = suc (count_code s)

count-unary : (n : ℕ) → count_code (unary n) ≡ n
count-unary zero = refl
count-unary (suc n) = ap suc (count-unary n)

abbrev toy_name : SolType → String
toy_name SolType.bool = "b"
toy_name SolType.address = "a"
toy_name SolType.function = "f"
toy_name SolType.bytes = "y"
toy_name SolType.string = "s"
toy_name (SolType.int n) = String.◌∷◌ "i" (unary n)
toy_name (SolType.uint n) = String.◌∷◌ "u" (unary n)
toy_name (SolType.fixed_bytes n) = String.◌∷◌ "x" (unary n)
toy_name (SolType.composite name) = String.◌∷◌ "c" name

-- The type of a name, by its first code point.
abbrev named_type : ℕ → String → SolType
named_type c s =
    if eqb c b'b'
    then SolType.bool
    else if eqb c b'a'
    then SolType.address
    else if eqb c b'f'
    then SolType.function
    else if eqb c b'y'
    then SolType.bytes
    else if eqb c b's'
    then SolType.string
    else if eqb c b'i'
    then SolType.int (count_code s)
    else if eqb c b'u'
    then SolType.uint (count_code s)
    else if eqb c b'x'
    then SolType.fixed_bytes (count_code s)
    else SolType.composite s

abbrev read_name : String → SolType
read_name String.[] = SolType.bool
read_name (String.◌∷◌ c s) = elim (codes (String.◌∷◌ c String.[])) [
  | [] ↦ SolType.bool
  | n ∷ _ ↦ named_type n s
]

read_name-toy_name : (t : SolType) → read_name (toy_name t) ≡ t
read_name-toy_name SolType.bool = refl
read_name-toy_name SolType.address = refl
read_name-toy_name SolType.function = refl
read_name-toy_name SolType.bytes = refl
read_name-toy_name SolType.string = refl
read_name-toy_name (SolType.int n) = ap SolType.int (count-unary n)
read_name-toy_name (SolType.uint n) = ap SolType.uint (count-unary n)
read_name-toy_name (SolType.fixed_bytes n) = ap SolType.fixed_bytes (count-unary n)
read_name-toy_name (SolType.composite name) = refl

-- One byte per value.
abbrev read_bytes : List SolType → List ℕ → Option (List SolValue)
read_bytes [] [] = some []
read_bytes [] (b ∷ bs) = none
read_bytes (t ∷ ts) [] = none
read_bytes (t ∷ ts) (b ∷ bs) = elim (read_bytes ts bs) [
  | none ↦ none
  | some vs ↦ some (SolValue.uint b 8 ∷ vs)
]

abbrev as_tuple : Option (List SolValue) → Option SolParams
as_tuple none = none
as_tuple (some vs) = some (SolParams.tuple vs)

abbrev as_body : Option (List SolValue) → Option (List SolValue × List SolValue)
as_body none = none
as_body (some vs) = some ([], vs)

abbrev pub toy_alloy : Alloy
toy_alloy = record {
  type_name = toy_name;
  parse_type = λ name. some (read_name name);
  abi_decode_params = λ types input. as_tuple (read_bytes types input);
  accepts_event = λ topic0 indexed body. is_empty indexed;
  decode_log_parts = λ topic0 indexed body topics log_data. as_body (read_bytes body log_data);
}

pub toy_alloy-parses : (ty : SolType) → toy_alloy.parse_type (toy_alloy.type_name ty) ≡ some ty
toy_alloy-parses ty = ap some (read_name-toy_name ty)

pub toy_alloy-NamesTypes : NamesTypes toy_alloy
toy_alloy-NamesTypes a b same =
    sym (read_name-toy_name a) ∙ ap read_name same ∙ read_name-toy_name b

-- Codecs that parse and print the number five.
abbrev five : String → Option ℕ
five s = if s == "5" then some 5 else none

abbrev pub toy_codecs : Codecs
toy_codecs = record {
  encoded_len = λ e. some 100;
  coerce_uint = λ bits s. five s;
  coerce_int = λ bits s. none;
  parse_address = λ s. none;
  hex_decode = λ s. none;
  show_uint = λ n. "5";
  show_int = λ n. "5";
  show_address = λ a. "";
  hex_encode = λ b. "";
}

five-some : (s : String) (v : ℕ) → five s ≡ some v → v ≡ 5
five-some s v h = ground arith

pub toy_codecs-AreCanonical : AreCanonical toy_codecs
toy_codecs-AreCanonical = record {
  uint = λ bits s v h. (refl, ap some (sym (five-some s v h)));
  int = λ bits s v h. absurd (ground (arith, h));
  address = λ s a h. absurd (ground (arith, h));
  hex = λ s b h. absurd (ground (arith, h));
}

abbrev pub amount : AbiParam
amount = record { name = "amount"; ty = SolType.uint 8; indexed = false }

abbrev pub call_target : CallTarget
call_target = record { address = 1 ∷ []; selector = 1 ∷ 2 ∷ 3 ∷ 4 ∷ []; inputs = amount ∷ [] }

abbrev pub event_target : EventTarget
event_target = record { address = 1 ∷ []; topic0 = 5 ∷ []; params = amount ∷ [] }

-- `params.amount >= 5`, and the same with a block other than the fifth.
abbrev pub at_least_five : CompiledExpression
at_least_five =
    CompiledExpression.compare (ResolvedField.parameter 0) ComparisonOperator.gte
      (FilterValue.uint 5)

abbrev pub comparison : String → ComparisonOperator → FilterExpression
comparison field op =
    FilterExpression.compare (record { field = field; op = op; value = Json.string "5" })

abbrev pub expression : FilterExpression
expression = FilterExpression.and (
    Expressions.cons (comparison "params.amount" ComparisonOperator.gte) (
      Expressions.cons (FilterExpression.not (comparison "block.number" ComparisonOperator.eq))
        Expressions.nil))

abbrev pub compiled : CompiledExpression
compiled = CompiledExpression.and (
    CompiledExpressions.cons at_least_five (
      CompiledExpressions.cons
        (CompiledExpression.not (
          CompiledExpression.compare ResolvedField.block_number ComparisonOperator.eq
            (FilterValue.uint 5)))
        CompiledExpressions.nil))

-- A monitor of the calls from block 10 on, and one of the events up to block 11.
abbrev pub call_monitor : Monitor
call_monitor = record {
  id = 1;
  chain = record { id = 7 };
  target = Target.call call_target;
  start_block = 10;
  end_block = none;
  cursor = none;
  completed = false;
  enabled = true;
  filter = Filter.expr compiled;
}

abbrev pub event_monitor : Monitor
event_monitor = record {
  id = 2;
  chain = record { id = 7 };
  target = Target.event event_target;
  start_block = 10;
  end_block = some 11;
  cursor = some 10;
  completed = false;
  enabled = true;
  filter = Filter.all;
}

abbrev pub transaction : BlockTransaction
transaction = record { hash = 8 ∷ []; from = 2 ∷ []; to = 1 ∷ []; input = 1 ∷ 2 ∷ 3 ∷ 4 ∷ 9 ∷ [] }

abbrev pub block_at : ℕ → SourceBlock
block_at number = record { number = number; transactions = transaction ∷ [] }

abbrev pub outcome : ExecutionOutcome
outcome = record { transaction_hash = 8 ∷ []; succeeded = true }

abbrev pub log_at : ℕ → SourceLog
log_at number = record {
  block_number = some number;
  transaction_hash = some (8 ∷ []);
  log_index = some 3;
  address = 1 ∷ [];
  topics = (5 ∷ []) ∷ [];
  log_data = 6 ∷ [];
  removed = false;
}

abbrev pub call_at : ℕ → DecodedCall
call_at number = record {
  monitor_id = 1;
  block_number = number;
  transaction_hash = 8 ∷ [];
  from = 2 ∷ [];
  to = 1 ∷ [];
  params = DecodedValue.uint 9 ∷ [];
}

abbrev pub event_at : ℕ → DecodedEvent
event_at number = record {
  monitor_id = 2;
  block_number = number;
  transaction_hash = 8 ∷ [];
  log_index = 3;
  params = DecodedValue.uint 6 ∷ [];
}
