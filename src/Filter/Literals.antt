-- ===== src/Filter/Literals.antt =====
-- `parse_value` of parseon-core/src/filter.rs: a JSON literal, typed and put in its canonical form.
use parseon.Common.{
  ℕ, ◌%◌, String, Bool, false, not, ◌&&◌, Option, none, some, List, eqb, Result, ok, err, ◌>>=◌,
  ◌>>◌, ensure, ok_or, all, is_empty, length, unwrap_or, is_none_or,
}
use parseon.Common.Text.{codes, strip_prefix, is_digit, is_hex_digit}
use parseon.Model.{Bytes}
use parseon.Filter.Ast.{Json, FilterValue, ValueType, Segment, Message, FilterError, Codecs}
use parseon.Filter.Limits.{error_at}

-- The closure `string` of `parse_value`: the text of a JSON string.
abbrev pub as_str : Json → List Segment → String → Result FilterError String
as_str (Json.string s) path what = ok s
as_str _ path what = err (error_at path (Message.expected what))

-- `Value::as_bool`
abbrev pub as_bool : Json → Option Bool
as_bool (Json.bool b) = some b
as_bool _ = none

abbrev pub is_decimal : String → Bool
is_decimal s = not (is_empty (codes s)) && all is_digit (codes s)

abbrev pub is_signed_decimal : String → Bool
is_signed_decimal s = is_decimal (unwrap_or (strip_prefix "-" s) s)

-- Whether a text is 0x and 40 hexadecimal digits.
abbrev pub is_address : String → Bool
is_address s = elim (strip_prefix "0x" s) [
  | none ↦ false
  | some hex ↦ eqb (length (codes hex)) 40 && all is_hex_digit (codes hex)
]

abbrev pub is_even_hex : String → Bool
is_even_hex hex = eqb (length (codes hex) % 2) 0 && all is_hex_digit (codes hex)

abbrev pub has_size : Option ℕ → Bytes → Bool
has_size size bytes = is_none_or size (λ n. eqb (length bytes) n)

abbrev pub wrong_size : Option ℕ → Message
wrong_size size = Message.expected_bytes (unwrap_or size 0)

-- `format!("0x{}", hex)`
abbrev pub prefix_hex : String → String
prefix_hex hex = String.◌∷◌ "0" (String.◌∷◌ "x" hex)

module _ (codecs : Codecs) (path : List Segment) where
  unfoldable pub parse_uint : ℕ → Json → Result FilterError (FilterValue × Json)
  parse_uint bits value = do
    s ← as_str value path "a decimal string"
    ensure (is_decimal s) (error_at path (Message.expected "an unsigned decimal string"))
    v ← ok_or (codecs.coerce_uint bits s) (error_at path Message.not_coercible)
    ok (FilterValue.uint v, Json.string (codecs.show_uint v))

  unfoldable pub parse_int : ℕ → Json → Result FilterError (FilterValue × Json)
  parse_int bits value = do
    s ← as_str value path "a signed decimal string"
    ensure (is_signed_decimal s) (error_at path (Message.expected "a signed decimal string"))
    v ← ok_or (codecs.coerce_int bits s) (error_at path Message.not_coercible)
    ok (FilterValue.int v, Json.string (codecs.show_int v))

  unfoldable pub parse_bool : Json → Result FilterError (FilterValue × Json)
  parse_bool value = do
    b ← ok_or (as_bool value) (error_at path (Message.expected "a boolean"))
    ok (FilterValue.bool b, Json.bool b)

  unfoldable pub parse_address : Json → Result FilterError (FilterValue × Json)
  parse_address value = do
    s ← as_str value path "a 20-byte 0x-prefixed address"
    ensure (is_address s) (error_at path (Message.expected "a 20-byte 0x-prefixed address"))
    a ← ok_or (codecs.parse_address s) (error_at path Message.not_coercible)
    ok (FilterValue.address a, Json.string (codecs.show_address a))

  unfoldable pub parse_string : Json → Result FilterError (FilterValue × Json)
  parse_string value = do s ← as_str value path "a string"; ok (FilterValue.string s, Json.string s)

  unfoldable pub parse_bytes : Option ℕ → Json → Result FilterError (FilterValue × Json)
  parse_bytes size value = do
    s ← as_str value path "0x-prefixed hexadecimal bytes"
    hex ←
        ok_or (strip_prefix "0x" s)
          (error_at path (Message.expected "0x-prefixed hexadecimal bytes"))
    ensure (is_even_hex hex) (error_at path (Message.expected "even-length hexadecimal bytes"))
    bytes ← ok_or (codecs.hex_decode hex) (error_at path Message.not_coercible)
    ensure (has_size size bytes) (error_at path (wrong_size size))
    ok (FilterValue.bytes bytes, Json.string (prefix_hex (codecs.hex_encode bytes)))

  -- `parse_value`
  unfoldable pub parse_value : ValueType → Json → Result FilterError (FilterValue × Json)
  unfolding parse_uint parse_int parse_bool parse_address parse_string parse_bytes
  parse_value (ValueType.uint bits) value = parse_uint bits value
  parse_value (ValueType.int bits) value = parse_int bits value
  parse_value ValueType.bool value = parse_bool value
  parse_value ValueType.address value = parse_address value
  parse_value ValueType.string value = parse_string value
  parse_value (ValueType.bytes size) value = parse_bytes size value
