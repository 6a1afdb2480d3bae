-- ===== src/Runtime/Tags.antt =====
-- runtime/src/tags.rs: from the configuration of a tag to its definition and its mappings.
pub mod Agree
pub mod Accepted
use opcua_plc_bridge.Base.{
  ℕ, ◌-◌, ◌*◌, ◌^◌, ◌||◌, not, ◌&&◌, List, [], ◌∷◌, Str, codes, str_eq, Option, none, some, leb,
  ltb, ◌==◌, if◌then◌else◌, Outcome, ok, err, ◌>>◌, ◌>>=◌, fail_if,
}
use opcua_plc_bridge.Core.TagValue.{TagDataType}
use opcua_plc_bridge.Core.WordOrder.{WordOrder}
use opcua_plc_bridge.Core.TagDefinition.{TagDefinition, new_definition}
use opcua_plc_bridge.Modbus.Mapping.{ModbusFunction, ModbusMapping, coils, holding_registers}
use opcua_plc_bridge.Fins.Mapping.{TagMapping}
use opcua_plc_bridge.Runtime.Config.{TagConfig}
use opcua_plc_bridge.Runtime.Text.{trim, all_digits, parse_u32, to_lowercase}

-- An error is the constructor that stands for its message.
pub data TagError : Type 0 where
  unknown_byte_order unsupported_data_type invalid_address invalid_d_address unsupported_address :
      Str → TagError
  empty_address : TagError
  exceeds_u16 incompatible_word_count : ℕ → TagError

unfoldable pub parse_byte_order : Option Str → Outcome TagError WordOrder
parse_byte_order none = ok WordOrder.abcd
parse_byte_order (some s) =
    if str_eq s (codes "ABCD") || str_eq s (codes "abcd")
    then ok WordOrder.abcd
    else if str_eq s (codes "BADC") || str_eq s (codes "badc")
    then ok WordOrder.badc
    else if str_eq s (codes "CDAB") || str_eq s (codes "cdab")
    then ok WordOrder.cdab
    else if str_eq s (codes "DCBA") || str_eq s (codes "dcba")
    then ok WordOrder.dcba
    else err (unknown_byte_order s)

-- The arms of the match on the text in lower case, in their order.
abbrev pub type_names : List (Str × TagDataType)
type_names =
    (codes "bool", TagDataType.bool)
    ∷ (codes "int16", TagDataType.int16)
    ∷ (codes "uint16", TagDataType.uint16)
    ∷ (codes "int32", TagDataType.int32)
    ∷ (codes "uint32", TagDataType.uint32)
    ∷ (codes "int64", TagDataType.int64)
    ∷ (codes "uint64", TagDataType.uint64)
    ∷ (codes "float", TagDataType.float)
    ∷ (codes "double", TagDataType.double)
    ∷ (codes "string", TagDataType.string)
    ∷ (codes "datetime", TagDataType.date_time)
    ∷ (codes "bytestring", TagDataType.byte_string)
    ∷ (codes "byte_string", TagDataType.byte_string)
    ∷ []

unfoldable pub match_type : Str → List (Str × TagDataType) → Outcome TagError TagDataType
match_type s [] = err (unsupported_data_type s)
match_type s ((name, dt) ∷ arms) =
    let rest = match_type s arms in if str_eq s name then ok dt else rest

unfoldable pub parse_data_type : Str → Outcome TagError TagDataType
unfolding match_type
parse_data_type s = match_type (to_lowercase s) type_names

unfoldable pub tagconfig_to_definition : TagConfig → Str → Outcome TagError TagDefinition
tagconfig_to_definition t plc_name = do
  dt ← parse_data_type t.data_type
  byte_order ← parse_byte_order t.byte_order
  ok (record (new_definition t.id t.name t.address dt plc_name) {
    writable = t.writable;
    byte_order = byte_order;
  })

-- `digits.parse::<u32>().with_context(...)`, whose message has the whole address.
abbrev or_invalid : Str → Option ℕ → Outcome TagError ℕ
or_invalid addr none = err (invalid_address addr)
or_invalid addr (some n) = ok n

abbrev pub parse_address : Str → Str → Outcome TagError ℕ
parse_address addr digits = or_invalid addr (parse_u32 digits)

-- `0x82`, the D memory area.
abbrev pub d_area : ℕ
d_area = 0x82

-- The area and the digits of an address without an explicit area.
abbrev area_and_digits : Str → Outcome TagError (ℕ × Str)
area_and_digits [] = ok (d_area, [])
area_and_digits (c ∷ rest) =
    if c == 68 || c == 100
    then if str_eq rest [] || not (all_digits rest)
      then err (invalid_d_address (c ∷ rest))
      else ok (d_area, rest)
    else if all_digits (c ∷ rest)
    then ok (d_area, c ∷ rest)
    else err (unsupported_address (c ∷ rest))

abbrev area_and_address : Option ℕ → Str → Outcome TagError (ℕ × ℕ)
area_and_address (some explicit_area) addr =
    parse_address addr addr >>= λ raw. ok (explicit_area, raw)
area_and_address none addr =
    area_and_digits addr >>= λ p. parse_address addr p.1 >>= λ address. ok (p.0, address)

-- `t.word_count.unwrap_or(1)`
abbrev pub words_or_one : Option ℕ → ℕ
words_or_one none = 1
words_or_one (some n) = n

-- The match on the data type, the same for both drivers.
unfoldable pub check_words : TagDataType → ℕ → Outcome TagError (Unit {0})
check_words TagDataType.float n = fail_if (ltb n 2) (incompatible_word_count n)
check_words TagDataType.int32 n = fail_if (ltb n 2) (incompatible_word_count n)
check_words TagDataType.uint32 n = fail_if (ltb n 2) (incompatible_word_count n)
check_words TagDataType.double n = fail_if (ltb n 4) (incompatible_word_count n)
check_words _ n = ok tt

unfoldable pub tagconfig_to_fins_mapping : TagConfig → Outcome TagError TagMapping
tagconfig_to_fins_mapping t = do
  fail_if (str_eq (trim t.address) []) empty_address
  place ← area_and_address t.area (trim t.address)
  dt ← parse_data_type t.data_type
  check_words dt (words_or_one t.word_count)
  byte_order ← parse_byte_order t.byte_order
  ok (record {
    tag_id = t.id;
    area = place.0;
    address = place.1;
    bit_offset = 0;
    word_count = words_or_one t.word_count;
    writable = t.writable;
    byte_order = byte_order;
    data_type = dt;
  })

-- `if raw >= 40001 { raw - 40001 } else { raw }`
unfoldable pub normalize : ℕ → ℕ
normalize raw = if leb 40001 raw then raw - 40001 else raw

-- The match on the data type that chooses the function.
unfoldable pub default_function : TagDataType → ModbusFunction
default_function TagDataType.bool = coils
default_function _ = holding_registers

unfoldable pub tagconfig_to_modbus_mapping : TagConfig → Outcome TagError ModbusMapping
unfolding normalize
tagconfig_to_modbus_mapping t = do
  raw ← parse_address (trim t.address) (trim t.address)
  fail_if (ltb 65535 (normalize raw)) (exceeds_u16 (normalize raw))
  dt ← parse_data_type t.data_type
  check_words dt (words_or_one t.word_count)
  byte_order ← parse_byte_order t.byte_order
  ok (record {
    tag_id = t.id;
    data_type = dt;
    address = normalize raw;
    quantity = words_or_one t.word_count;
    function = default_function dt;
    bit_offset = 0;
    writable = t.writable;
    byte_order = byte_order;
  })
