-- ===== src/Core/TagValue.antt =====
-- core-model/src/tag_value.rs: values of tags, their types and qualities. A signed integer of
-- w bits and a float are the bit pattern that they are stored as, a number below 2 ^ w, so that
-- Rust's `as` casts between them and `from_bits`/`to_bits` are the identity. A string is its
-- UTF-8 bytes. `T` is chrono's `DateTime<Utc>`.
use opcua_plc_bridge.Base.{ℕ, Bool, true, ◌≡◌, ◌<◌, ◌^◌, ◌↔◌, Str, List, All, ◌==◌, arith}

pub data TagDataType : Type 0 where
  bool int16 uint16 int32 uint32 int64 uint64 float double string date_time byte_string :
      TagDataType

pub data TagValue (T : Type 0) : Type 0 where
  bool : Bool → TagValue T
  int16 uint16 int32 uint32 int64 uint64 float double : ℕ → TagValue T
  string : Str → TagValue T
  date_time : T → TagValue T
  byte_string : List ℕ → TagValue T

pub data TagQuality : Type 0 where
  good initializing stale comm_lost config_error type_mismatch substitute : TagQuality
  error : Str → TagQuality

-- The derived `PartialEq` of an enum without fields compares the discriminants.
unfoldable pub discriminant : TagDataType → ℕ
discriminant bool = 0
discriminant int16 = 1
discriminant uint16 = 2
discriminant int32 = 3
discriminant uint32 = 4
discriminant int64 = 5
discriminant uint64 = 6
discriminant float = 7
discriminant double = 8
discriminant string = 9
discriminant date_time = 10
discriminant byte_string = 11

unfoldable pub same_type : TagDataType → TagDataType → Bool
unfolding discriminant
same_type a b = discriminant a == discriminant b

pub same_type_iff : (a b : TagDataType) → (same_type a b ≡ true) ↔ (a ≡ b)
unfolding same_type
same_type_iff a b = ground arith

abbrev pub IsByte : ℕ → Type 0
IsByte b = b < 256

module _ {T : Type 0} where
  unfoldable pub data_type : TagValue T → TagDataType
  data_type (TagValue.bool _) = TagDataType.bool
  data_type (TagValue.int16 _) = TagDataType.int16
  data_type (TagValue.uint16 _) = TagDataType.uint16
  data_type (TagValue.int32 _) = TagDataType.int32
  data_type (TagValue.uint32 _) = TagDataType.uint32
  data_type (TagValue.int64 _) = TagDataType.int64
  data_type (TagValue.uint64 _) = TagDataType.uint64
  data_type (TagValue.float _) = TagDataType.float
  data_type (TagValue.double _) = TagDataType.double
  data_type (TagValue.string _) = TagDataType.string
  data_type (TagValue.date_time _) = TagDataType.date_time
  data_type (TagValue.byte_string _) = TagDataType.byte_string

  unfoldable pub matches : TagValue T → TagDataType → Bool
  unfolding same_type data_type
  matches v expected = same_type (data_type v) expected

  -- The payload fits the Rust type of its variant.
  abbrev pub InRange : TagValue T → Type 0
  InRange (TagValue.int16 v) = v < 2 ^ 16
  InRange (TagValue.uint16 v) = v < 2 ^ 16
  InRange (TagValue.int32 v) = v < 2 ^ 32
  InRange (TagValue.uint32 v) = v < 2 ^ 32
  InRange (TagValue.float v) = v < 2 ^ 32
  InRange (TagValue.int64 v) = v < 2 ^ 64
  InRange (TagValue.uint64 v) = v < 2 ^ 64
  InRange (TagValue.double v) = v < 2 ^ 64
  InRange (TagValue.string s) = All IsByte s
  InRange (TagValue.byte_string b) = All IsByte b
  InRange _ = Unit {0}
