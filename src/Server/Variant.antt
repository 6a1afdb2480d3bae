-- ===== src/Server/Variant.antt =====
-- opcua-server/src/native.rs: tag values as OPC UA variants. The types of open62541 and chrono's
-- conversions are parameters: a Unix time in nanoseconds is an `i64` as its bit pattern.
pub mod RoundTrip
use opcua_plc_bridge.Base.{ℕ, Bool, List, [], Str, codes, Option, none, some, Outcome, ok, err}
use opcua_plc_bridge.Core.TagValue.{TagValue, TagDataType}

-- `S`, `D` and `B` are `ua::String`, `ua::DateTime` and `ua::ByteString`.
pub record Ua (T S D B : Type 0) : Type 0 where
  pub string_new : Str → Option S
  pub as_str : S → Option Str
  pub try_from_unix_timestamp_nanos : ℕ → Option D
  pub as_unix_timestamp_nanos : D → ℕ
  pub byte_string_new : List ℕ → B
  pub as_bytes : B → Option (List ℕ)
  pub timestamp_nanos_opt : T → Option ℕ
  pub from_timestamp_nanos : ℕ → T

-- A scalar of one of the types that are used, or anything else.
pub data Variant (S D B : Type 0) : Type 0 where
  boolean : Bool → Variant S D B
  int16 uint16 int32 uint32 int64 uint64 float double : ℕ → Variant S D B
  string : S → Variant S D B
  date_time : D → Variant S D B
  byte_string : B → Variant S D B
  other : Variant S D B

module _ {T S D B : Type 0} (ua : Ua T S D B) where
  abbrev as_string : Option S → Option (Variant S D B)
  as_string none = none
  as_string (some s) = some (Variant.string s)

  abbrev as_date_time : Option D → Option (Variant S D B)
  as_date_time none = none
  as_date_time (some d) = some (Variant.date_time d)

  -- The two conversions that can fail, each with `?`.
  abbrev from_nanos : Option ℕ → Option (Variant S D B)
  from_nanos none = none
  from_nanos (some nanos) = as_date_time (ua.try_from_unix_timestamp_nanos nanos)

  -- `tagvalue_to_variant`
  unfoldable pub tagvalue_to_variant : TagValue T → Option (Variant S D B)
  tagvalue_to_variant (TagValue.bool b) = some (Variant.boolean b)
  tagvalue_to_variant (TagValue.int16 v) = some (Variant.int16 v)
  tagvalue_to_variant (TagValue.uint16 v) = some (Variant.uint16 v)
  tagvalue_to_variant (TagValue.int32 v) = some (Variant.int32 v)
  tagvalue_to_variant (TagValue.uint32 v) = some (Variant.uint32 v)
  tagvalue_to_variant (TagValue.int64 v) = some (Variant.int64 v)
  tagvalue_to_variant (TagValue.uint64 v) = some (Variant.uint64 v)
  tagvalue_to_variant (TagValue.float v) = some (Variant.float v)
  tagvalue_to_variant (TagValue.double v) = some (Variant.double v)
  tagvalue_to_variant (TagValue.string s) = as_string (ua.string_new s)
  tagvalue_to_variant (TagValue.date_time t) = from_nanos (ua.timestamp_nanos_opt t)
  tagvalue_to_variant (TagValue.byte_string b) = some (Variant.byte_string (ua.byte_string_new b))

  -- `unwrap_or("")`, `unwrap_or(&[])`
  abbrev pub or_empty : Option (List ℕ) → List ℕ
  or_empty none = []
  or_empty (some s) = s

  -- `variant_to_tagvalue`
  unfoldable pub variant_to_tagvalue : Variant S D B → TagDataType → Outcome Str (TagValue T)
  variant_to_tagvalue (Variant.boolean b) TagDataType.bool = ok (TagValue.bool b)
  variant_to_tagvalue (Variant.int16 v) TagDataType.int16 = ok (TagValue.int16 v)
  variant_to_tagvalue (Variant.uint16 v) TagDataType.uint16 = ok (TagValue.uint16 v)
  variant_to_tagvalue (Variant.int32 v) TagDataType.int32 = ok (TagValue.int32 v)
  variant_to_tagvalue (Variant.uint32 v) TagDataType.uint32 = ok (TagValue.uint32 v)
  variant_to_tagvalue (Variant.int64 v) TagDataType.int64 = ok (TagValue.int64 v)
  variant_to_tagvalue (Variant.uint64 v) TagDataType.uint64 = ok (TagValue.uint64 v)
  variant_to_tagvalue (Variant.float v) TagDataType.float = ok (TagValue.float v)
  variant_to_tagvalue (Variant.double v) TagDataType.double = ok (TagValue.double v)
  variant_to_tagvalue (Variant.string s) TagDataType.string =
      ok (TagValue.string (or_empty (ua.as_str s)))
  variant_to_tagvalue (Variant.date_time d) TagDataType.date_time =
      ok (TagValue.date_time (ua.from_timestamp_nanos (ua.as_unix_timestamp_nanos d)))
  variant_to_tagvalue (Variant.byte_string b) TagDataType.byte_string =
      ok (TagValue.byte_string (or_empty (ua.as_bytes b)))
  variant_to_tagvalue _ TagDataType.bool = err (codes "Expected Boolean")
  variant_to_tagvalue _ TagDataType.int16 = err (codes "Expected Int16")
  variant_to_tagvalue _ TagDataType.uint16 = err (codes "Expected UInt16")
  variant_to_tagvalue _ TagDataType.int32 = err (codes "Expected Int32")
  variant_to_tagvalue _ TagDataType.uint32 = err (codes "Expected UInt32")
  variant_to_tagvalue _ TagDataType.int64 = err (codes "Expected Int64")
  variant_to_tagvalue _ TagDataType.uint64 = err (codes "Expected UInt64")
  variant_to_tagvalue _ TagDataType.float = err (codes "Expected Float")
  variant_to_tagvalue _ TagDataType.double = err (codes "Expected Double")
  variant_to_tagvalue _ TagDataType.string = err (codes "Expected String")
  variant_to_tagvalue _ TagDataType.date_time = err (codes "Expected DateTime")
  variant_to_tagvalue _ TagDataType.byte_string = err (codes "Expected ByteString")
