-- ===== src/Server/Variant/RoundTrip.antt =====
-- Tag values through variants and back (opcua-server/src/native.rs).
use opcua_plc_bridge.Base.{ℕ, ◌≡◌, refl, some, ok, arith}
use opcua_plc_bridge.Core.TagValue.{TagValue, TagDataType, data_type}
use opcua_plc_bridge.Server.Variant.{
  Ua, Variant, or_empty, tagvalue_to_variant, variant_to_tagvalue,
}

module _ {T S D B : Type 0} (ua : Ua T S D B) where
  -- What the round trip needs of the libraries at a value: that a text and a byte string are read as
  -- they were made, and that a time has a number of nanoseconds that both libraries keep.
  abbrev pub IsKeptByUa : TagValue T → Type 0
  IsKeptByUa (TagValue.string s) = (x : S) × (ua.string_new s ≡ some x) × (ua.as_str x ≡ some s)
  IsKeptByUa (TagValue.date_time t) =
      (nanos : ℕ) × (x : D) × (ua.timestamp_nanos_opt t ≡ some nanos)
      × (ua.try_from_unix_timestamp_nanos nanos ≡ some x)
      × (ua.from_timestamp_nanos (ua.as_unix_timestamp_nanos x) ≡ t)
  IsKeptByUa (TagValue.byte_string b) = or_empty ua (ua.as_bytes (ua.byte_string_new b)) ≡ b
  IsKeptByUa _ = Unit {0}

  -- A value of any of the twelve types that the libraries keep is served as a variant that is read
  -- back, under the value's own type, as the value itself.
  pub variant_round_trip :
      (v : TagValue T)
      → IsKeptByUa v
      → (x : Variant S D B) × (tagvalue_to_variant ua v ≡ some x)
        × (variant_to_tagvalue ua x (data_type v) ≡ ok v)
  unfolding tagvalue_to_variant variant_to_tagvalue data_type
  variant_round_trip (TagValue.bool b) h = (Variant.boolean b, refl, refl)
  variant_round_trip (TagValue.int16 v) h = (Variant.int16 v, refl, refl)
  variant_round_trip (TagValue.uint16 v) h = (Variant.uint16 v, refl, refl)
  variant_round_trip (TagValue.int32 v) h = (Variant.int32 v, refl, refl)
  variant_round_trip (TagValue.uint32 v) h = (Variant.uint32 v, refl, refl)
  variant_round_trip (TagValue.int64 v) h = (Variant.int64 v, refl, refl)
  variant_round_trip (TagValue.uint64 v) h = (Variant.uint64 v, refl, refl)
  variant_round_trip (TagValue.float v) h = (Variant.float v, refl, refl)
  variant_round_trip (TagValue.double v) h = (Variant.double v, refl, refl)
  variant_round_trip (TagValue.string s) (x, made, read) =
      rw made (Variant.string x, refl, rw read refl)
  variant_round_trip (TagValue.date_time t) (nanos, x, made, kept, read) =
      rw (made, kept) (Variant.date_time x, refl, rw read refl)
  variant_round_trip (TagValue.byte_string b) h =
      (Variant.byte_string (ua.byte_string_new b), refl, rw h refl)

  -- A variant is read as a value of the type that was expected, where it is read at all.
  pub variant_to_tagvalue-type :
      (x : Variant S D B) (expected : TagDataType) (v : TagValue T)
      → variant_to_tagvalue ua x expected ≡ ok v
      → data_type v ≡ expected
  unfolding variant_to_tagvalue data_type
  variant_to_tagvalue-type x expected v e = ground arith
