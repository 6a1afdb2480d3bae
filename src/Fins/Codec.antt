-- ===== src/Fins/Codec.antt =====
-- driver/fins/src/driver.rs: tag values to words (`tagvalue_to_words_standard`) and the decoding in
-- `decode_and_update_tag`, behind the reordering of the bytes and before the update.
-- `from_system_time` is chrono's `DateTime::from(UNIX_EPOCH + Duration::from_millis(ms))`; `none` is its
-- panic on a time out of chrono's range.
pub mod Agree
pub mod Types
use opcua_plc_bridge.Base.{
  ℕ, ◌+◌, ◌/◌, ◌%◌, ◌^◌, Bool, true, false, not, List, [], ◌∷◌, ◌++◌, Str, codes, Option, none,
  some, length, ltb, leb, ◌==◌, if◌then◌else◌, Outcome, ok, err, ◌>>◌, ◌>>=◌, fail_if,
}
use opcua_plc_bridge.Core.TagValue.{TagValue, TagDataType}
use opcua_plc_bridge.Driver.Chrono.{Chrono}
use opcua_plc_bridge.Driver.Error.{DriverError, protocol}
use opcua_plc_bridge.Driver.Utf8.{is_utf8, trim_end_zeros, hex_upper}
use opcua_plc_bridge.Driver.Words.{read_words, pad_even, u32_to_words, u64_to_words}
use opcua_plc_bridge.Modbus.Codec.{word_at, word32, word64}

pub data DecodeFailure : Type 0 where
  failed : DriverError → DecodeFailure
  panicked : DecodeFailure

-- `if data_bytes.len() < size { return Err(...) }`
unfoldable pub enough : List ℕ → ℕ → Str → Outcome DecodeFailure (Unit {0})
enough bytes size type_name =
    fail_if (ltb (length bytes) size)
      (failed (protocol (codes "Not enough data for " ++ type_name)))

module _ {T : Type 0} (chrono : Chrono T) where
  -- `tagvalue_to_words_standard`, with `bytes_to_words`.
  unfoldable pub tagvalue_to_words_standard : TagValue T → Outcome DriverError (List ℕ)
  tagvalue_to_words_standard (TagValue.bool b) = ok ((if b then 1 else 0) ∷ [])
  tagvalue_to_words_standard (TagValue.uint16 x) = ok (x ∷ [])
  tagvalue_to_words_standard (TagValue.int16 x) = ok (x ∷ [])
  tagvalue_to_words_standard (TagValue.uint32 x) = ok (u32_to_words x)
  tagvalue_to_words_standard (TagValue.int32 x) = ok (u32_to_words x)
  tagvalue_to_words_standard (TagValue.float f) = ok (u32_to_words f)
  tagvalue_to_words_standard (TagValue.double d) = ok (u64_to_words d)
  tagvalue_to_words_standard (TagValue.uint64 x) = ok (u64_to_words x)
  tagvalue_to_words_standard (TagValue.int64 x) = ok (u64_to_words x)
  tagvalue_to_words_standard (TagValue.date_time t) = ok (u64_to_words (chrono.timestamp_millis t))
  tagvalue_to_words_standard (TagValue.byte_string b) = ok (read_words (pad_even b))
  tagvalue_to_words_standard (TagValue.string s) = ok (read_words (pad_even s))

  module _ (from_system_time : ℕ → Option T) where
    abbrev or_panic : Option T → Outcome DecodeFailure (TagValue T)
    or_panic none = err panicked
    or_panic (some t) = ok (TagValue.date_time t)

    abbrev or_invalid : Option T → Outcome DecodeFailure (TagValue T)
    or_invalid none = err (failed (protocol (codes "Invalid DateTime format")))
    or_invalid (some t) = ok (TagValue.date_time t)

    -- The match of `decode_and_update_tag`, with `decode_fixed`; the shift by `bit_offset` is masked to
    -- 0 to 15, as in a release build.
    unfoldable pub decode_value : TagDataType → List ℕ → ℕ → Outcome DecodeFailure (TagValue T)
    decode_value TagDataType.bool bytes bit_offset =
        enough bytes 2 (codes "Bool")
        >> ok (TagValue.bool (not (word_at 0 bytes / 2 ^ (bit_offset % 16) % 2 == 0)))
    decode_value TagDataType.uint16 bytes bit_offset =
        enough bytes 2 (codes "UInt16") >> ok (TagValue.uint16 (word_at 0 bytes))
    decode_value TagDataType.int16 bytes bit_offset =
        enough bytes 2 (codes "Int16") >> ok (TagValue.int16 (word_at 0 bytes))
    decode_value TagDataType.uint32 bytes bit_offset =
        enough bytes 4 (codes "UInt32") >> ok (TagValue.uint32 (word32 bytes))
    decode_value TagDataType.int32 bytes bit_offset =
        enough bytes 4 (codes "Int32") >> ok (TagValue.int32 (word32 bytes))
    decode_value TagDataType.float bytes bit_offset =
        enough bytes 4 (codes "Float") >> ok (TagValue.float (word32 bytes))
    decode_value TagDataType.double bytes bit_offset =
        enough bytes 8 (codes "Double") >> ok (TagValue.double (word64 bytes))
    decode_value TagDataType.uint64 bytes bit_offset =
        enough bytes 8 (codes "UInt64") >> ok (TagValue.uint64 (word64 bytes))
    decode_value TagDataType.int64 bytes bit_offset =
        enough bytes 8 (codes "Int64") >> ok (TagValue.int64 (word64 bytes))
    decode_value TagDataType.date_time bytes bit_offset =
        if leb 8 (length bytes)
        then or_panic (from_system_time (word64 bytes))
        else if is_utf8 bytes
        then or_invalid (chrono.parse_from_rfc3339 bytes)
        else err (failed (protocol (codes "Not enough data for DateTime")))
    decode_value TagDataType.byte_string bytes bit_offset = ok (TagValue.byte_string bytes)
    decode_value TagDataType.string bytes bit_offset =
        ok (TagValue.string (if is_utf8 bytes then trim_end_zeros bytes else hex_upper bytes))
