-- ===== src/Modbus/Codec.antt =====
-- driver/modbus/src/driver.rs: tag values to registers (`tagvalue_to_registers`) and register bytes
-- to tag values (`decode_bytes_to_tagvalue`).
pub mod RoundTrip
use opcua_plc_bridge.Base.{
  ℕ, zero, suc, ◌+◌, ◌*◌, ◌/◌, ◌%◌, ◌^◌, Bool, true, false, not, List, [], ◌∷◌, Str, codes, Option,
  none, some, length, take, ltb, leb, ◌==◌, if◌then◌else◌, Outcome, ok, err,
}
use opcua_plc_bridge.Core.TagValue.{TagValue, TagDataType}
use opcua_plc_bridge.Driver.Chrono.{Chrono}
use opcua_plc_bridge.Driver.Error.{DriverError, other}
use opcua_plc_bridge.Driver.Utf8.{is_utf8, trim_end_zeros, hex_upper}
use opcua_plc_bridge.Driver.Words.{read_words, pad_even, u32_to_words, u64_to_words}

-- The `k`-th `cur.read_u16::<BigEndian>().unwrap_or(0)` of a buffer.
unfoldable pub word_at : ℕ → List ℕ → ℕ
word_at zero (hi ∷ lo ∷ rest) = hi * 2 ^ 8 + lo
word_at (suc k) (hi ∷ lo ∷ rest) = word_at k rest
word_at _ _ = 0

-- `(hi << 16) | lo`
unfoldable pub word32 : List ℕ → ℕ
unfolding word_at
word32 bytes = word_at 0 bytes * 2 ^ 16 + word_at 1 bytes

-- `(w0 << 48) | (w1 << 32) | (w2 << 16) | w3`, and `read_i64` of eight bytes.
unfoldable pub word64 : List ℕ → ℕ
unfolding word_at
word64 bytes =
    word_at 0 bytes * 2 ^ 48 + word_at 1 bytes * 2 ^ 32 + word_at 2 bytes * 2 ^ 16 + word_at 3 bytes

module _ {T : Type 0} (chrono : Chrono T) where
  abbrev or_epoch : Option T → T
  or_epoch none = chrono.unix_epoch
  or_epoch (some t) = t

  abbrev parsed : Option T → Outcome DriverError (TagValue T)
  parsed none = err (other (codes "Invalid DateTime format"))
  parsed (some t) = ok (TagValue.date_time t)

  -- `decode_bytes_to_tagvalue`; the shift by `bit_offset` is masked to 0 to 15, as in a release build.
  unfoldable pub decode_bytes_to_tagvalue :
      TagDataType → List ℕ → ℕ → Outcome DriverError (TagValue T)
  decode_bytes_to_tagvalue TagDataType.bool bytes bit_offset =
      ok (TagValue.bool (not (word_at 0 bytes / 2 ^ (bit_offset % 16) % 2 == 0)))
  decode_bytes_to_tagvalue TagDataType.uint16 bytes bit_offset =
      ok (TagValue.uint16 (word_at 0 bytes))
  decode_bytes_to_tagvalue TagDataType.int16 bytes bit_offset =
      ok (TagValue.int16 (word_at 0 bytes))
  decode_bytes_to_tagvalue TagDataType.uint32 bytes bit_offset = ok (TagValue.uint32 (word32 bytes))
  decode_bytes_to_tagvalue TagDataType.int32 bytes bit_offset = ok (TagValue.int32 (word32 bytes))
  decode_bytes_to_tagvalue TagDataType.float bytes bit_offset = ok (TagValue.float (word32 bytes))
  decode_bytes_to_tagvalue TagDataType.double bytes bit_offset = ok (TagValue.double (word64 bytes))
  decode_bytes_to_tagvalue TagDataType.int64 bytes bit_offset = ok (TagValue.int64 (word64 bytes))
  decode_bytes_to_tagvalue TagDataType.uint64 bytes bit_offset = ok (TagValue.uint64 (word64 bytes))
  decode_bytes_to_tagvalue TagDataType.date_time bytes bit_offset =
      if leb 8 (length bytes)
      then ok (TagValue.date_time (or_epoch (chrono.from_timestamp_millis (word64 bytes))))
      else if is_utf8 bytes
      then parsed (chrono.parse_from_rfc3339 bytes)
      else err (other (codes "Not enough data for DateTime and not valid UTF-8"))
  decode_bytes_to_tagvalue TagDataType.byte_string bytes bit_offset =
      ok (TagValue.byte_string bytes)
  decode_bytes_to_tagvalue TagDataType.string bytes bit_offset =
      ok (TagValue.string (if is_utf8 bytes then trim_end_zeros bytes else hex_upper bytes))

  -- `tagvalue_to_registers`
  unfoldable pub tagvalue_to_registers : TagValue T → Outcome DriverError (List ℕ)
  tagvalue_to_registers (TagValue.bool b) = ok ((if b then 1 else 0) ∷ [])
  tagvalue_to_registers (TagValue.uint16 v) = ok (v ∷ [])
  tagvalue_to_registers (TagValue.int16 v) = ok (v ∷ [])
  tagvalue_to_registers (TagValue.uint32 v) = ok (u32_to_words v)
  tagvalue_to_registers (TagValue.int32 v) = ok (u32_to_words v)
  tagvalue_to_registers (TagValue.float v) = ok (u32_to_words v)
  tagvalue_to_registers (TagValue.double v) = ok (u64_to_words v)
  tagvalue_to_registers (TagValue.uint64 v) = ok (u64_to_words v)
  tagvalue_to_registers (TagValue.int64 v) = ok (u64_to_words v)
  tagvalue_to_registers (TagValue.date_time t) = ok (u64_to_words (chrono.timestamp_millis t))
  tagvalue_to_registers (TagValue.byte_string b) = ok (read_words (pad_even b))
  tagvalue_to_registers (TagValue.string s) = ok (read_words (pad_even s))
