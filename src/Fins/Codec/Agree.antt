-- ===== src/Fins/Codec/Agree.antt =====
-- The codecs of the two drivers (driver/fins/src/driver.rs, driver/modbus/src/driver.rs).
use opcua_plc_bridge.Base.{
  ℕ, ◌^◌, some, ◌≤◌, ◌<◌, ◌≡◌, ◌≢◌, refl, ◌∙◌, true, List, Option, length, ok, is_err, arith,
}
use opcua_plc_bridge.Core.TagValue.{TagValue, TagDataType, data_type}
use opcua_plc_bridge.Core.WordOrder.{WordOrder, apply_to_bytes}
use opcua_plc_bridge.Driver.Chrono.{Chrono}
use opcua_plc_bridge.Driver.Words.{
  registers_to_bytes, u32_to_words, u64_to_words, length-registers_to_bytes, ordered_words,
  ordered_words-read,
}
use opcua_plc_bridge.Modbus.Codec.{decode_bytes_to_tagvalue, tagvalue_to_registers}
use opcua_plc_bridge.Modbus.Codec.RoundTrip.{IsStorable, decode-registers, word64-u64_to_words}
use opcua_plc_bridge.Fins.Codec.{enough, tagvalue_to_words_standard, decode_value}

-- The bytes that a value of a type takes at least.
abbrev pub size : TagDataType → ℕ
size TagDataType.bool = 2
size TagDataType.uint16 = 2
size TagDataType.int16 = 2
size TagDataType.uint32 = 4
size TagDataType.int32 = 4
size TagDataType.float = 4
size TagDataType.double = 8
size TagDataType.uint64 = 8
size TagDataType.int64 = 8
size _ = 0

module _ {T : Type 0} (chrono : Chrono T) (from_system_time : ℕ → Option T) where
  -- For every type but DateTime, the FINS driver answers bytes that are too few for the type with
  -- an error.
  pub decode_value_short :
      (dt : TagDataType) (bytes : List ℕ) (bit_offset : ℕ)
      → dt ≢ TagDataType.date_time
      → length bytes < size dt
      → is_err (decode_value chrono from_system_time dt bytes bit_offset) ≡ true
  unfolding decode_value enough
  decode_value_short TagDataType.date_time bytes bit_offset n h = absurd (n refl)
  decode_value_short TagDataType.byte_string bytes bit_offset n h = absurd (omega arith)
  decode_value_short TagDataType.string bytes bit_offset n h = absurd (omega arith)
  decode_value_short dt bytes bit_offset n h = ground arith

  decode_value-decode :
      (dt : TagDataType) (bytes : List ℕ) (bit_offset : ℕ) (v : TagValue T)
      → dt ≢ TagDataType.date_time
      → size dt ≤ length bytes
      → decode_bytes_to_tagvalue chrono dt bytes bit_offset ≡ ok v
      → decode_value chrono from_system_time dt bytes bit_offset ≡ ok v
  unfolding decode_value enough decode_bytes_to_tagvalue
  decode_value-decode TagDataType.date_time bytes bit_offset v n h e = absurd (n refl)
  decode_value-decode TagDataType.byte_string bytes bit_offset v n h e = ground arith
  decode_value-decode TagDataType.string bytes bit_offset v n h e = ground arith
  decode_value-decode dt bytes bit_offset v n h e = ground arith

  same_words :
      (v : TagValue T) → tagvalue_to_words_standard chrono v ≡ tagvalue_to_registers chrono v
  unfolding tagvalue_to_words_standard tagvalue_to_registers
  same_words (TagValue.bool b) = refl
  same_words _ = refl

  size-words :
      (v : TagValue T) (ws : List ℕ)
      → tagvalue_to_registers chrono v ≡ ok ws
      → size (data_type v) ≤ length (registers_to_bytes ws)
  unfolding tagvalue_to_registers data_type u32_to_words u64_to_words registers_to_bytes
  size-words v ws e = ground (arith, length-registers_to_bytes ws)

  plain_then_decode :
      (v : TagValue T) (o : WordOrder)
      → IsStorable chrono v
      → data_type v ≢ TagDataType.date_time
      → (ws : List ℕ) × (tagvalue_to_words_standard chrono v ≡ ok ws)
        × (decode_value chrono from_system_time
              (data_type v)
              (apply_to_bytes o (registers_to_bytes (ordered_words o ws)))
              0
            ≡ ok v)
  plain_then_decode v o h n =
      let (ws, sent, read) = decode-registers chrono v h in
      (
        ws,
        same_words v ∙ sent,
        rw (ordered_words-read o ws) (
            decode_value-decode (data_type v) (registers_to_bytes ws) 0 v n (size-words v ws sent)
              read),
      )

  -- Values that the FINS driver holds without loss: a time is one of whole milliseconds and not before
  -- 1970, which the conversion from a number of milliseconds gives back.
  abbrev pub IsFinsStorable : TagValue T → Type 0
  IsFinsStorable (TagValue.date_time t) =
      (from_system_time (chrono.timestamp_millis t) ≡ some t) × (chrono.timestamp_millis t < 2 ^ 63)
  IsFinsStorable v = IsStorable chrono v

  time_then_decode :
      (t : T)
      → IsFinsStorable (TagValue.date_time t)
      → decode_value chrono from_system_time TagDataType.date_time
          (registers_to_bytes (u64_to_words (chrono.timestamp_millis t)))
          0
        ≡ ok (TagValue.date_time t)
  unfolding decode_value
  time_then_decode t (given, small) =
      let ms = chrono.timestamp_millis t in
      let same = word64-u64_to_words chrono ms (omega (arith, small)) in
      rw (same, given) (unfold registers_to_bytes u64_to_words in refl)

  -- A storable value of any of the twelve types, a time being one not before 1970, that is converted
  -- to words, sent under a word order and read back by the FINS driver under the same order is
  -- decoded, by its own type and at bit 0, to the value itself.
  pub words_then_decode :
      (v : TagValue T) (o : WordOrder)
      → IsFinsStorable v
      → (ws : List ℕ) × (tagvalue_to_words_standard chrono v ≡ ok ws)
        × (decode_value chrono from_system_time
              (data_type v)
              (apply_to_bytes o (registers_to_bytes (ordered_words o ws)))
              0
            ≡ ok v)
  unfolding data_type tagvalue_to_words_standard
  words_then_decode (TagValue.date_time t) o h = (
    u64_to_words (chrono.timestamp_millis t),
    refl,
    rw (ordered_words-read o (u64_to_words (chrono.timestamp_millis t))) (time_then_decode t h),
  )
  words_then_decode v o h = plain_then_decode v o h (λ e. cc)
