-- ===== src/Modbus/Codec/RoundTrip.antt =====
-- Values that are written to registers and read back (driver/modbus/src/driver.rs).
use opcua_plc_bridge.Base.{
  ℕ, ◌^◌, ◌<◌, ◌≡◌, refl, true, false, List, [], ◌∷◌, All, ok, arith, ap, ◌∙◌,
}
use opcua_plc_bridge.Core.TagValue.{TagValue, InRange, IsByte, data_type}
use opcua_plc_bridge.Core.WordOrder.{WordOrder, apply_to_bytes}
use opcua_plc_bridge.Driver.Chrono.{Chrono, IsWholeMillis}
use opcua_plc_bridge.Driver.Utf8.{is_utf8, trim_end_zeros}
use opcua_plc_bridge.Driver.Words.{
  registers_to_bytes, read_words, pad_even, u32_to_words, u64_to_words, IsEven,
  registers_to_bytes-read_words, pad_even-IsEven, ordered_words, ordered_words-read,
}
use opcua_plc_bridge.Modbus.Codec.{
  word_at, word32, word64, decode_bytes_to_tagvalue, tagvalue_to_registers, or_epoch,
}

module _ {T : Type 0} (chrono : Chrono T) where
  -- Values that the registers can hold without loss: a time of whole milliseconds; bytes and texts
  -- of even length, and of texts, those that do not end in a zero.
  abbrev pub IsStorable : TagValue T → Type 0
  IsStorable (TagValue.date_time t) = IsWholeMillis chrono t
  IsStorable (TagValue.byte_string b) = All IsByte b × IsEven b
  IsStorable (TagValue.string s) =
      All IsByte s × IsEven s × (is_utf8 s ≡ true) × (trim_end_zeros s ≡ s)
  IsStorable v = InRange v

  word32-u32_to_words : (v : ℕ) → v < 2 ^ 32 → word32 (registers_to_bytes (u32_to_words v)) ≡ v
  unfolding word32 registers_to_bytes u32_to_words
  word32-u32_to_words v h = omega arith

  pub word64-u64_to_words : (v : ℕ) → v < 2 ^ 64 → word64 (registers_to_bytes (u64_to_words v)) ≡ v
  unfolding word64 registers_to_bytes u64_to_words
  word64-u64_to_words v h = omega arith

  bytes-read :
      (b : List ℕ) → All IsByte b → IsEven b → registers_to_bytes (read_words (pad_even b)) ≡ b
  bytes-read b h e = rw (pad_even-IsEven b e) (registers_to_bytes-read_words b h e)

  -- The registers of a storable value decode, at bit 0, to that value.
  pub decode-registers :
      (v : TagValue T)
      → IsStorable v
      → (ws : List ℕ) × (tagvalue_to_registers chrono v ≡ ok ws)
        × (decode_bytes_to_tagvalue chrono (data_type v) (registers_to_bytes ws) 0 ≡ ok v)
  unfolding tagvalue_to_registers decode_bytes_to_tagvalue data_type
  decode-registers (TagValue.bool true) h =
      (1 ∷ [], refl, unfold word_at registers_to_bytes in refl)
  decode-registers (TagValue.bool false) h =
      (0 ∷ [], refl, unfold word_at registers_to_bytes in refl)
  decode-registers (TagValue.int16 v) h =
      (v ∷ [], refl, ap ok (ap TagValue.int16 (unfold word_at registers_to_bytes in omega arith)))
  decode-registers (TagValue.uint16 v) h =
      (v ∷ [], refl, ap ok (ap TagValue.uint16 (unfold word_at registers_to_bytes in omega arith)))
  decode-registers (TagValue.int32 v) h =
      (u32_to_words v, refl, ap ok (ap TagValue.int32 (word32-u32_to_words v h)))
  decode-registers (TagValue.uint32 v) h =
      (u32_to_words v, refl, ap ok (ap TagValue.uint32 (word32-u32_to_words v h)))
  decode-registers (TagValue.float v) h =
      (u32_to_words v, refl, ap ok (ap TagValue.float (word32-u32_to_words v h)))
  decode-registers (TagValue.int64 v) h =
      (u64_to_words v, refl, ap ok (ap TagValue.int64 (word64-u64_to_words v h)))
  decode-registers (TagValue.uint64 v) h =
      (u64_to_words v, refl, ap ok (ap TagValue.uint64 (word64-u64_to_words v h)))
  decode-registers (TagValue.double v) h =
      (u64_to_words v, refl, ap ok (ap TagValue.double (word64-u64_to_words v h)))
  decode-registers (TagValue.date_time t) h =
      let ms = chrono.timestamp_millis t in
      (
        u64_to_words ms,
        refl,
        unfold registers_to_bytes u64_to_words in
            ap ok (
              ap TagValue.date_time (
                ap (or_epoch chrono)
                  (ap chrono.from_timestamp_millis (word64-u64_to_words ms h.1) ∙ h.0))),
      )
  decode-registers (TagValue.byte_string b) h =
      (read_words (pad_even b), refl, ap ok (ap TagValue.byte_string (bytes-read b h.0 h.1)))
  decode-registers (TagValue.string s) h = (
    read_words (pad_even s),
    refl,
    rw (bytes-read s h.0 h.1, h.2) (ap ok (ap TagValue.string h.3)),
  )

  -- A storable value that is converted to registers, sent under a word order and read back under
  -- the same order, is decoded, by its own type and at bit 0, to the value itself.
  pub write_then_read :
      (v : TagValue T) (o : WordOrder)
      → IsStorable v
      → (ws : List ℕ) × (tagvalue_to_registers chrono v ≡ ok ws)
        × (decode_bytes_to_tagvalue chrono
              (data_type v)
              (apply_to_bytes o (registers_to_bytes (ordered_words o ws)))
              0
            ≡ ok v)
  write_then_read v o h =
      let (ws, sent, read) = decode-registers v h in (ws, sent, rw (ordered_words-read o ws) read)
