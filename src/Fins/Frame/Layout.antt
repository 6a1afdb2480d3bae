-- ===== src/Fins/Frame/Layout.antt =====
-- What the frames hold (driver/fins/src/driver.rs).
use opcua_plc_bridge.Base.{
  ℕ, ◌+◌, ◌*◌, ◌^◌, ◌<◌, ◌≡◌, refl, List, [], ◌∷◌, codes, length, drop, All, Outcome, ok, err,
  arith,
}
use opcua_plc_bridge.Driver.Error.{DriverError, protocol}
use opcua_plc_bridge.Driver.Words.{
  IsWord, read_words, length-registers_to_bytes, read_words-registers_to_bytes,
}
use opcua_plc_bridge.Fins.Frame.{build_fins_frame, build_memory_write, byte_at, parse_fins_response}

-- What the bytes behind a response's command say: an end code of two bytes, then the data.
abbrev pub response : ℕ → List ℕ → Outcome DriverError (ℕ × ℕ × List ℕ)
response sid (hi ∷ lo ∷ data_bytes) = ok (sid, hi * 2 ^ 8 + lo, data_bytes)
response sid _ = err (protocol (codes "Frame too short"))

-- A frame as the driver builds it for a session, with any command, is parsed as that session's
-- response: the two bytes behind the command are the end code and the rest is the data; where there are
-- fewer than two, the frame is too short.
pub parse_fins_response-build_fins_frame :
    (sid : ℕ) (command : ℕ × ℕ) (params : List ℕ)
    → parse_fins_response (build_fins_frame sid command params) ≡ response sid params
unfolding parse_fins_response build_fins_frame byte_at
parse_fins_response-build_fins_frame sid command [] = refl
parse_fins_response-build_fins_frame sid command (hi ∷ []) = refl
parse_fins_response-build_fins_frame sid command (hi ∷ lo ∷ data_bytes) = ground arith

-- The parameters of a memory write of fewer than 65536 words, each of 16 bits, to an address below
-- 2 ^ 24: byte 0 is the area, bytes 1 to 3 are the address, byte 4 the bit offset and bytes 5 and 6 the
-- number of words; the words are read from what follows byte 6, and there are two bytes for each
-- word and no more.
pub build_memory_write_layout :
    (area address bit_offset : ℕ) (words : List ℕ)
    → address < 2 ^ 24
    → length words < 2 ^ 16
    → All IsWord words
    → (byte_at 0 (build_memory_write area address bit_offset words) ≡ area)
      × (byte_at 1 (build_memory_write area address bit_offset words) * 2 ^ 16
            + byte_at 2 (build_memory_write area address bit_offset words) * 2 ^ 8
            + byte_at 3 (build_memory_write area address bit_offset words)
          ≡ address)
      × (byte_at 4 (build_memory_write area address bit_offset words) ≡ bit_offset)
      × (byte_at 5 (build_memory_write area address bit_offset words) * 2 ^ 8
            + byte_at 6 (build_memory_write area address bit_offset words)
          ≡ length words)
      × (read_words (drop 7 (build_memory_write area address bit_offset words)) ≡ words)
      × (length (build_memory_write area address bit_offset words) ≡ 7 + 2 * length words)
unfolding build_memory_write byte_at
build_memory_write_layout area address bit_offset words a l w = (
  refl,
  omega arith,
  refl,
  omega arith,
  read_words-registers_to_bytes words w,
  omega (arith, length-registers_to_bytes words),
)
