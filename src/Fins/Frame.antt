-- ===== src/Fins/Frame.antt =====
-- driver/fins/src/driver.rs: the bytes of FINS requests and responses. A `u8` or `u16` that is cut
-- out of a wider number keeps the `&` or the `as` as a remainder.
pub mod Layout
use opcua_plc_bridge.Base.{
  ℕ, zero, suc, ◌+◌, ◌*◌, ◌/◌, ◌%◌, ◌^◌, List, [], ◌∷◌, ◌++◌, Option, none, some, codes, length,
  drop, get_elem?, ltb, if◌then◌else◌, Outcome, ok, err,
}
use opcua_plc_bridge.Driver.Error.{DriverError, protocol}
use opcua_plc_bridge.Driver.Words.{registers_to_bytes}

-- `buf.put_u32(n as u32)`
unfoldable pub u32_bytes : ℕ → List ℕ
u32_bytes n = n / 2 ^ 24 % 2 ^ 8 ∷ n / 2 ^ 16 % 2 ^ 8 ∷ n / 2 ^ 8 % 2 ^ 8 ∷ n % 2 ^ 8 ∷ []

-- `wrap_fins_tcp`
unfoldable pub wrap_fins_tcp : List ℕ → List ℕ
unfolding u32_bytes
wrap_fins_tcp payload = codes "FINS" ++ (u32_bytes (length payload) ++ payload)

-- `build_fins_frame`, of a command of two bytes.
unfoldable pub build_fins_frame : ℕ → ℕ × ℕ → List ℕ → List ℕ
build_fins_frame sid command params =
    0x80 ∷ 0x00 ∷ 0x02 ∷ 0 ∷ 0 ∷ 0 ∷ 0 ∷ 0 ∷ 0 ∷ sid ∷ command.0 ∷ command.1 ∷ params

-- The first seven bytes of the parameters of a memory read or write.
unfoldable pub memory_head : ℕ → ℕ → ℕ → ℕ → List ℕ
memory_head area address bit_offset count =
    area
    ∷ address / 2 ^ 16 % 2 ^ 8
    ∷ address / 2 ^ 8 % 2 ^ 8
    ∷ address % 2 ^ 8
    ∷ bit_offset
    ∷ count / 2 ^ 8 % 2 ^ 8
    ∷ count % 2 ^ 8
    ∷ []

-- `build_memory_read`
unfoldable pub build_memory_read : ℕ → ℕ → ℕ → ℕ → List ℕ
unfolding memory_head
build_memory_read area address bit_offset word_count =
    memory_head area address bit_offset word_count

-- `build_memory_write`; `words.len() as u16` is cut to its low two bytes.
unfoldable pub build_memory_write : ℕ → ℕ → ℕ → List ℕ → List ℕ
unfolding memory_head
build_memory_write area address bit_offset words =
    memory_head area address bit_offset (length words % 2 ^ 16) ++ registers_to_bytes words

-- `frame[i]`, in bounds.
abbrev or_zero : Option ℕ → ℕ
or_zero none = 0
or_zero (some b) = b

unfoldable pub byte_at : ℕ → List ℕ → ℕ
byte_at i frame = or_zero (get_elem? frame i)

-- `parse_fins_response`: the session, the end code and the data.
unfoldable pub parse_fins_response : List ℕ → Outcome DriverError (ℕ × ℕ × List ℕ)
unfolding byte_at
parse_fins_response frame =
    if ltb (length frame) 14
    then err (protocol (codes "Frame too short"))
    else ok (byte_at 9 frame, byte_at 12 frame * 2 ^ 8 + byte_at 13 frame, drop 14 frame)
