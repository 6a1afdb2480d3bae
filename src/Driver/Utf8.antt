-- ===== src/Driver/Utf8.antt =====
-- `std::str::from_utf8`, `trim_end_matches('\0')` and the `{:02X}` format, as the drivers use them.
use opcua_plc_bridge.Base.{
  ℕ, ◌+◌, ◌/◌, ◌%◌, Bool, true, false, ◌&&◌, List, [], ◌∷◌, Str, leb, ltb, ◌==◌, if◌then◌else◌,
}

-- How many continuation bytes are still wanted, and in which range the next one must lie.
pub data Utf8 : Type 0 where
  start one two three invalid : Utf8
  after_e0 after_ed after_f0 after_f4 : Utf8

within : ℕ → ℕ → ℕ → Bool
within lo hi b = leb lo b && leb b hi

utf8_step : Utf8 → ℕ → Utf8
unfolding within
utf8_step start b =
    if ltb b 0x80
    then start
    else if within 0xc2 0xdf b
    then one
    else if b == 0xe0
    then after_e0
    else if b == 0xed
    then after_ed
    else if within 0xe1 0xef b
    then two
    else if b == 0xf0
    then after_f0
    else if within 0xf1 0xf3 b
    then three
    else if b == 0xf4
    then after_f4
    else invalid
utf8_step one b = if within 0x80 0xbf b then start else invalid
utf8_step two b = if within 0x80 0xbf b then one else invalid
utf8_step three b = if within 0x80 0xbf b then two else invalid
utf8_step after_e0 b = if within 0xa0 0xbf b then one else invalid
utf8_step after_ed b = if within 0x80 0x9f b then one else invalid
utf8_step after_f0 b = if within 0x90 0xbf b then two else invalid
utf8_step after_f4 b = if within 0x80 0x8f b then two else invalid
utf8_step invalid b = invalid

valid_from : Utf8 → List ℕ → Bool
unfolding utf8_step
valid_from start [] = true
valid_from _ [] = false
valid_from q (b ∷ bs) = valid_from (utf8_step q b) bs

-- `std::str::from_utf8(bytes).is_ok()`
unfoldable pub is_utf8 : List ℕ → Bool
unfolding valid_from
is_utf8 bytes = valid_from start bytes

-- `s.trim_end_matches('\0')`
unfoldable pub trim_end_zeros : Str → Str
trim_end_zeros [] = []
trim_end_zeros (b ∷ bs) = elim (trim_end_zeros bs) [
  | [] ↦ if b == 0 then [] else b ∷ []
  | x ∷ xs ↦ b ∷ x ∷ xs
]

hex_digit : ℕ → ℕ
hex_digit d = if ltb d 10 then 48 + d else 55 + d

-- `{:02X}` of each byte.
unfoldable pub hex_upper : List ℕ → Str
unfolding hex_digit
hex_upper [] = []
hex_upper (b ∷ bs) = hex_digit (b / 16) ∷ hex_digit (b % 16) ∷ hex_upper bs
