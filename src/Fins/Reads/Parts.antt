-- ===== src/Fins/Reads/Parts.antt =====
-- The bytes that a mapping gets of a group's payload (driver/fins/src/driver.rs).
use opcua_plc_bridge.Base.{
  ℕ, ◌+◌, ◌-◌, ◌*◌, ◌^◌, ◌≤◌, ◌<◌, ◌≡◌, List, length, take, drop, max, min, arith,
}
use opcua_plc_bridge.Modbus.Chunks.{slice}
use opcua_plc_bridge.Fins.Mapping.{TagMapping}
use opcua_plc_bridge.Fins.Groups.{ReadGroup, add32, sub32, end32}
use opcua_plc_bridge.Fins.Reads.{part_of}

-- The mapping is one of words inside the group, all of them below 2 ^ 32.
pub record IsInside (g : ReadGroup) (m : TagMapping) : Type 0 where
  pub filled : 0 < m.word_count
  pub from_start : g.start_address ≤ m.address
  pub to_end : m.address + m.word_count ≤ g.start_address + g.word_count
  pub bounded : g.start_address + g.word_count < 2 ^ 32

-- A mapping inside a group whose payload has the group's words gets the bytes of exactly its words.
pub part_of-inside :
    (payload : List ℕ) (g : ReadGroup) (m : TagMapping)
    → IsInside g m
    → g.word_count * 2 ≤ length payload
    → part_of payload g m
      ≡ slice (take (m.word_count * 2) (drop ((m.address - g.start_address) * 2) payload))
unfolding part_of
part_of-inside payload g m i l =
    let f = i.filled in
    let s = i.from_start in
    let t = i.to_end in
    let b = i.bounded in
    let map_end : end32 m.address m.word_count ≡ m.address + m.word_count - 1 = omega arith in
    let chunk_end : end32 g.start_address g.word_count ≡ g.start_address + g.word_count - 1 =
      omega arith in
    let starts : max m.address g.start_address ≡ m.address = omega arith in
    let ends : min (m.address + m.word_count - 1) (g.start_address + g.word_count - 1)
        ≡ m.address + m.word_count - 1 =
      omega arith in
    let len_words : add32 (sub32 (m.address + m.word_count - 1) m.address) 1 ≡ m.word_count =
      omega arith in
    rw (map_end, chunk_end, starts, ends, len_words) (ground arith)
