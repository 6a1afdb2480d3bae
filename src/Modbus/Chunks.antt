-- ===== src/Modbus/Chunks.antt =====
-- driver/modbus/src/driver.rs: a group is read in chunks that the protocol allows, and each mapping
-- takes its part of a chunk's bytes.
pub mod Tiles
pub mod Parts
use opcua_plc_bridge.Base.{
  ℕ, zero, suc, ◌+◌, ◌-◌, ◌*◌, ◌%◌, ◌^◌, min, max, Bool, true, false, ◌||◌, List, [], ◌∷◌, ◌++◌,
  length, take, drop, leb, ltb, ◌==◌, if◌then◌else◌,
}
use opcua_plc_bridge.Modbus.Mapping.{
  ModbusFunction, ModbusMapping, coils, discrete_inputs, holding_registers, input_registers,
}
use opcua_plc_bridge.Modbus.Groups.{Group}

-- `MAX_REGISTERS` and `MAX_COILS`
abbrev pub max_allowed : ModbusFunction → ℕ
max_allowed holding_registers = 125
max_allowed input_registers = 125
max_allowed coils = 2000
max_allowed discrete_inputs = 2000

pub record Chunk : Type 0 where
  pub start : ℕ
  pub quantity : ℕ

-- The rounds of `while remaining > 0`. A round takes a unit at least from a `remaining` below
-- 65536, so `remaining` itself is enough fuel.
unfoldable pub chunks_from : ℕ → ℕ → ℕ → ℕ → List Chunk
chunks_from zero limit start remaining = []
chunks_from (suc fuel) limit start remaining =
    let chunk_qty = min (remaining % 2 ^ 16) limit in
    let next = start + chunk_qty in
    let rest = chunks_from fuel limit next (remaining - chunk_qty) in
    let chunk : Chunk = record { start = start; quantity = chunk_qty } in
    if remaining == 0 then [] else if ltb 65535 next then chunk ∷ [] else chunk ∷ rest

unfoldable pub chunks_of : ModbusFunction → Group → List Chunk
unfolding chunks_from
chunks_of f g = chunks_from g.quantity (max_allowed f) g.start g.quantity

-- The words of a reply of bits: sixteen bits to a word, the first one lowest.
unfoldable pub pack_word : ℕ → List Bool → ℕ
pack_word zero bits = 0
pack_word (suc n) [] = 0
pack_word (suc n) (b ∷ bits) = (if b then 1 else 0) + 2 * pack_word n bits

-- `while i < bits.len()`; each round takes sixteen bits, or what is left.
unfoldable pub pack_bits : ℕ → List Bool → List ℕ
unfolding pack_word
pack_bits fuel [] = []
pack_bits zero (b ∷ bits) = []
pack_bits (suc fuel) (b ∷ bits) = pack_word 16 (b ∷ bits) ∷ pack_bits fuel (drop 16 (b ∷ bits))

-- What of a chunk's bytes belongs to a mapping: nothing, more than was received, or a slice.
pub data Part : Type 0 where
  outside short : Part
  slice : List ℕ → Part

-- `mapping.address + mapping.quantity - 1` in `u32`.
abbrev pub map_end : ModbusMapping → ℕ
map_end m = (m.address + m.quantity + 2 ^ 32 - 1) % 2 ^ 32

unfoldable pub part_of : List ℕ → Chunk → ModbusMapping → Part
part_of raw_bytes c m =
    let chunk_end = c.start + c.quantity - 1 in
    let overlap_start = max m.address c.start in
    let overlap_end = min (map_end m) chunk_end in
    let off_bytes = (overlap_start - c.start) * 2 in
    let len_bytes = (overlap_end - overlap_start + 1) * 2 in
    if ltb (map_end m) c.start || ltb chunk_end m.address
    then outside
    else if ltb (length raw_bytes) (off_bytes + len_bytes)
    then short
    else slice (take len_bytes (drop off_bytes raw_bytes))
