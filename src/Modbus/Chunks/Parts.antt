-- ===== src/Modbus/Chunks/Parts.antt =====
-- Which bytes of a chunk a mapping gets (driver/modbus/src/driver.rs).
use opcua_plc_bridge.Base.{
  ℕ, zero, suc, ◌+◌, ◌-◌, ◌*◌, ◌/◌, ◌%◌, ◌^◌, ◌≤◌, ◌<◌, ◌≡◌, refl, ap, min, max, Bool, List, [],
  ◌∷◌, length, take, drop, arith, length-drop,
}
use opcua_plc_bridge.Driver.Words.{registers_to_bytes, length-registers_to_bytes}
use opcua_plc_bridge.Modbus.Mapping.{ModbusMapping}
use opcua_plc_bridge.Modbus.Chunks.{Chunk, short, slice, part_of, pack_bits}

drop-registers_to_bytes :
    (k : ℕ) (rs : List ℕ) → drop (k * 2) (registers_to_bytes rs) ≡ registers_to_bytes (drop k rs)
unfolding registers_to_bytes
drop-registers_to_bytes zero rs = refl
drop-registers_to_bytes (suc k) [] =
    let e : suc k * 2 ≡ suc (suc (k * 2)) = omega arith in rw e refl
drop-registers_to_bytes (suc k) (r ∷ rs) =
    let e : suc k * 2 ≡ suc (suc (k * 2)) = omega arith in rw e (drop-registers_to_bytes k rs)

take-registers_to_bytes :
    (k : ℕ) (rs : List ℕ) → take (k * 2) (registers_to_bytes rs) ≡ registers_to_bytes (take k rs)
unfolding registers_to_bytes
take-registers_to_bytes zero rs = refl
take-registers_to_bytes (suc k) [] =
    let e : suc k * 2 ≡ suc (suc (k * 2)) = omega arith in rw e refl
take-registers_to_bytes (suc k) (r ∷ rs) =
    let e : suc k * 2 ≡ suc (suc (k * 2)) = omega arith in
    rw e (ap (λ xs. r / 2 ^ 8 % 2 ^ 8 ∷ r % 2 ^ 8 ∷ xs) (take-registers_to_bytes k rs))

-- A mapping of `u16` registers, one at least.
abbrev pub IsU16 : ModbusMapping → Type 0
IsU16 m = (0 < m.quantity) × (m.address + m.quantity ≤ 2 ^ 16)

-- A mapping of one register at least inside a chunk, below 65536, gets of a reply with as many
-- registers as the chunk the bytes of exactly its registers.
pub part_of_inside :
    (c : Chunk) (m : ModbusMapping) (regs : List ℕ)
    → IsU16 m
    → length regs ≡ c.quantity
    → c.start ≤ m.address
    → m.address + m.quantity ≤ c.start + c.quantity
    → part_of (registers_to_bytes regs) c m
      ≡ slice (registers_to_bytes (take m.quantity (drop (m.address - c.start) regs)))
unfolding part_of
part_of_inside c m regs u l s e =
    let off : ℕ = m.address - c.start in
    let off_eq : max m.address c.start - c.start ≡ off = omega arith in
    let len_eq : min ((m.address + m.quantity + 2 ^ 32 - 1) % 2 ^ 32) (c.start + c.quantity - 1)
          - max m.address c.start
          + 1
        ≡ m.quantity =
      omega arith in
    rw (off_eq, len_eq)
      (ground (
        arith,
        length-registers_to_bytes regs,
        drop-registers_to_bytes off regs,
        take-registers_to_bytes m.quantity (drop off regs),
      ))

-- The words that `pack_bits` makes of `n` bits, given fuel for each.
length-pack_bits :
    (fuel : ℕ) (bits : List Bool)
    → length bits ≤ fuel
    → length (pack_bits fuel bits) ≡ (length bits + 15) / 16
unfolding pack_bits
length-pack_bits fuel [] h = omega arith
length-pack_bits zero (b ∷ bits) h = absurd (omega arith)
length-pack_bits (suc fuel) (b ∷ bits) h =
    let d = length-drop 15 bits in
    omega (arith, d, length-pack_bits fuel (drop 15 bits) (omega (arith, d)))

-- A mapping of one coil at least, below 65536, that begins `(n + 15) / 16` coils or more behind the start of a chunk of `n` coils
-- finds no bytes of its own, though it lies inside the chunk and the
-- reply has all `n` bits: its place is counted in words, and
-- the bits come sixteen to a word.
pub coils_short :
    (c : Chunk) (m : ModbusMapping) (bits : List Bool)
    → IsU16 m
    → length bits ≡ c.quantity
    → c.start ≤ m.address
    → m.address + m.quantity ≤ c.start + c.quantity
    → (c.quantity + 15) / 16 ≤ m.address - c.start
    → part_of (registers_to_bytes (pack_bits (length bits) bits)) c m ≡ short
unfolding part_of
coils_short c m bits u l s e far =
    let n = length-registers_to_bytes (pack_bits (length bits) bits) in
    let w = length-pack_bits (length bits) bits (omega arith) in ground (arith, n, w)
