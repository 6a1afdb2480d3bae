-- ===== src/Modbus/Chunks/Tiles.antt =====
-- Where the chunks of a group lie (driver/modbus/src/driver.rs).
use opcua_plc_bridge.Base.{
  ℕ, zero, suc, ◌+◌, ◌-◌, ◌%◌, ◌^◌, ◌≤◌, ◌<◌, ◌≡◌, min, List, [], ◌∷◌, arith,
}
use opcua_plc_bridge.Modbus.Mapping.{
  ModbusFunction, coils, discrete_inputs, holding_registers, input_registers,
}
use opcua_plc_bridge.Modbus.Groups.{Group}
use opcua_plc_bridge.Modbus.Groups.Cover.{IsCovering}
use opcua_plc_bridge.Modbus.Chunks.{Chunk, max_allowed, chunks_from, chunks_of}

-- The chunks follow one another from `a` up to `b`, none empty and none above the limit.
abbrev pub Tiles : ℕ → ℕ → ℕ → List Chunk → Type 0
Tiles limit a b [] = a ≡ b
Tiles limit a b (c ∷ cs) =
    (c.start ≡ a) × (0 < c.quantity) × (c.quantity ≤ limit) × Tiles limit (a + c.quantity) b cs

chunks_from-Tiles :
    (fuel limit start remaining : ℕ)
    → remaining ≤ fuel
    → 0 < limit
    → start + remaining ≤ 2 ^ 16
    → remaining < 2 ^ 16
    → Tiles limit start (start + remaining) (chunks_from fuel limit start remaining)
unfolding chunks_from
chunks_from-Tiles zero limit start remaining h l s r = omega arith
chunks_from-Tiles (suc fuel) limit start remaining h l s r =
    let chunk_qty = min (remaining % 2 ^ 16) limit in
    ground (arith, chunks_from-Tiles fuel limit (start + chunk_qty) (remaining - chunk_qty))

-- The chunks of a group that covers its mappings follow one another without a gap from the group's
-- start to its end, each with one register or coil at least and at most as many as the protocol
-- allows for the function.
pub chunks_of-Tiles :
    (f : ModbusFunction) (g : Group)
    → IsCovering g
    → Tiles (max_allowed f) g.start (g.start + g.quantity) (chunks_of f g)
unfolding chunks_of
chunks_of-Tiles f g c =
    chunks_from-Tiles g.quantity (max_allowed f) g.start g.quantity (omega arith) (limit f)
      (omega (arith, c.bounded)) (omega (arith, c.bounded))
  where
    limit : (f : ModbusFunction) → 0 < max_allowed f
    limit coils = omega arith
    limit discrete_inputs = omega arith
    limit holding_registers = omega arith
    limit input_registers = omega arith
