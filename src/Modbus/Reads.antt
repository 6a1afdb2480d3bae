-- ===== src/Modbus/Reads.antt =====
-- driver/modbus/src/driver.rs: the read part of `run_read_cycle_impl`.
pub mod Seen
pub mod Keeps
pub mod Faults
pub mod Silent
use opcua_plc_bridge.Base.{
  ℕ, ◌+◌, Bool, true, false, ◌&&◌, ◌||◌, List, [], ◌∷◌, ◌++◌, Str, codes, str_eq, contains, length,
  if◌then◌else◌, Outcome, ok, err,
}
use opcua_plc_bridge.Core.Error.{CoreError}
use opcua_plc_bridge.Core.TagValue.{TagValue, TagQuality}
use opcua_plc_bridge.Core.TagDefinition.{TagDefinition}
use opcua_plc_bridge.Core.Tag.{Tag}
use opcua_plc_bridge.Core.WordOrder.{apply_to_bytes}
use opcua_plc_bridge.Core.Registry.{get_tag, get_definition}
use opcua_plc_bridge.Driver.Chrono.{Chrono}
use opcua_plc_bridge.Driver.Error.{DriverError, modbus}
use opcua_plc_bridge.Driver.Words.{registers_to_bytes}
use opcua_plc_bridge.Modbus.Mapping.{
  ModbusFunction, ModbusMapping, coils, discrete_inputs, holding_registers, input_registers,
}
use opcua_plc_bridge.Modbus.Codec.{decode_bytes_to_tagvalue}
use opcua_plc_bridge.Modbus.Groups.{Group, groups_of}
use opcua_plc_bridge.Modbus.Chunks.{
  Chunk, chunks_of, pack_bits, Part, outside, short, slice, part_of,
}
use opcua_plc_bridge.Modbus.Bus.{
  Bus, Device, Answer, answered, exception, transport, timed_out, Run, and_then, each, set_quality,
  update_good, send_health_event, connect, take_context, put_back,
}

-- The match on what `time::timeout(io_timeout, ...)` gave.
unfoldable pub read_result : {A : Type 0} → (A → List ℕ) → Answer A → Outcome Str (List ℕ)
read_result to_bytes (answered a) = ok (to_bytes a)
read_result to_bytes (exception e) = err e
read_result to_bytes (transport t) = err (codes "Transport: " ++ t)
read_result to_bytes timed_out = err (codes "Timeout")

unfoldable pub bits_to_bytes : List Bool → List ℕ
bits_to_bytes bits = registers_to_bytes (pack_bits (length bits) bits)

-- The `n`-th client call of the cycle, a read of one chunk.
unfoldable pub read_chunk : Device → ℕ → ModbusFunction → Chunk → Outcome Str (List ℕ)
unfolding read_result bits_to_bytes
read_chunk device n holding_registers c =
    read_result registers_to_bytes (device.read_registers n holding_registers c.start c.quantity)
read_chunk device n input_registers c =
    read_result registers_to_bytes (device.read_registers n input_registers c.start c.quantity)
read_chunk device n coils c =
    read_result bits_to_bytes (device.read_bits n coils c.start c.quantity)
read_chunk device n discrete_inputs c =
    read_result bits_to_bytes (device.read_bits n discrete_inputs c.start c.quantity)

-- What the texts of a failed read lead to: `is_illegal`, then a device failure or a timeout.
pub data ReadFault : Type 0 where
  illegal lost ignored : ReadFault

unfoldable pub is_illegal : Str → Bool
is_illegal s =
    contains s (codes "Illegal")
    || contains s (codes "Address")
    || contains s (codes "IllegalDataAddress")

unfoldable pub is_device_failure : Str → Bool
is_device_failure s =
    contains s (codes "Slave")
    && (contains s (codes "Failure")
        || contains s (codes "Device")
        || contains s (codes "Unavailable"))

unfoldable pub classify : Str → ReadFault
unfolding is_illegal is_device_failure
classify s =
    if is_illegal s
    then illegal
    else if is_device_failure s || str_eq s (codes "Timeout")
    then lost
    else ignored

module _ {T : Type 0} (chrono : Chrono T) (clock : ℕ → T) where
  -- `match ModbusDriver::decode_bytes_to_tagvalue(...)`
  abbrev pub apply_decoded : Str → Outcome DriverError (TagValue T) → Bus T → Bus T
  apply_decoded id (ok tv) b = update_good clock id tv b
  apply_decoded id (err e) b = set_quality clock id TagQuality.config_error b

  -- `match self.registry.get_tag(...)`
  abbrev pub apply_existing :
      Str → Outcome CoreError (Tag T) → Outcome DriverError (TagValue T) → Bus T → Bus T
  apply_existing id (ok existing) decoded b = apply_decoded id decoded b
  apply_existing id (err e) decoded b = set_quality clock id TagQuality.comm_lost b

  -- `if self.registry.get_definition(...).is_err()`
  abbrev pub apply_defined :
      Str → Outcome CoreError TagDefinition → Outcome DriverError (TagValue T) → Bus T → Bus T
  apply_defined id (ok d) decoded b = apply_existing id (get_tag b.registry id) decoded b
  apply_defined id (err e) decoded b = set_quality clock id TagQuality.config_error b

  abbrev pub apply_part : ModbusMapping → Part → Bus T → Bus T
  apply_part m outside b = b
  apply_part m short b = set_quality clock m.tag_id TagQuality.config_error b
  apply_part m (slice bytes) b =
      let ordered = apply_to_bytes m.byte_order bytes in
      apply_defined m.tag_id (get_definition b.registry m.tag_id)
        (decode_bytes_to_tagvalue chrono m.data_type ordered m.bit_offset) b

  -- `for mapping in &group_members` on the bytes of a chunk.
  unfoldable pub apply_members : List ℕ → Chunk → List ModbusMapping → Bus T → Bus T
  apply_members raw_bytes c [] b = b
  apply_members raw_bytes c (m ∷ ms) b =
      apply_members raw_bytes c ms (apply_part m (part_of raw_bytes c m) b)

  -- `for mapping in &group_members { set_tag_quality(...) }`
  unfoldable pub mark_members : TagQuality → List ModbusMapping → Bus T → Bus T
  mark_members q [] b = b
  mark_members q (m ∷ ms) b = mark_members q ms (set_quality clock m.tag_id q b)

  unfoldable pub on_fault : ReadFault → Str → List ModbusMapping → Run T
  on_fault illegal text members b = (ok tt, mark_members TagQuality.config_error members b)
  on_fault lost text members b = (
    err (modbus text),
    send_health_event (codes "read_error") text (mark_members TagQuality.comm_lost members b),
  )
  on_fault ignored text members b = (ok tt, b)

  -- `match read_result`
  unfoldable pub on_read : Outcome Str (List ℕ) → Chunk → List ModbusMapping → Run T
  on_read (ok raw_bytes) c members b = (ok tt, apply_members raw_bytes c members b)
  on_read (err text) c members b = on_fault (classify text) text members b

  module _ (device : Device) where
    -- One round of `while remaining > 0`.
    unfoldable pub read_one : ModbusFunction → List ModbusMapping → Chunk → Run T
    read_one f members c b =
        on_read (read_chunk device b.calls f c) c members (record b { calls = b.calls + 1 })

    unfoldable pub read_group : ModbusFunction → Group → Run T
    read_group f g = each (read_one f g.members) (chunks_of f g)

    unfoldable pub read_function : List ModbusMapping → ModbusFunction → Run T
    read_function ms f = each (read_group f) (groups_of f ms)

    -- The part of `run_read_cycle_impl` behind the writes. `order` is the order in which the
    -- `HashMap` of functions is walked. After an error the context is dropped.
    unfoldable pub read_all : List ModbusFunction → List ModbusMapping → Run T
    read_all order ms b =
        and_then (each (read_function ms) order (take_context (connect b)))
          (λ b. (ok tt, put_back b))
