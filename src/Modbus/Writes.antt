-- ===== src/Modbus/Writes.antt =====
-- driver/modbus/src/driver.rs: the queued writes, which `run_read_cycle_impl` handles first.
pub mod Keeps
pub mod Replies
pub mod Effects
use opcua_plc_bridge.Base.{
  ℕ, zero, suc, ◌+◌, ◌%◌, Bool, true, false, not, ◌==◌, List, [], ◌∷◌, ◌++◌, Str, codes, str_eq,
  Option, none, some, length, if◌then◌else◌, Outcome, ok, err,
}
use opcua_plc_bridge.Core.TagValue.{TagValue, TagQuality}
use opcua_plc_bridge.Core.WordOrder.{apply_to_bytes}
use opcua_plc_bridge.Driver.Chrono.{Chrono}
use opcua_plc_bridge.Driver.Error.{DriverError, modbus, timeout}
use opcua_plc_bridge.Driver.Words.{registers_to_bytes, read_words}
use opcua_plc_bridge.Modbus.Mapping.{ModbusFunction, ModbusMapping, holding_registers}
use opcua_plc_bridge.Modbus.Codec.{tagvalue_to_registers}
use opcua_plc_bridge.Modbus.Reads.{is_illegal}
use opcua_plc_bridge.Modbus.Bus.{
  Bus, Device, Answer, answered, exception, transport, timed_out, Run, and_then, WriteRequest,
  WriteFailure, unknown_tag_mapping, tag_not_writable, ordered_bytes_not_even, unsupported_function,
  write_timeout, conversion_error, modbus_exception, modbus_error, transport_error, set_quality,
  update_good, send_reply, send_health_event, connect, put_back, take_context,
}

-- `self.config.mappings.iter().find(|m| m.tag_id.as_ref() == req.tag_id)`
unfoldable pub find_mapping : List ModbusMapping → Str → Option ModbusMapping
find_mapping [] id = none
find_mapping (m ∷ ms) id = if str_eq m.tag_id id then some m else find_mapping ms id

-- `HoldingRegisters` is the only function that is written.
abbrev pub is_holding : ModbusFunction → Bool
is_holding holding_registers = true
is_holding _ = false

module _ {T : Type 0} (chrono : Chrono T) (clock : ℕ → T) where
  -- `set_tag_quality(..., CommLost)`, then the reply.
  unfoldable pub reject : ModbusMapping → WriteRequest T → WriteFailure → Bus T → Bus T
  reject m req failure b =
      send_reply req.reply (err failure) (set_quality clock m.tag_id TagQuality.comm_lost b)

  -- An exception of the device: an illegal address or value is the tag's fault, anything else ends
  -- the cycle.
  unfoldable pub on_exception : Bool → ModbusMapping → WriteRequest T → Str → Run T
  on_exception true m req emsg b = (
    ok tt,
    send_reply req.reply (err (modbus_exception emsg))
        (set_quality clock m.tag_id TagQuality.config_error b),
  )
  on_exception false m req emsg b = (
    err (modbus emsg),
    take_context
        (send_health_event (codes "write_error") emsg (reject m req (modbus_error emsg) b)),
  )

  -- `match write_res`
  unfoldable pub on_write : ModbusMapping → WriteRequest T → Answer (Unit {0}) → Run T
  on_write m req (answered done) b =
      (ok tt, send_reply req.reply (ok tt) (update_good clock m.tag_id req.value b))
  on_write m req (exception emsg) b = on_exception (is_illegal emsg) m req emsg b
  on_write m req (transport t) b =
      let emsg = codes "Transport: " ++ t in
      (err (modbus emsg), take_context (reject m req (transport_error emsg) b))
  on_write m req timed_out b = (err timeout, take_context (reject m req write_timeout b))

  module _ (device : Device) where
    -- The context, or a new one, writes the words and is put back.
    unfoldable pub send_words : ModbusMapping → WriteRequest T → List ℕ → Run T
    send_words m req ordered b =
        on_write m req (device.write_multiple_registers b.calls m.address ordered)
          (put_back (record (connect b) { calls = b.calls + 1 }))

    -- The words, in the byte order of the mapping.
    unfoldable pub write_words : ModbusMapping → WriteRequest T → List ℕ → Run T
    write_words m req words b =
        let ordered_bytes = apply_to_bytes m.byte_order (registers_to_bytes words) in
        if is_holding m.function
        then if length ordered_bytes % 2 == 0
          then send_words m req (read_words ordered_bytes) b
          else (ok tt, reject m req ordered_bytes_not_even b)
        else (ok tt, reject m req unsupported_function b)

    -- `match tagvalue_to_registers(&req.value)`
    unfoldable pub write_converted :
        ModbusMapping → WriteRequest T → Outcome DriverError (List ℕ) → Run T
    write_converted m req (ok words) b = write_words m req words b
    write_converted m req (err e) b = (ok tt, reject m req (conversion_error e) b)

    unfoldable pub write_mapped : Option ModbusMapping → WriteRequest T → Run T
    write_mapped none req b = (ok tt, send_reply req.reply (err unknown_tag_mapping) b)
    write_mapped (some m) req b =
        if m.writable
        then write_converted m req (tagvalue_to_registers chrono req.value) b
        else (ok tt, send_reply req.reply (err tag_not_writable) b)

    module _ (ms : List ModbusMapping) where
      -- The body of the loop over the queue, for a request that was received.
      unfoldable pub process_write : WriteRequest T → Run T
      process_write req b = write_mapped (find_mapping ms req.tag_id) req b

      -- A round on the queue: `rx.try_recv()` and, behind a request, the rounds that are left. The
      -- driver keeps a sender, so the queue is never disconnected.
      unfoldable pub drain_queue : List (WriteRequest T) → Run T → Run T
      drain_queue [] next b = (ok tt, b)
      drain_queue (req ∷ rest) next b =
          and_then (process_write req (record b { queue = rest })) next

      -- `n` rounds.
      unfoldable pub drain : ℕ → Run T
      drain zero b = (ok tt, b)
      drain (suc n) b = drain_queue b.queue (drain n) b

-- `for _ in 0..64`
abbrev pub max_writes : ℕ
max_writes = 64
