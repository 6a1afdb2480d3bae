-- ===== src/Modbus/Writes/Keeps.antt =====
-- Properties of the registry along the writes of a cycle (driver/modbus/src/driver.rs).
use opcua_plc_bridge.Base.{
  ℕ, zero, suc, List, [], ◌∷◌, Str, Option, none, some, Bool, true, false, Outcome, ok, err,
  if-both, ◌%◌, ◌==◌, length,
}
use opcua_plc_bridge.Core.TagValue.{TagQuality}
use opcua_plc_bridge.Core.WordOrder.{apply_to_bytes}
use opcua_plc_bridge.Core.Registry.{TagRegistry}
use opcua_plc_bridge.Driver.Chrono.{Chrono}
use opcua_plc_bridge.Driver.Error.{DriverError}
use opcua_plc_bridge.Driver.Words.{registers_to_bytes}
use opcua_plc_bridge.Modbus.Mapping.{ModbusMapping}
use opcua_plc_bridge.Modbus.Bus.{
  Bus, Device, Run, WriteRequest, Answer, answered, exception, transport, timed_out, WriteFailure,
  send_health_event, connect, take_context, put_back,
}
use opcua_plc_bridge.Core.Registry.Kept.{IsKept}
use opcua_plc_bridge.Modbus.Bus.Keeps.{
  After, Keeps, and_then-Keeps, send_reply-keeps, set_quality-keeps, update_good-keeps,
}
use opcua_plc_bridge.Modbus.Reads.{is_illegal}
use opcua_plc_bridge.Modbus.Writes.{
  find_mapping, is_holding, reject, on_exception, on_write, send_words, write_words,
  write_converted, write_mapped, process_write, drain_queue, drain,
}

module _ {T : Type 0} (P : TagRegistry T → Type 0) (k : IsKept P) (chrono : Chrono T)
    (clock : ℕ → T) where
  reject-keeps :
      (m : ModbusMapping) (req : WriteRequest T) (f : WriteFailure) (b : Bus T)
      → P b.registry
      → P (reject chrono clock m req f b).registry
  unfolding reject
  reject-keeps m req f b h =
      send_reply-keeps P req.reply (err f) _
        (set_quality-keeps P clock k m.tag_id TagQuality.comm_lost b h)

  on_exception-Keeps :
      (i : Bool) (m : ModbusMapping) (req : WriteRequest T) (emsg : Str)
      → Keeps P (on_exception chrono clock i m req emsg)
  unfolding on_exception take_context send_health_event
  on_exception-Keeps true m req emsg b h =
      send_reply-keeps P req.reply _ _
        (set_quality-keeps P clock k m.tag_id TagQuality.config_error b h)
  on_exception-Keeps false m req emsg b h = reject-keeps m req _ b h

  on_write-Keeps :
      (m : ModbusMapping) (req : WriteRequest T) (a : Answer (Unit {0}))
      → Keeps P (on_write chrono clock m req a)
  unfolding on_write take_context
  on_write-Keeps m req (answered done) b h =
      send_reply-keeps P req.reply (ok tt) _ (update_good-keeps P clock k m.tag_id req.value b h)
  on_write-Keeps m req (exception emsg) b h = on_exception-Keeps (is_illegal emsg) m req emsg b h
  on_write-Keeps m req (transport t) b h = reject-keeps m req _ b h
  on_write-Keeps m req timed_out b h = reject-keeps m req _ b h

  module _ (device : Device) where
    write_words-Keeps :
        (m : ModbusMapping) (req : WriteRequest T) (words : List ℕ)
        → Keeps P (write_words chrono clock device m req words)
    unfolding write_words send_words put_back connect
    write_words-Keeps m req words b h =
        if-both (is_holding m.function) (After P)
          (if-both (length (apply_to_bytes m.byte_order (registers_to_bytes words)) % 2 == 0)
            (After P) (on_write-Keeps m req _ _ h) (reject-keeps m req _ b h))
          (reject-keeps m req _ b h)

    write_converted-Keeps :
        (m : ModbusMapping) (req : WriteRequest T) (o : Outcome DriverError (List ℕ))
        → Keeps P (write_converted chrono clock device m req o)
    unfolding write_converted
    write_converted-Keeps m req (ok words) b h = write_words-Keeps m req words b h
    write_converted-Keeps m req (err e) b h = reject-keeps m req _ b h

    write_mapped-Keeps :
        (om : Option ModbusMapping) (req : WriteRequest T)
        → Keeps P (write_mapped chrono clock device om req)
    unfolding write_mapped
    write_mapped-Keeps none req b h = send_reply-keeps P req.reply _ b h
    write_mapped-Keeps (some m) req b h =
        if-both m.writable (After P) (write_converted-Keeps m req _ b h)
          (send_reply-keeps P req.reply _ b h)

    drain_queue-Keeps :
        (ms : List ModbusMapping) (q : List (WriteRequest T)) (next : Run T)
        → Keeps P next
        → Keeps P (drain_queue chrono clock device ms q next)
    unfolding drain_queue process_write
    drain_queue-Keeps ms [] next n b h = h
    drain_queue-Keeps ms (req ∷ rest) next n b h =
        and_then-Keeps P _ next (write_mapped-Keeps (find_mapping ms req.tag_id) req _ h) n

    pub drain-Keeps : (ms : List ModbusMapping) (n : ℕ) → Keeps P (drain chrono clock device ms n)
    unfolding drain
    drain-Keeps ms zero b h = h
    drain-Keeps ms (suc n) b h = drain_queue-Keeps ms b.queue _ (drain-Keeps ms n) b h
