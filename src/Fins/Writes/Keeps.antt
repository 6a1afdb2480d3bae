-- ===== src/Fins/Writes/Keeps.antt =====
-- Properties of the registry along the writes of a cycle (driver/fins/src/driver.rs).
use opcua_plc_bridge.Base.{
  ℕ, zero, suc, ◌%◌, ◌==◌, List, [], ◌∷◌, Str, Option, none, some, Outcome, ok, err, if-both,
  length,
}
use opcua_plc_bridge.Core.TagValue.{TagQuality}
use opcua_plc_bridge.Core.WordOrder.{apply_to_bytes}
use opcua_plc_bridge.Core.Registry.{TagRegistry}
use opcua_plc_bridge.Core.Registry.Kept.{IsKept}
use opcua_plc_bridge.Driver.Chrono.{Chrono}
use opcua_plc_bridge.Driver.Error.{DriverError}
use opcua_plc_bridge.Driver.Words.{registers_to_bytes}
use opcua_plc_bridge.Modbus.Bus.{WriteRequest}
use opcua_plc_bridge.Fins.Mapping.{TagMapping}
use opcua_plc_bridge.Fins.Frame.{parse_fins_response}
use opcua_plc_bridge.Fins.Link.{Link, Stream, next_sid, request}
use opcua_plc_bridge.Fins.Link.Keeps.{Holds, send_reply-keeps, set_quality-keeps, update_good-keeps}
use opcua_plc_bridge.Fins.Writes.{
  find_mapping, reject, on_parsed, on_answer, send_words, write_converted, write_mapped,
  process_write, drain_queue, drain,
}

module _ {T : Type 0} (P : TagRegistry T → Type 0) (k : IsKept P) (chrono : Chrono T)
    (clock : ℕ → T) where
  reject-keeps :
      (m : TagMapping) (req : WriteRequest T) (q : TagQuality) (text : Str) (b : Link T)
      → Holds P b
      → Holds P (reject chrono clock m req q text b)
  unfolding reject
  reject-keeps m req q text b h =
      send_reply-keeps P req.reply _ _ (set_quality-keeps P clock k m.tag_id q b h)

  on_parsed-keeps :
      (m : TagMapping) (req : WriteRequest T) (sid : ℕ) (r : Outcome DriverError (ℕ × ℕ × List ℕ))
      (b : Link T)
      → Holds P b
      → Holds P (on_parsed chrono clock m req sid r b)
  unfolding on_parsed
  on_parsed-keeps m req sid (err e) b h = reject-keeps m req _ _ b h
  on_parsed-keeps m req sid (ok (resp_sid, end_code, data_bytes)) b h =
      if-both (resp_sid == sid) (Holds P)
        (if-both (end_code == 0) (Holds P)
          (send_reply-keeps P req.reply _ _ (update_good-keeps P clock k m.tag_id req.value b h))
          (reject-keeps m req _ _ b h))
        (reject-keeps m req _ _ b h)

  on_answer-keeps :
      (m : TagMapping) (req : WriteRequest T) (sid : ℕ) (r : Outcome Str (List ℕ)) (b : Link T)
      → Holds P b
      → Holds P (on_answer chrono clock m req sid r b)
  unfolding on_answer
  on_answer-keeps m req sid (err e) b h = reject-keeps m req _ _ b h
  on_answer-keeps m req sid (ok payload) b h =
      on_parsed-keeps m req sid (parse_fins_response payload) b h

  module _ (stream : Stream) where
    write_converted-keeps :
        (m : TagMapping) (req : WriteRequest T) (o : Outcome DriverError (List ℕ)) (b : Link T)
        → Holds P b
        → Holds P (write_converted chrono clock stream m req o b)
    unfolding write_converted send_words next_sid request
    write_converted-keeps m req (err e) b h = send_reply-keeps P req.reply _ b h
    write_converted-keeps m req (ok words) b h =
        if-both (length (apply_to_bytes m.byte_order (registers_to_bytes words)) % 2 == 0) (Holds P)
          (on_answer-keeps m req _ _ _ h) (send_reply-keeps P req.reply _ b h)

    write_mapped-keeps :
        (om : Option TagMapping) (req : WriteRequest T) (b : Link T)
        → Holds P b
        → Holds P (write_mapped chrono clock stream om req b)
    unfolding write_mapped
    write_mapped-keeps none req b h = send_reply-keeps P req.reply _ b h
    write_mapped-keeps (some m) req b h =
        if-both m.writable (Holds P) (write_converted-keeps m req _ b h)
          (send_reply-keeps P req.reply _ b h)

    drain_queue-keeps :
        (ms : List TagMapping) (q : List (WriteRequest T)) (next : Link T → Link T) (b : Link T)
        → ((b : Link T) → Holds P b → Holds P (next b))
        → Holds P b
        → Holds P (drain_queue chrono clock stream ms q next b)
    unfolding drain_queue process_write
    drain_queue-keeps ms [] next b n h = h
    drain_queue-keeps ms (req ∷ rest) next b n h =
        n _ (write_mapped-keeps (find_mapping ms req.tag_id) req _ h)

    pub drain-keeps :
        (ms : List TagMapping) (n : ℕ) (b : Link T)
        → Holds P b
        → Holds P (drain chrono clock stream ms n b)
    unfolding drain
    drain-keeps ms zero b h = h
    drain-keeps ms (suc n) b h = drain_queue-keeps ms b.queue _ b (drain-keeps ms n) h
