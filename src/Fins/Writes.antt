-- ===== src/Fins/Writes.antt =====
-- driver/fins/src/driver.rs: the queued writes, which `run_read_cycle_impl` handles first.
pub mod Keeps
pub mod Replies
pub mod Effects
use opcua_plc_bridge.Base.{
  ℕ, zero, suc, ◌%◌, ◌==◌, List, [], ◌∷◌, ◌++◌, Str, codes, str_eq, Option, none, some, length,
  if◌then◌else◌, Outcome, ok, err,
}
use opcua_plc_bridge.Core.TagValue.{TagValue, TagQuality}
use opcua_plc_bridge.Core.WordOrder.{apply_to_bytes}
use opcua_plc_bridge.Driver.Chrono.{Chrono}
use opcua_plc_bridge.Driver.Error.{DriverError}
use opcua_plc_bridge.Driver.Words.{registers_to_bytes, read_words}
use opcua_plc_bridge.Modbus.Bus.{WriteRequest}
use opcua_plc_bridge.Fins.Mapping.{TagMapping}
use opcua_plc_bridge.Fins.Codec.{tagvalue_to_words_standard}
use opcua_plc_bridge.Fins.Frame.{
  build_memory_write, build_fins_frame, wrap_fins_tcp, parse_fins_response,
}
use opcua_plc_bridge.Fins.Link.{
  Link, Stream, display, end_code_text, next_sid, set_quality, update_good, send_reply, request,
}

-- `self.config.mappings.iter().find(|m| m.tag_id.as_ref() == req.tag_id)`
unfoldable pub find_mapping : List TagMapping → Str → Option TagMapping
find_mapping [] id = none
find_mapping (m ∷ ms) id = if str_eq m.tag_id id then some m else find_mapping ms id

-- The bytes that are sent for a write: command 01 02 in a FINS/TCP frame.
unfoldable pub write_frame : ℕ → TagMapping → List ℕ → List ℕ
write_frame sid m words =
    wrap_fins_tcp
      (build_fins_frame sid (0x01, 0x02) (build_memory_write m.area m.address m.bit_offset words))

module _ {T : Type 0} (chrono : Chrono T) (clock : ℕ → T) where
  -- `set_tag_quality(...)`, then the reply.
  unfoldable pub reject : TagMapping → WriteRequest T → TagQuality → Str → Link T → Link T
  reject m req quality text b =
      send_reply req.reply (err text) (set_quality clock m.tag_id quality b)

  -- `match Self::parse_fins_response(&payload)`
  unfoldable pub on_parsed :
      TagMapping → WriteRequest T → ℕ → Outcome DriverError (ℕ × ℕ × List ℕ) → Link T → Link T
  on_parsed m req sid (err e) b =
      reject m req (TagQuality.error (codes "parse_write_resp: " ++ display e))
        (codes "Parse error: " ++ display e) b
  on_parsed m req sid (ok (resp_sid, end_code, data_bytes)) b =
      if resp_sid == sid
      then if end_code == 0
        then send_reply req.reply (ok tt) (update_good clock m.tag_id req.value b)
        else reject m req (TagQuality.error (end_code_text end_code)) (end_code_text end_code) b
      else reject m req TagQuality.comm_lost (codes "SID mismatch") b

  -- The three calls of the stream; each of their errors is handled alike.
  unfoldable pub on_answer :
      TagMapping → WriteRequest T → ℕ → Outcome Str (List ℕ) → Link T → Link T
  on_answer m req sid (err e) b = reject m req TagQuality.comm_lost (codes "IO error: " ++ e) b
  on_answer m req sid (ok payload) b = on_parsed m req sid (parse_fins_response payload) b

  module _ (stream : Stream) where
    unfoldable pub send_words : TagMapping → WriteRequest T → List ℕ → Link T → Link T
    send_words m req ordered b =
        let (sid, b1) = next_sid b in
        let (answer, b2) = request stream (write_frame sid m ordered) b1 in
        on_answer m req sid answer b2

    -- `match Self::tagvalue_to_words_standard(&req.value)`
    unfoldable pub write_converted :
        TagMapping → WriteRequest T → Outcome DriverError (List ℕ) → Link T → Link T
    write_converted m req (err e) b =
        send_reply req.reply (err (codes "Conversion error: " ++ display e)) b
    write_converted m req (ok words) b =
        let ordered = apply_to_bytes m.byte_order (registers_to_bytes words) in
        if length ordered % 2 == 0
        then send_words m req (read_words ordered) b
        else send_reply req.reply (err (codes "Ordered bytes length not even")) b

    unfoldable pub write_mapped : Option TagMapping → WriteRequest T → Link T → Link T
    write_mapped none req b = send_reply req.reply (err (codes "Unknown tag id")) b
    write_mapped (some m) req b =
        if m.writable
        then write_converted m req (tagvalue_to_words_standard chrono req.value) b
        else send_reply req.reply (err (codes "Not writable")) b

    module _ (ms : List TagMapping) where
      -- The body of the loop over the queue, for a request that was received.
      unfoldable pub process_write : WriteRequest T → Link T → Link T
      process_write req b = write_mapped (find_mapping ms req.tag_id) req b

      -- A round on the queue: `rx.try_recv()` and, behind a request, the rounds that are left. The
      -- driver keeps a sender, so the queue is never disconnected.
      unfoldable pub drain_queue : List (WriteRequest T) → (Link T → Link T) → Link T → Link T
      drain_queue [] next b = b
      drain_queue (req ∷ rest) next b = next (process_write req (record b { queue = rest }))

      -- `n` rounds.
      unfoldable pub drain : ℕ → Link T → Link T
      drain zero b = b
      drain (suc n) b = drain_queue b.queue (drain n) b

-- `for _ in 0..64`
abbrev pub max_writes : ℕ
max_writes = 64
