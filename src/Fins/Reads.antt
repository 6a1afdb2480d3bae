-- ===== src/Fins/Reads.antt =====
-- driver/fins/src/driver.rs: the read part of `run_read_cycle_impl`.
pub mod Keeps
pub mod Parts
pub mod Total
pub mod Seen
pub mod Faults
use opcua_plc_bridge.Base.{
  ℕ, ◌+◌, ◌-◌, ◌*◌, ◌==◌, max, min, ◌||◌, List, [], ◌∷◌, ◌++◌, Str, codes, length, take, drop, ltb,
  if◌then◌else◌, Option, Outcome, ok, err,
}
use opcua_plc_bridge.Core.Error.{CoreError}
use opcua_plc_bridge.Core.TagValue.{TagValue, TagQuality}
use opcua_plc_bridge.Core.TagDefinition.{TagDefinition}
use opcua_plc_bridge.Core.WordOrder.{apply_to_bytes}
use opcua_plc_bridge.Core.Registry.{get_definition}
use opcua_plc_bridge.Driver.Chrono.{Chrono}
use opcua_plc_bridge.Driver.Error.{DriverError, mapping}
use opcua_plc_bridge.Modbus.Chunks.{Part, outside, short, slice}
use opcua_plc_bridge.Fins.Mapping.{TagMapping}
use opcua_plc_bridge.Fins.Groups.{ReadGroup, add32, sub32, end32}
use opcua_plc_bridge.Fins.Codec.{DecodeFailure, failed, panicked, decode_value}
use opcua_plc_bridge.Fins.Frame.{
  build_memory_read, build_fins_frame, wrap_fins_tcp, parse_fins_response,
}
use opcua_plc_bridge.Fins.Link.{
  Link, Stream, display, end_code_text, next_sid, set_quality, update_good, request,
}

-- How the body of a loop ends: at its end or by `continue`, by `break`, or by a panic.
pub data Flow : Type 0 where
  next stop unwind : Flow

-- The bytes that are sent for a read: command 01 01 in a FINS/TCP frame.
unfoldable pub read_frame : ℕ → ReadGroup → List ℕ
read_frame sid g =
    wrap_fins_tcp
      (build_fins_frame sid (0x01, 0x01) (build_memory_read g.area g.start_address 0 g.word_count))

-- The part of the payload of a group that belongs to a mapping.
unfoldable pub part_of : List ℕ → ReadGroup → TagMapping → Part
part_of payload g m =
    let chunk_end = end32 g.start_address g.word_count in
    let map_end = end32 m.address m.word_count in
    let overlap_start = max m.address g.start_address in
    let overlap_end = min map_end chunk_end in
    let off_bytes = (overlap_start - g.start_address) * 2 in
    let len_bytes = add32 (sub32 overlap_end overlap_start) 1 * 2 in
    if ltb map_end g.start_address || ltb chunk_end m.address
    then outside
    else if ltb (length payload) (off_bytes + len_bytes)
    then short
    else slice (take len_bytes (drop off_bytes payload))

abbrev pub and_then : {T : Type 0} → Flow × Link T → (Link T → Flow × Link T) → Flow × Link T
and_then (next, b) rest = rest b
and_then (stop, b) rest = (stop, b)
and_then (unwind, b) rest = (unwind, b)

-- A `for` loop.
unfoldable pub each :
    {T A : Type 0} → (A → Link T → Flow × Link T) → List A → Link T → Flow × Link T
each body [] b = (next, b)
each body (x ∷ xs) b = and_then (body x b) (each body xs)

module _ {T : Type 0} (chrono : Chrono T) (clock : ℕ → T) (from_system_time : ℕ → Option T) where
  -- `decode_and_update_tag` behind the check of the definition, and what its caller does with an
  -- error. `source_ts` is read before the value is decoded.
  unfoldable pub on_decoded : Str → Outcome DecodeFailure (TagValue T) → Link T → Flow × Link T
  on_decoded id (ok v) b = (next, update_good clock id v b)
  on_decoded id (err (failed e)) b = (
    next,
    set_quality clock id (TagQuality.error (codes "decode_failed: " ++ display e))
        (record b { ticks = b.ticks + 1 }),
  )
  on_decoded id (err panicked) b = (unwind, record b { ticks = b.ticks + 1 })

  abbrev pub not_found : Str → TagQuality
  not_found id =
      TagQuality.error (
        codes "decode_failed: " ++ display (mapping (codes "Tag id not found in registry: " ++ id)))

  unfoldable pub on_defined :
      TagMapping → List ℕ → Outcome CoreError TagDefinition → Link T → Flow × Link T
  on_defined m bytes (err e) b = (next, set_quality clock m.tag_id (not_found m.tag_id) b)
  on_defined m bytes (ok d) b =
      on_decoded m.tag_id
        (decode_value chrono from_system_time m.data_type (apply_to_bytes m.byte_order bytes)
          m.bit_offset)
        b

  -- `decode_and_update_tag`
  unfoldable pub decode_and_update_tag : TagMapping → List ℕ → Link T → Flow × Link T
  decode_and_update_tag m bytes b = on_defined m bytes (get_definition b.registry m.tag_id) b

  abbrev pub short_payload : TagQuality
  short_payload = TagQuality.error (codes "short_payload")

  -- The body of the loop over the mappings, on a payload of the expected length.
  unfoldable pub apply_part : TagMapping → Part → Link T → Flow × Link T
  apply_part m outside b = (next, b)
  apply_part m short b = (next, set_quality clock m.tag_id short_payload b)
  apply_part m (slice bytes) b = decode_and_update_tag m bytes b

  unfoldable pub apply_mapping : List ℕ → ReadGroup → TagMapping → Link T → Flow × Link T
  apply_mapping payload g m b = apply_part m (part_of payload g m) b

  -- The loop on a payload that is too short.
  unfoldable pub mark_overlapping : ReadGroup → List TagMapping → Link T → Link T
  mark_overlapping g [] b = b
  mark_overlapping g (m ∷ ms) b = mark_overlapping g ms (
      if ltb (end32 m.address m.word_count) g.start_address
        || ltb (end32 g.start_address g.word_count) m.address
      then b
      else set_quality clock m.tag_id short_payload b)

  -- `for mapping in &group.mappings { set_tag_quality(...) }`
  unfoldable pub mark_members : TagQuality → List TagMapping → Link T → Link T
  mark_members q [] b = b
  mark_members q (m ∷ ms) b = mark_members q ms (set_quality clock m.tag_id q b)

  unfoldable pub on_payload : ReadGroup → List ℕ → Link T → Flow × Link T
  on_payload g payload b =
      if ltb (length payload) (g.word_count * 2)
      then (next, mark_overlapping g g.mappings b)
      else each (apply_mapping payload g) g.mappings b

  -- `match Self::parse_fins_response(&payload)`
  unfoldable pub on_parsed :
      ReadGroup → ℕ → Outcome DriverError (ℕ × ℕ × List ℕ) → Link T → Flow × Link T
  on_parsed g sid (err e) b =
      (stop, mark_members (TagQuality.error (codes "parse_fins_resp: " ++ display e)) g.mappings b)
  on_parsed g sid (ok (resp_sid, end_code, payload)) b =
      if resp_sid == sid
      then if end_code == 0
        then on_payload g payload b
        else (stop, mark_members (TagQuality.error (end_code_text end_code)) g.mappings b)
      else (next, mark_members TagQuality.comm_lost g.mappings b)

  -- The three calls of the stream; each of their errors is handled alike.
  unfoldable pub on_answer : ReadGroup → ℕ → Outcome Str (List ℕ) → Link T → Flow × Link T
  on_answer g sid (err e) b = (stop, mark_members TagQuality.comm_lost g.mappings b)
  on_answer g sid (ok payload) b = on_parsed g sid (parse_fins_response payload) b

  module _ (stream : Stream) where
    -- The body of `for group in &self.read_groups`.
    unfoldable pub read_group : ReadGroup → Link T → Flow × Link T
    read_group g b =
        let (sid, b1) = next_sid b in
        let (answer, b2) = request stream (read_frame sid g) b1 in on_answer g sid answer b2
