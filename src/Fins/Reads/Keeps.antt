-- ===== src/Fins/Reads/Keeps.antt =====
-- Properties of the registry along the reads of a cycle (driver/fins/src/driver.rs).
use opcua_plc_bridge.Base.{
  ℕ, ◌*◌, ◌==◌, ◌||◌, List, [], ◌∷◌, Str, Option, Outcome, ok, err, if-both, length, ltb,
}
use opcua_plc_bridge.Core.Error.{CoreError}
use opcua_plc_bridge.Core.TagValue.{TagValue, TagQuality}
use opcua_plc_bridge.Core.TagDefinition.{TagDefinition}
use opcua_plc_bridge.Core.Registry.{TagRegistry, get_definition}
use opcua_plc_bridge.Core.Registry.Kept.{IsKept}
use opcua_plc_bridge.Driver.Chrono.{Chrono}
use opcua_plc_bridge.Driver.Error.{DriverError}
use opcua_plc_bridge.Modbus.Chunks.{Part, outside, short, slice}
use opcua_plc_bridge.Fins.Mapping.{TagMapping}
use opcua_plc_bridge.Fins.Groups.{ReadGroup, end32}
use opcua_plc_bridge.Fins.Codec.{DecodeFailure, failed, panicked}
use opcua_plc_bridge.Fins.Frame.{parse_fins_response}
use opcua_plc_bridge.Fins.Link.{Link, Stream, next_sid, request}
use opcua_plc_bridge.Fins.Link.Keeps.{Holds, set_quality-keeps, update_good-keeps}
use opcua_plc_bridge.Fins.Reads.{
  Flow, next, stop, unwind, part_of, and_then, each, on_decoded, on_defined, decode_and_update_tag,
  apply_part, apply_mapping, mark_overlapping, mark_members, on_payload, on_parsed, on_answer,
  read_group,
}

module _ {T : Type 0} (P : TagRegistry T → Type 0) where
  abbrev pub After : Flow × Link T → Type 0
  After r = Holds P r.1

  pub each-keeps :
      {A : Type 0} (body : A → Link T → Flow × Link T)
      → ((x : A) (b : Link T) → Holds P b → After (body x b))
      → (xs : List A) (b : Link T) → Holds P b
      → After (each body xs b)
  unfolding each
  each-keeps body k [] b h = h
  each-keeps body k (x ∷ xs) b h = rest (body x b) (k x b h) (each-keeps body k xs)
    where
      rest :
          (r : Flow × Link T)
          → After r
          → ((b : Link T) → Holds P b → After (each body xs b))
          → After (and_then r (each body xs))
      rest (next, b1) h1 tail = tail b1 h1
      rest (stop, b1) h1 tail = h1
      rest (unwind, b1) h1 tail = h1

  module _ (k : IsKept P) (chrono : Chrono T) (clock : ℕ → T)
      (from_system_time : ℕ → Option T) where
    on_decoded-keeps :
        (id : Str) (o : Outcome DecodeFailure (TagValue T)) (b : Link T)
        → Holds P b
        → After (on_decoded chrono clock from_system_time id o b)
    unfolding on_decoded
    on_decoded-keeps id (ok v) b h = update_good-keeps P clock k id v b h
    on_decoded-keeps id (err (failed e)) b h = set_quality-keeps P clock k id _ _ h
    on_decoded-keeps id (err panicked) b h = h

    on_defined-keeps :
        (m : TagMapping) (bytes : List ℕ) (d : Outcome CoreError TagDefinition) (b : Link T)
        → Holds P b
        → After (on_defined chrono clock from_system_time m bytes d b)
    unfolding on_defined
    on_defined-keeps m bytes (err e) b h = set_quality-keeps P clock k m.tag_id _ b h
    on_defined-keeps m bytes (ok d) b h = on_decoded-keeps m.tag_id _ b h

    pub apply_part-keeps :
        (m : TagMapping) (p : Part) (b : Link T)
        → Holds P b
        → After (apply_part chrono clock from_system_time m p b)
    unfolding apply_part decode_and_update_tag
    apply_part-keeps m outside b h = h
    apply_part-keeps m short b h = set_quality-keeps P clock k m.tag_id _ b h
    apply_part-keeps m (slice bytes) b h =
        on_defined-keeps m bytes (get_definition b.registry m.tag_id) b h

    pub apply_mapping-keeps :
        (payload : List ℕ) (g : ReadGroup) (m : TagMapping) (b : Link T)
        → Holds P b
        → After (apply_mapping chrono clock from_system_time payload g m b)
    unfolding apply_mapping
    apply_mapping-keeps payload g m b h = apply_part-keeps m (part_of payload g m) b h

    mark_overlapping-keeps :
        (g : ReadGroup) (ms : List TagMapping) (b : Link T)
        → Holds P b
        → Holds P (mark_overlapping chrono clock from_system_time g ms b)
    unfolding mark_overlapping
    mark_overlapping-keeps g [] b h = h
    mark_overlapping-keeps g (m ∷ ms) b h = mark_overlapping-keeps g ms _ (
        if-both
          (ltb (end32 m.address m.word_count) g.start_address
            || ltb (end32 g.start_address g.word_count) m.address)
          (Holds P) h (set_quality-keeps P clock k m.tag_id _ b h))

    pub mark_members-keeps :
        (q : TagQuality) (ms : List TagMapping) (b : Link T)
        → Holds P b
        → Holds P (mark_members chrono clock from_system_time q ms b)
    unfolding mark_members
    mark_members-keeps q [] b h = h
    mark_members-keeps q (m ∷ ms) b h =
        mark_members-keeps q ms _ (set_quality-keeps P clock k m.tag_id q b h)

    on_payload-keeps :
        (g : ReadGroup) (payload : List ℕ) (b : Link T)
        → Holds P b
        → After (on_payload chrono clock from_system_time g payload b)
    unfolding on_payload
    on_payload-keeps g payload b h =
        if-both (ltb (length payload) (g.word_count * 2)) After
          (mark_overlapping-keeps g g.mappings b h)
          (each-keeps (apply_mapping chrono clock from_system_time payload g)
            (apply_mapping-keeps payload g) g.mappings b h)

    on_parsed-keeps :
        (g : ReadGroup) (sid : ℕ) (r : Outcome DriverError (ℕ × ℕ × List ℕ)) (b : Link T)
        → Holds P b
        → After (on_parsed chrono clock from_system_time g sid r b)
    unfolding on_parsed
    on_parsed-keeps g sid (err e) b h = mark_members-keeps _ g.mappings b h
    on_parsed-keeps g sid (ok (resp_sid, end_code, payload)) b h =
        if-both (resp_sid == sid) After
          (if-both (end_code == 0) After (on_payload-keeps g payload b h)
            (mark_members-keeps _ g.mappings b h))
          (mark_members-keeps _ g.mappings b h)

    on_answer-keeps :
        (g : ReadGroup) (sid : ℕ) (r : Outcome Str (List ℕ)) (b : Link T)
        → Holds P b
        → After (on_answer chrono clock from_system_time g sid r b)
    unfolding on_answer
    on_answer-keeps g sid (err e) b h = mark_members-keeps _ g.mappings b h
    on_answer-keeps g sid (ok payload) b h = on_parsed-keeps g sid (parse_fins_response payload) b h

    pub read_group-keeps :
        (stream : Stream) (g : ReadGroup) (b : Link T)
        → Holds P b
        → After (read_group chrono clock from_system_time stream g b)
    unfolding read_group next_sid request
    read_group-keeps stream g b h = on_answer-keeps g _ _ _ h
