-- ===== src/Fins/Reads/Seen.antt =====
-- What a reader of the registry sees after a group was read (driver/fins/src/driver.rs).
use opcua_plc_bridge.Base.{
  ℕ, ◌-◌, ◌*◌, ◌==◌, ==_iff, ◌≡◌, refl, ◌∙◌, ap, ◌≤◌, List, [], ◌∷◌, ◌++◌, Str, str_eq, Option,
  some, true, false, Outcome, ok, err, lookup, arith, length, take, drop, All, ltb,
}
use opcua_plc_bridge.Core.Error.{CoreError}
use opcua_plc_bridge.Core.TagValue.{TagValue, TagQuality}
use opcua_plc_bridge.Core.TagDefinition.{TagDefinition}
use opcua_plc_bridge.Core.WordOrder.{apply_to_bytes}
use opcua_plc_bridge.Core.Registry.{get_definition}
use opcua_plc_bridge.Core.Registry.Typed.{IsTyped}
use opcua_plc_bridge.Core.Registry.Kept.{IsTyped-IsKept, definitions-IsKept}
use opcua_plc_bridge.Core.Registry.Seen.{
  seen, Shows, set_tag_quality-other, update_tag_value-other, update_tag_value-Shows,
  get_definition-found,
}
use opcua_plc_bridge.Driver.Chrono.{Chrono}
use opcua_plc_bridge.Modbus.Chunks.{Part, outside, short, slice}
use opcua_plc_bridge.Fins.Mapping.{TagMapping}
use opcua_plc_bridge.Fins.Groups.{ReadGroup}
use opcua_plc_bridge.Fins.Codec.{DecodeFailure, failed, panicked, decode_value}
use opcua_plc_bridge.Fins.Codec.Types.{decode_value-type}
use opcua_plc_bridge.Fins.Frame.{parse_fins_response}
use opcua_plc_bridge.Fins.Link.{Link, Stream, next_sid, set_quality, update_good, exchange, request}
use opcua_plc_bridge.Fins.Reads.{
  Flow, next, stop, unwind, read_frame, part_of, and_then, each, on_decoded, on_defined,
  decode_and_update_tag, apply_part, apply_mapping, on_payload, on_parsed, on_answer, read_group,
}
use opcua_plc_bridge.Fins.Reads.Keeps.{apply_mapping-keeps, each-keeps}
use opcua_plc_bridge.Fins.Reads.Parts.{IsInside, part_of-inside}
use opcua_plc_bridge.Fins.Reads.Total.{IsTimeless, apply_mapping-next, each-append}

module _ {T : Type 0} (chrono : Chrono T) (clock : ℕ → T) (from_system_time : ℕ → Option T) where
  module _ (id j : Str) (n : str_eq id j ≡ false) where
    on_decoded-other :
        (o : Outcome DecodeFailure (TagValue T)) (b : Link T)
        → IsTyped b.registry
        → seen (on_decoded chrono clock from_system_time id o b).1.registry j ≡ seen b.registry j
    unfolding on_decoded set_quality update_good
    on_decoded-other (ok v) b h =
        update_tag_value-other id j v TagQuality.good _ _ b.registry h.tags n
    on_decoded-other (err (failed e)) b h = set_tag_quality-other id j _ _ b.registry h.tags n
    on_decoded-other (err panicked) b h = refl

  on_defined-other :
      (m : TagMapping) (bytes : List ℕ) (d : Outcome CoreError TagDefinition) (j : Str) (b : Link T)
      → IsTyped b.registry
      → str_eq m.tag_id j ≡ false
      → seen (on_defined chrono clock from_system_time m bytes d b).1.registry j ≡ seen b.registry j
  unfolding on_defined set_quality
  on_defined-other m bytes (err e) j b h n =
      set_tag_quality-other m.tag_id j _ _ b.registry h.tags n
  on_defined-other m bytes (ok d) j b h n = on_decoded-other m.tag_id j n _ b h

  apply_part-other :
      (m : TagMapping) (p : Part) (j : Str) (b : Link T)
      → IsTyped b.registry
      → str_eq m.tag_id j ≡ false
      → seen (apply_part chrono clock from_system_time m p b).1.registry j ≡ seen b.registry j
  unfolding apply_part decode_and_update_tag set_quality
  apply_part-other m outside j b h n = refl
  apply_part-other m short j b h n = set_tag_quality-other m.tag_id j _ _ b.registry h.tags n
  apply_part-other m (slice bytes) j b h n =
      on_defined-other m bytes (get_definition b.registry m.tag_id) j b h n

  -- No mapping of the list is of the tag.
  abbrev pub NoneOf : Str → List TagMapping → Type 0
  NoneOf j ms = All (λ (m : TagMapping). str_eq m.tag_id j ≡ false) ms

  module _ (payload : List ℕ) (g : ReadGroup) where
    body : TagMapping → Link T → Flow × Link T
    body = apply_mapping chrono clock from_system_time payload g

    each-other :
        (ms : List TagMapping) (j : Str) (b : Link T)
        → IsTyped b.registry
        → NoneOf j ms
        → seen (each body ms b).1.registry j ≡ seen b.registry j
    unfolding each body
    each-other [] j b h n = refl
    each-other (m ∷ ms) j b h (n, ns) =
        rest (body m b)
          (apply_mapping-keeps IsTyped IsTyped-IsKept chrono clock from_system_time payload g m b h)
          (unfold apply_mapping in apply_part-other m (part_of payload g m) j b h n)
          (λ b1 h1. each-other ms j b1 h1 ns)
      where
        rest :
            (r : Flow × Link T)
            → IsTyped r.1.registry
            → seen r.1.registry j ≡ seen b.registry j
            → ((b1 : Link T)
                → IsTyped b1.registry
                → seen (each body ms b1).1.registry j ≡ seen b1.registry j)
            → seen (and_then r (each body ms)).1.registry j ≡ seen b.registry j
        rest (next, b1) h1 e tail = tail b1 h1 ∙ e
        rest (stop, b1) h1 e tail = e
        rest (unwind, b1) h1 e tail = e

    and_then-other :
        (ms : List TagMapping) (j : Str) (r : Flow × Link T)
        → IsTyped r.1.registry
        → NoneOf j ms
        → seen (and_then r (each body ms)).1.registry j ≡ seen r.1.registry j
    and_then-other ms j (next, b) h n = each-other ms j b h n
    and_then-other ms j (stop, b) h n = refl
    and_then-other ms j (unwind, b) h n = refl

    slice-Shows :
        (m : TagMapping) (bytes : List ℕ) (b : Link T) (d : TagDefinition) (v : TagValue T)
        → IsTyped b.registry
        → lookup m.tag_id b.registry.definitions ≡ some d
        → decode_value chrono from_system_time m.data_type
            (apply_to_bytes m.byte_order bytes)
            m.bit_offset
          ≡ ok v
        → m.data_type ≡ d.data_type
        → Shows
            (apply_part chrono clock from_system_time m (slice bytes) b).1.registry
            m.tag_id
            v
            TagQuality.good
    unfolding apply_part decode_and_update_tag on_defined on_decoded update_good
    slice-Shows m bytes b d v h found e same =
        rw (get_definition-found b.registry m.tag_id d found, e)
          (update_tag_value-Shows m.tag_id v TagQuality.good _ _ b.registry d h found
            (decode_value-type chrono from_system_time v m.data_type _ m.bit_offset e ∙ same))

    each-Shows :
        (pre post : List TagMapping) (m : TagMapping) (b : Link T) (d : TagDefinition)
        (v : TagValue T)
        → IsTyped b.registry
        → lookup m.tag_id b.registry.definitions ≡ some d
        → m.data_type ≡ d.data_type
        → IsInside g m
        → g.word_count * 2 ≤ length payload
        → decode_value chrono from_system_time m.data_type
            (apply_to_bytes m.byte_order
              (take (m.word_count * 2) (drop ((m.address - g.start_address) * 2) payload)))
            m.bit_offset
          ≡ ok v
        → All IsTimeless pre
        → NoneOf m.tag_id post
        → Shows (each body (pre ++ (m ∷ post)) b).1.registry m.tag_id v TagQuality.good
    unfolding each body apply_mapping
    each-Shows pre post m b d v h found same inside full decoded timeless none_later =
        let b1 : Link T = (each body pre b).1 in
        let typed : IsTyped b1.registry =
          each-keeps IsTyped body
            (apply_mapping-keeps IsTyped IsTyped-IsKept chrono clock from_system_time payload g) pre
            b h in
        let kept : b1.registry.definitions ≡ b.registry.definitions =
          each-keeps _ body
            (apply_mapping-keeps _ (definitions-IsKept b.registry.definitions) chrono clock
              from_system_time payload g)
            pre b refl in
        let (t, seen_t, value, quality) =
          slice-Shows m (take (m.word_count * 2) (drop ((m.address - g.start_address) * 2) payload))
            b1 d v typed (ap (lookup m.tag_id) kept ∙ found) decoded same in
        (
          t,
          ap (λ (r : Flow × Link T). seen r.1.registry m.tag_id)
                (each-append body IsTimeless
                  (apply_mapping-next chrono clock from_system_time payload g) pre (m ∷ post) b
                  timeless)
              ∙ and_then-other post m.tag_id
                  (apply_part chrono clock from_system_time m (part_of payload g m) b1)
                  (unfold apply_mapping in
                    apply_mapping-keeps IsTyped IsTyped-IsKept chrono clock from_system_time payload
                      g m b1 typed)
                  none_later
              ∙ ap (λ p. seen (apply_part chrono clock from_system_time m p b1).1.registry m.tag_id)
                  (part_of-inside payload g m inside full)
              ∙ seen_t,
          value,
          quality,
        )

  -- The answer to the read of a group on a typed registry is a response of its session with end code
  -- 0 and at least as many bytes as the group's words have. A mapping of the group lies inside it, of
  -- one word at least and below 2 ^ 32, its words decode in its byte order to `v`, its data type is
  -- that of the tag's definition, no earlier mapping of the group is of type DateTime, and no later
  -- one is of the same tag. Then the tag is seen with the value `v` and the quality Good.
  pub fins_group_read :
      (stream : Stream) (g : ReadGroup) (pre post : List TagMapping) (m : TagMapping)
      (frame payload : List ℕ) (b : Link T) (d : TagDefinition) (v : TagValue T)
      → IsTyped b.registry
      → exchange stream b.calls (read_frame b.sid_counter g) ≡ ok frame
      → parse_fins_response frame ≡ ok (b.sid_counter, 0, payload)
      → g.word_count * 2 ≤ length payload
      → g.mappings ≡ pre ++ (m ∷ post)
      → IsInside g m
      → lookup m.tag_id b.registry.definitions ≡ some d
      → m.data_type ≡ d.data_type
      → decode_value chrono from_system_time m.data_type
          (apply_to_bytes m.byte_order
            (take (m.word_count * 2) (drop ((m.address - g.start_address) * 2) payload)))
          m.bit_offset
        ≡ ok v
      → All IsTimeless pre
      → NoneOf m.tag_id post
      → Shows
          (read_group chrono clock from_system_time stream g b).1.registry
          m.tag_id
          v
          TagQuality.good
  unfolding read_group on_answer on_parsed on_payload body
  fins_group_read stream g pre post m frame payload b d v h answer parsed full members inside found
        same decoded timeless none_later =
      let b2 : Link T = (request stream (read_frame b.sid_counter g) (next_sid b).1).1 in
      let ours : (b.sid_counter == b.sid_counter) ≡ true =
        (==_iff b.sid_counter b.sid_counter).1 refl in
      let enough : ltb (length payload) (g.word_count * 2) ≡ false = ground arith in
      let path : read_group chrono clock from_system_time stream g b
          ≡ each (apply_mapping chrono clock from_system_time payload g) (pre ++ (m ∷ post)) b2 =
        unfold request next_sid in simp (answer, parsed, ours, enough, members) in
      rw path (
        each-Shows payload g pre post m b2 d v (unfold request next_sid in h)
          (unfold request next_sid in found) same inside full decoded timeless none_later)
