-- ===== src/Modbus/Reads/Seen.antt =====
-- What a reader of the registry sees after a chunk was read (driver/modbus/src/driver.rs).
use opcua_plc_bridge.Base.{
  ℕ, ◌+◌, ◌-◌, ◌≤◌, ◌≡◌, refl, ◌∙◌, ap, List, [], ◌∷◌, ◌++◌, Str, str_eq, none, some, false,
  Outcome, ok, err, lookup, arith, length, take, drop, All,
}
use opcua_plc_bridge.Core.Error.{CoreError, tag_not_found}
use opcua_plc_bridge.Core.TagValue.{TagValue, TagDataType, TagQuality, data_type}
use opcua_plc_bridge.Core.TagDefinition.{TagDefinition}
use opcua_plc_bridge.Core.Tag.{Tag}
use opcua_plc_bridge.Core.WordOrder.{apply_to_bytes}
use opcua_plc_bridge.Core.Registry.{get_tag, get_definition}
use opcua_plc_bridge.Core.Registry.Typed.{IsTyped}
use opcua_plc_bridge.Core.TagStore.View.{get-view}
use opcua_plc_bridge.Driver.Chrono.{Chrono}
use opcua_plc_bridge.Driver.Error.{DriverError}
use opcua_plc_bridge.Driver.Words.{registers_to_bytes}
use opcua_plc_bridge.Modbus.Mapping.{ModbusMapping}
use opcua_plc_bridge.Modbus.Codec.{decode_bytes_to_tagvalue}
use opcua_plc_bridge.Modbus.Chunks.{Chunk, Part, outside, short, slice, part_of}
use opcua_plc_bridge.Modbus.Chunks.Parts.{IsU16, part_of_inside}
use opcua_plc_bridge.Modbus.Bus.{Bus}
use opcua_plc_bridge.Core.Registry.Kept.{IsTyped-IsKept, definitions-IsKept}
use opcua_plc_bridge.Core.Registry.Seen.{IsTyped-seen, get_definition-found}
use opcua_plc_bridge.Modbus.Bus.Seen.{
  seen, Shows, set_quality-other, update_good-other, update_good-Shows,
}
use opcua_plc_bridge.Modbus.Reads.{
  apply_decoded, apply_existing, apply_defined, apply_part, apply_members,
}
use opcua_plc_bridge.Modbus.Reads.Keeps.{apply_part-keeps, apply_members-keeps}

module _ {T : Type 0} (chrono : Chrono T) (clock : ℕ → T) where
  module _ (id j : Str) (n : str_eq id j ≡ false) (b : Bus T) (h : IsTyped b.registry) where
    apply_decoded-other :
        (o : Outcome DriverError (TagValue T))
        → seen (apply_decoded chrono clock id o b) j ≡ seen b j
    apply_decoded-other (ok v) = update_good-other clock id j v b h.tags n
    apply_decoded-other (err e) = set_quality-other clock id j TagQuality.config_error b h.tags n

    apply_existing-other :
        (t : Outcome CoreError (Tag T)) (o : Outcome DriverError (TagValue T))
        → seen (apply_existing chrono clock id t o b) j ≡ seen b j
    apply_existing-other (ok t) o = apply_decoded-other o
    apply_existing-other (err e) o = set_quality-other clock id j TagQuality.comm_lost b h.tags n

    apply_defined-other :
        (d : Outcome CoreError TagDefinition) (o : Outcome DriverError (TagValue T))
        → seen (apply_defined chrono clock id d o b) j ≡ seen b j
    apply_defined-other (ok d) o = apply_existing-other (get_tag b.registry id) o
    apply_defined-other (err e) o = set_quality-other clock id j TagQuality.config_error b h.tags n

  apply_part-other :
      (m : ModbusMapping) (p : Part) (j : Str) (b : Bus T)
      → IsTyped b.registry
      → str_eq m.tag_id j ≡ false
      → seen (apply_part chrono clock m p b) j ≡ seen b j
  apply_part-other m outside j b h n = refl
  apply_part-other m short j b h n =
      set_quality-other clock m.tag_id j TagQuality.config_error b h.tags n
  apply_part-other m (slice bytes) j b h n =
      apply_defined-other m.tag_id j n b h (get_definition b.registry m.tag_id) _

  -- No mapping of the list is of the tag.
  abbrev pub NoneOf : Str → List ModbusMapping → Type 0
  NoneOf j ms = All (λ (m : ModbusMapping). str_eq m.tag_id j ≡ false) ms

  apply_members-other :
      (raw : List ℕ) (c : Chunk) (ms : List ModbusMapping) (j : Str) (b : Bus T)
      → IsTyped b.registry
      → NoneOf j ms
      → seen (apply_members chrono clock raw c ms b) j ≡ seen b j
  unfolding apply_members
  apply_members-other raw c [] j b h n = refl
  apply_members-other raw c (m ∷ ms) j b h (n, ns) =
      apply_members-other raw c ms j _
        (apply_part-keeps IsTyped IsTyped-IsKept chrono clock m (part_of raw c m) b h) ns
      ∙ apply_part-other m (part_of raw c m) j b h n

  apply_members-append :
      (raw : List ℕ) (c : Chunk) (pre post : List ModbusMapping) (b : Bus T)
      → apply_members chrono clock raw c (pre ++ post) b
        ≡ apply_members chrono clock raw c post (apply_members chrono clock raw c pre b)
  unfolding apply_members
  apply_members-append raw c [] post b = refl
  apply_members-append raw c (m ∷ pre) post b = apply_members-append raw c pre post _

  decode-type :
      (v : TagValue T) (dt : TagDataType) (bytes : List ℕ) (off : ℕ)
      → decode_bytes_to_tagvalue chrono dt bytes off ≡ ok v
      → data_type v ≡ dt
  unfolding decode_bytes_to_tagvalue data_type
  decode-type v TagDataType.date_time bytes off e = ground arith
  decode-type v dt bytes off e = ground arith

  slice-Shows :
      (m : ModbusMapping) (bytes : List ℕ) (b : Bus T) (d : TagDefinition) (v : TagValue T)
      → IsTyped b.registry
      → lookup m.tag_id b.registry.definitions ≡ some d
      → decode_bytes_to_tagvalue chrono m.data_type (apply_to_bytes m.byte_order bytes) m.bit_offset
        ≡ ok v
      → m.data_type ≡ d.data_type
      → Shows (apply_part chrono clock m (slice bytes) b) m.tag_id v TagQuality.good
  slice-Shows m bytes b d v h found e same =
      let (t, s) = IsTyped-seen b.registry m.tag_id d h found in
      let defined : get_definition b.registry m.tag_id ≡ ok d =
        get_definition-found b.registry m.tag_id d found in
      let existing : get_tag b.registry m.tag_id ≡ ok t =
        get-view b.registry.tags m.tag_id h.tags
        ∙ ap (λ o. elim o [ some tag ↦ ok tag | none ↦ err (tag_not_found m.tag_id) ]) s in
      rw (defined, existing, e)
        (update_good-Shows clock m.tag_id v b d h found
          (decode-type v m.data_type _ m.bit_offset e ∙ same))

  -- A chunk of registers was read, with as many registers as asked for, on a typed registry. A mapping
  -- lies inside it, of one register at least and below 65536, whose registers decode in its byte order
  -- to `v`; its data type is that of the tag's definition, and no later mapping of the group is of
  -- the same tag. Then the tag is seen with the value `v` and the quality Good.
  pub register_read :
      (c : Chunk) (pre post : List ModbusMapping) (m : ModbusMapping) (regs : List ℕ) (b : Bus T)
      (d : TagDefinition) (v : TagValue T)
      → IsTyped b.registry
      → lookup m.tag_id b.registry.definitions ≡ some d
      → m.data_type ≡ d.data_type
      → IsU16 m
      → length regs ≡ c.quantity
      → c.start ≤ m.address
      → m.address + m.quantity ≤ c.start + c.quantity
      → decode_bytes_to_tagvalue chrono m.data_type
          (apply_to_bytes m.byte_order
            (registers_to_bytes (take m.quantity (drop (m.address - c.start) regs))))
          m.bit_offset
        ≡ ok v
      → NoneOf m.tag_id post
      → Shows
          (apply_members chrono clock (registers_to_bytes regs) c (pre ++ (m ∷ post)) b)
          m.tag_id
          v
          TagQuality.good
  unfolding apply_members
  register_read c pre post m regs b d v h found same u l s e decoded none_later =
      let raw : List ℕ = registers_to_bytes regs in
      let b1 : Bus T = apply_members chrono clock raw c pre b in
      let typed : IsTyped b1.registry =
        apply_members-keeps IsTyped IsTyped-IsKept chrono clock raw c pre b h in
      let kept : b1.registry.definitions ≡ b.registry.definitions =
        apply_members-keeps _ (definitions-IsKept b.registry.definitions) chrono clock raw c pre b
          refl in
      let part : part_of raw c m
          ≡ slice (registers_to_bytes (take m.quantity (drop (m.address - c.start) regs))) =
        part_of_inside c m regs u l s e in
      let (t, seen_t, value, quality) =
        slice-Shows m (registers_to_bytes (take m.quantity (drop (m.address - c.start) regs))) b1 d
          v typed (ap (lookup m.tag_id) kept ∙ found) decoded same in
      (
        t,
        ap (λ b. seen b m.tag_id) (apply_members-append raw c pre (m ∷ post) b)
            ∙ apply_members-other raw c post m.tag_id _
                (apply_part-keeps IsTyped IsTyped-IsKept chrono clock m (part_of raw c m) b1 typed)
                none_later
            ∙ ap (λ p. seen (apply_part chrono clock m p b1) m.tag_id) part
            ∙ seen_t,
        value,
        quality,
      )
