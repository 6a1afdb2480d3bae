-- ===== src/Modbus/Reads/Faults.antt =====
-- What a failed read does to the tags (driver/modbus/src/driver.rs).
use opcua_plc_bridge.Base.{
  or-false, ℕ, ◌+◌, ◌≡◌, refl, sym, ◌∙◌, ap, List, [], ◌∷◌, Str, str_eq, str_eq_iff, some, Bool,
  true, false, ◌||◌, Outcome, ok, err, Bool-cases, inl, inr, subst,
}
use opcua_plc_bridge.Core.TagValue.{TagQuality}
use opcua_plc_bridge.Core.Tag.{Tag}
use opcua_plc_bridge.Core.Registry.Typed.{IsTyped}
use opcua_plc_bridge.Driver.Chrono.{Chrono}
use opcua_plc_bridge.Driver.Error.{DriverError, modbus}
use opcua_plc_bridge.Modbus.Mapping.{ModbusFunction, ModbusMapping}
use opcua_plc_bridge.Modbus.Chunks.{Chunk}
use opcua_plc_bridge.Modbus.Bus.{Bus, Device, set_quality, send_health_event}
use opcua_plc_bridge.Core.Registry.Kept.{IsTyped-IsKept}
use opcua_plc_bridge.Modbus.Bus.Keeps.{set_quality-keeps}
use opcua_plc_bridge.Modbus.Bus.Seen.{seen, Shows, set_quality-Shows, set_quality-other}
use opcua_plc_bridge.Modbus.Reads.{
  ReadFault, illegal, lost, ignored, classify, mark_members, on_fault, on_read, read_chunk,
  read_one,
}

-- Some mapping of the list is of the tag.
abbrev pub names : Str → List ModbusMapping → Bool
names id [] = false
names id (m ∷ ms) = str_eq m.tag_id id || names id ms

-- The quality of a tag after a read of its group failed.
abbrev pub quality_after : ReadFault → Bool → TagQuality → TagQuality
quality_after illegal true q = TagQuality.config_error
quality_after lost true q = TagQuality.comm_lost
quality_after _ _ q = q

-- How a failed read ends the cycle.
abbrev pub result_after : ReadFault → Str → Outcome DriverError (Unit {0})
result_after lost text = err (modbus text)
result_after _ text = ok tt

module _ {T : Type 0} (chrono : Chrono T) (clock : ℕ → T) where
  set_quality-IsTyped :
      (m : ModbusMapping) (q : TagQuality) (b : Bus T)
      → IsTyped b.registry
      → IsTyped (set_quality clock m.tag_id q b).registry
  set_quality-IsTyped m q b h = set_quality-keeps IsTyped clock IsTyped-IsKept m.tag_id q b h

  marked-other :
      (q : TagQuality) (ms : List ModbusMapping) (b : Bus T) (j : Str)
      → IsTyped b.registry
      → names j ms ≡ false
      → seen (mark_members chrono clock q ms b) j ≡ seen b j
  unfolding mark_members
  marked-other q [] b j h n = refl
  marked-other q (m ∷ ms) b j h n =
      let (here, rest) = or-false (str_eq m.tag_id j) (names j ms) n in
      marked-other q ms _ j (set_quality-IsTyped m q b h) rest
      ∙ set_quality-other clock m.tag_id j q b h.tags here

  marked-Shows :
      (q : TagQuality) (ms : List ModbusMapping) (b : Bus T) (j : Str) (t : Tag T)
      → IsTyped b.registry
      → names j ms ≡ true
      → seen b j ≡ some t
      → Shows (mark_members chrono clock q ms b) j t.value q
  unfolding mark_members
  marked-Shows q [] b j t h n e = cc
  marked-Shows q (m ∷ ms) b j t h n e =
      let typed = set_quality-IsTyped m q b h in
      elim (Bool-cases (str_eq m.tag_id j)) [
        | inl same ↦
            let at_j : m.tag_id ≡ j = (str_eq_iff m.tag_id j).0 same in
            let (t1, seen1, value1, quality1) =
              subst (λ i. Shows (set_quality clock m.tag_id q b) i t.value q) at_j
                (set_quality-Shows clock m.tag_id q b t h.tags (ap (seen b) at_j ∙ e)) in
            elim (Bool-cases (names j ms)) [
              | inl again ↦
                  subst (λ v. Shows (mark_members chrono clock q (m ∷ ms) b) j v q) value1
                    (marked-Shows q ms _ j t1 typed again seen1)
              | inr last ↦ (t1, marked-other q ms _ j typed last ∙ seen1, value1, quality1)
            ]
        | inr other ↦
            marked-Shows q ms _ j t typed (ap (λ x. x || names j ms) (sym other) ∙ n)
              (set_quality-other clock m.tag_id j q b h.tags other ∙ e)
      ]

  on_fault-Shows :
      (f : ReadFault) (text : Str) (ms : List ModbusMapping) (b : Bus T) (j : Str) (t : Tag T)
      → IsTyped b.registry
      → seen b j ≡ some t
      → Shows
          (on_fault chrono clock f text ms b).1
          j
          t.value
          (quality_after f (names j ms) t.quality)
  unfolding on_fault send_health_event
  on_fault-Shows illegal text ms b j t h e = elim (Bool-cases (names j ms)) [
    | inl named ↦ rw named (marked-Shows TagQuality.config_error ms b j t h named e)
    | inr other ↦ rw other (t, marked-other TagQuality.config_error ms b j h other ∙ e, refl, refl)
  ]
  on_fault-Shows lost text ms b j t h e = elim (Bool-cases (names j ms)) [
    | inl named ↦ rw named (marked-Shows TagQuality.comm_lost ms b j t h named e)
    | inr other ↦ rw other (t, marked-other TagQuality.comm_lost ms b j h other ∙ e, refl, refl)
  ]
  on_fault-Shows ignored text ms b j t h e = (t, e, refl, refl)

  on_fault-result :
      (f : ReadFault) (text : Str) (ms : List ModbusMapping) (b : Bus T)
      → (on_fault chrono clock f text ms b).0 ≡ result_after f text
  unfolding on_fault
  on_fault-result illegal text ms b = refl
  on_fault-result lost text ms b = refl
  on_fault-result ignored text ms b = refl

  module _ (device : Device) where
    -- After a read of a chunk on a typed registry failed, a tag has its value as before. A tag of the
    -- group has the quality ConfigError after a text that names an illegal address, and CommLost
    -- after a device failure or a timeout; after any other text, and for any other tag, the
    -- quality is as before. Only a device failure or a timeout ends the cycle, with its text.
    pub failed_read :
        (f : ModbusFunction) (ms : List ModbusMapping) (c : Chunk) (b : Bus T) (text : Str)
        (j : Str) (t : Tag T)
        → IsTyped b.registry
        → read_chunk device b.calls f c ≡ err text
        → seen b j ≡ some t
        → ((read_one chrono clock device f ms c b).0 ≡ result_after (classify text) text)
          × Shows
              (read_one chrono clock device f ms c b).1
              j
              t.value
              (quality_after (classify text) (names j ms) t.quality)
    unfolding read_one on_read
    failed_read f ms c b text j t h e s = rw e (
      on_fault-result (classify text) text ms _,
      on_fault-Shows (classify text) text ms (record b { calls = b.calls + 1 }) j t h s,
    )
