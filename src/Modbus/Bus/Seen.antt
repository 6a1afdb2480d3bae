-- ===== src/Modbus/Bus/Seen.antt =====
-- What a reader of the registry sees after the driver's calls of it (driver/modbus/src/driver.rs).
use opcua_plc_bridge.Base.{ℕ, ◌≡◌, Str, str_eq, Option, some, false, lookup}
use opcua_plc_bridge.Core.TagValue.{TagValue, TagQuality, data_type}
use opcua_plc_bridge.Core.Tag.{Tag}
use opcua_plc_bridge.Core.TagDefinition.{TagDefinition}
use opcua_plc_bridge.Core.TagStore.Invariant.{IsWellFormed}
use opcua_plc_bridge.Core.Registry.Seen as Registry
use opcua_plc_bridge.Core.Registry.Typed.{IsTyped}
use opcua_plc_bridge.Modbus.Bus.{Bus, set_quality, update_good}

module _ {T : Type 0} where
  abbrev pub seen : Bus T → Str → Option (Tag T)
  seen b = Registry.seen b.registry

  abbrev pub Shows : Bus T → Str → TagValue T → TagQuality → Type 0
  Shows b = Registry.Shows b.registry

  module _ (clock : ℕ → T) where
    -- A tag whose quality is set keeps its value.
    pub set_quality-Shows :
        (id : Str) (q : TagQuality) (b : Bus T) (t : Tag T)
        → IsWellFormed b.registry.tags
        → seen b id ≡ some t
        → Shows (set_quality clock id q b) id t.value q
    unfolding set_quality
    set_quality-Shows id q b t h e = Registry.set_tag_quality-Shows id q _ b.registry t h e

    pub set_quality-other :
        (id j : Str) (q : TagQuality) (b : Bus T)
        → IsWellFormed b.registry.tags
        → str_eq id j ≡ false
        → seen (set_quality clock id q b) j ≡ seen b j
    unfolding set_quality
    set_quality-other id j q b h n = Registry.set_tag_quality-other id j q _ b.registry h n

    pub update_good-Shows :
        (id : Str) (v : TagValue T) (b : Bus T) (d : TagDefinition)
        → IsTyped b.registry
        → lookup id b.registry.definitions ≡ some d
        → data_type v ≡ d.data_type
        → Shows (update_good clock id v b) id v TagQuality.good
    unfolding update_good
    update_good-Shows id v b d h found same =
        Registry.update_tag_value-Shows id v TagQuality.good _ _ b.registry d h found same

    pub update_good-other :
        (id j : Str) (v : TagValue T) (b : Bus T)
        → IsWellFormed b.registry.tags
        → str_eq id j ≡ false
        → seen (update_good clock id v b) j ≡ seen b j
    unfolding update_good
    update_good-other id j v b h n =
        Registry.update_tag_value-other id j v TagQuality.good _ _ b.registry h n
