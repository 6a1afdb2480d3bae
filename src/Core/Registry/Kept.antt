-- ===== src/Core/Registry/Kept.antt =====
-- Properties that the two calls of a driver on the registry (core-model/src/registry.rs) keep,
-- `update_tag_value` and `set_tag_quality`.
use opcua_plc_bridge.Base.{◌≡◌, Str, Outcome, ok, err}
use opcua_plc_bridge.Core.TagValue.{TagValue, TagQuality}
use opcua_plc_bridge.Core.Error.{CoreError}
use opcua_plc_bridge.Core.TagDefinition.{TagDefinition}
use opcua_plc_bridge.Core.DefinitionStore.{Definitions}
use opcua_plc_bridge.Core.Registry.{
  TagRegistry, update_known, get_definition, update_tag_value, set_tag_quality,
}
use opcua_plc_bridge.Core.Registry.Typed.{
  IsTyped, update_tag_value-IsTyped, set_tag_quality-IsTyped,
}

module _ {T : Type 0} where
  -- A property of registries that each of the two calls keeps, whatever its arguments.
  pub record IsKept (P : TagRegistry T → Type 0) : Type 0 where
    pub by_update :
        (id : Str) (v : TagValue T) (q : TagQuality) (ts now : T) (r : TagRegistry T)
        → P r
        → P (update_tag_value id v q ts now r).1
    pub by_quality :
        (id : Str) (q : TagQuality) (now : T) (r : TagRegistry T)
        → P r
        → P (set_tag_quality id q now r).1

-- The registry's contract is such a property.
pub IsTyped-IsKept : {T : Type 0} → IsKept (IsTyped {T = T})
IsTyped-IsKept = record {
  by_update = update_tag_value-IsTyped;
  by_quality = set_tag_quality-IsTyped;
}

-- The definitions stay as they are.
pub definitions-IsKept :
    {T : Type 0} (ds : Definitions) → IsKept (λ (r : TagRegistry T). r.definitions ≡ ds)
definitions-IsKept ds = record {
  by_update =
      λ id v q ts now r h. unfold update_tag_value in known (get_definition r id) id v q ts now r h;
  by_quality = λ id q now r h. unfold set_tag_quality in h;
}
  where
    known :
        {T : Type 0} (k : Outcome CoreError TagDefinition) (id : Str) (v : TagValue T)
        (q : TagQuality) (ts now : T) (r : TagRegistry T)
        → r.definitions ≡ ds
        → (update_known k id v q ts now r).1.definitions ≡ ds
    known (ok d) id v q ts now r h = h
    known (err e) id v q ts now r h = h
