-- ===== src/Core/Registry.antt =====
-- core-model/src/registry.rs: the definitions with the runtime tags. `clock n` is what the n-th
-- call of `Utc::now()` reads.
pub mod Typed
pub mod Built
pub mod Kept
pub mod Seen
use opcua_plc_bridge.Base.{ℕ, ◌+◌, Bool, false, List, [], ◌∷◌, Str, Outcome, ok, err, ◌>>=◌}
use opcua_plc_bridge.Core.Error.{CoreError}
use opcua_plc_bridge.Core.TagValue.{TagValue, TagDataType, TagQuality}
use opcua_plc_bridge.Core.Tag.{Tag, new_tag}
use opcua_plc_bridge.Core.TagDefinition.{TagDefinition}
use opcua_plc_bridge.Core.DefinitionStore
use opcua_plc_bridge.Core.DefinitionStore.{Definitions, from_definitions, all_definitions_sorted}
use opcua_plc_bridge.Core.TagStore
use opcua_plc_bridge.Core.TagStore.{Inner, empty, insert_tag, update_value_with_expected}

pub record TagRegistry (T : Type 0) : Type 0 where
  pub definitions : Definitions
  pub tags : Inner T

module _ {T : Type 0} where
  -- The match on the data type in `TagRegistry::from_definitions`.
  unfoldable pub initial_value : TagDataType → T → TagValue T
  initial_value TagDataType.bool now = TagValue.bool false
  initial_value TagDataType.int16 now = TagValue.int16 0
  initial_value TagDataType.uint16 now = TagValue.uint16 0
  initial_value TagDataType.int32 now = TagValue.int32 0
  initial_value TagDataType.uint32 now = TagValue.uint32 0
  initial_value TagDataType.int64 now = TagValue.int64 0
  initial_value TagDataType.uint64 now = TagValue.uint64 0
  initial_value TagDataType.float now = TagValue.float 0
  initial_value TagDataType.double now = TagValue.double 0
  initial_value TagDataType.date_time now = TagValue.date_time now
  initial_value TagDataType.byte_string now = TagValue.byte_string []
  initial_value TagDataType.string now = TagValue.string []

  -- Its loop over the sorted definitions; `n` counts the readings of the clock.
  unfoldable pub populate : (ℕ → T) → ℕ → List TagDefinition → Inner T → Inner T
  populate clock n [] s = s
  populate clock n (d ∷ ds) s =
      populate clock (n + 2) ds
        (insert_tag d.id (new_tag (initial_value d.data_type (clock n)) (clock (n + 1))) s)

  -- `TagRegistry::from_definitions`
  unfoldable pub from_definitions_at :
      (ℕ → T) → List TagDefinition → Outcome CoreError (TagRegistry T)
  from_definitions_at clock defs = from_definitions defs >>= λ m.
      ok (record { definitions = m; tags = populate clock 0 (all_definitions_sorted m) (empty T) })

  -- `TagRegistry::get_tag`
  abbrev pub get_tag : TagRegistry T → Str → Outcome CoreError (Tag T)
  get_tag r id = TagStore.get id r.tags

  -- `TagRegistry::get_definition`
  abbrev pub get_definition : TagRegistry T → Str → Outcome CoreError TagDefinition
  get_definition r id = DefinitionStore.get_definition r.definitions id

  abbrev pub with_tags {ℓ} : {A : Type ℓ} → TagRegistry T → A × Inner T → A × TagRegistry T
  with_tags r (a, s) = (a, record r { tags = s })

  abbrev pub update_known :
      Outcome CoreError TagDefinition
      → Str
      → TagValue T
      → TagQuality
      → T
      → T
      → TagRegistry T
      → Outcome CoreError (Tag T) × TagRegistry T
  update_known (err e) id value quality source_ts now r = (err e, r)
  update_known (ok d) id value quality source_ts now r =
      with_tags r (update_value_with_expected id value quality source_ts d.data_type now r.tags)

  -- `TagRegistry::update_tag_value`
  unfoldable pub update_tag_value :
      Str
      → TagValue T
      → TagQuality
      → T
      → T
      → TagRegistry T
      → Outcome CoreError (Tag T) × TagRegistry T
  update_tag_value id value quality source_ts now r =
      update_known (get_definition r id) id value quality source_ts now r

  -- `TagRegistry::set_tag_quality`
  unfoldable pub set_tag_quality :
      Str → TagQuality → T → TagRegistry T → Outcome CoreError (Unit {0}) × TagRegistry T
  set_tag_quality id quality now r = with_tags r (TagStore.set_tag_quality id quality now r.tags)

  -- `TagRegistry::list_ids_sorted`
  abbrev pub list_ids_sorted : TagRegistry T → List Str
  list_ids_sorted r = TagStore.list_ids_sorted r.tags
