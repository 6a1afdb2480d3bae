-- ===== src/Core/DefinitionStore.antt =====
-- core-model/src/tag_definition_store.rs: the map of validated definitions.
pub mod Built
pub mod Sorted
use opcua_plc_bridge.Base.{
  Bool, true, false, List, [], ◌∷◌, ◌++◌, Option, none, some, Str, codes, str_lt, lookup, insert,
  is_some, Outcome, ok, err, ◌>>=◌, ◌>>◌, fail_if, if◌then◌else◌,
}
use opcua_plc_bridge.Core.Error.{CoreError, invalid_config, definition_not_found}
use opcua_plc_bridge.Core.TagDefinition.{TagDefinition, validate}

abbrev pub Definitions : Type 0
Definitions = List (Str × TagDefinition)

abbrev pub duplicate : TagDefinition → CoreError
duplicate d = invalid_config (codes "Duplicate TagDefinition id: " ++ d.id)

-- The loop of `from_definitions`.
unfoldable pub add_definitions : Definitions → List TagDefinition → Outcome CoreError Definitions
add_definitions m [] = ok m
add_definitions m (d ∷ ds) =
    let rest = add_definitions (insert d.id d m) ds in
    validate d >>= λ _. if is_some (lookup d.id m) then err (duplicate d) else rest

-- `TagDefinitionStore::from_definitions`
unfoldable pub from_definitions : List TagDefinition → Outcome CoreError Definitions
unfolding add_definitions
from_definitions defs = add_definitions [] defs

abbrev found : Str → Option TagDefinition → Outcome CoreError TagDefinition
found id none = err (definition_not_found id)
found id (some d) = ok d

-- `TagDefinitionStore::get`
unfoldable pub get_definition : Definitions → Str → Outcome CoreError TagDefinition
get_definition m id = found id (lookup id m)

-- `TagDefinitionStore::contains`
abbrev pub contains_definition : Definitions → Str → Bool
contains_definition m id = is_some (lookup id m)

unfoldable pub insert_sorted : TagDefinition → List TagDefinition → List TagDefinition
insert_sorted d [] = d ∷ []
insert_sorted d (x ∷ xs) =
    let rest = insert_sorted d xs in if str_lt x.id d.id then x ∷ rest else d ∷ x ∷ xs

-- `TagDefinitionStore::all_definitions_sorted`
unfoldable pub all_definitions_sorted : Definitions → List TagDefinition
unfolding insert_sorted
all_definitions_sorted [] = []
all_definitions_sorted ((k, d) ∷ m) = insert_sorted d (all_definitions_sorted m)
