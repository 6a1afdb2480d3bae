-- ===== src/Core/DefinitionStore/Sorted.antt =====
-- The sorted list of definitions (core-model/src/tag_definition_store.rs) against the map.
use opcua_plc_bridge.Base.{
  ◌≡◌, refl, subst, List, [], ◌∷◌, none, some, Str, str_eq, str_eq_iff, str_lt_irrefl, lookup,
  insert, lookup-insert, ok, if◌then◌else◌, arith,
}
use opcua_plc_bridge.Core.TagDefinition.{TagDefinition}
use opcua_plc_bridge.Core.DefinitionStore.{
  Definitions, add_definitions, from_definitions, insert_sorted, all_definitions_sorted,
}
use opcua_plc_bridge.Core.DefinitionStore.Built.{find, Distinct}

-- The key of every entry is the id of its definition.
abbrev pub KeysMatch : Definitions → Type 0
KeysMatch [] = Unit {0}
KeysMatch ((k, d) ∷ m) = (k ≡ d.id) × KeysMatch m

insert-KeysMatch : (d : TagDefinition) (m : Definitions) → KeysMatch m → KeysMatch (insert d.id d m)
unfolding insert
insert-KeysMatch d [] h = (refl, tt)
insert-KeysMatch d ((k, x) ∷ m) h = ground (arith, insert-KeysMatch d m h.1)

add-KeysMatch :
    (ds : List TagDefinition) (m r : Definitions)
    → add_definitions m ds ≡ ok r
    → KeysMatch m
    → KeysMatch r
unfolding add_definitions
add-KeysMatch [] m r e h = subst KeysMatch (cc) h
add-KeysMatch (d ∷ ds) m r e h =
    ground (arith, add-KeysMatch ds (insert d.id d m) r, insert-KeysMatch d m h)

pub from_definitions-KeysMatch :
    (ds : List TagDefinition) (r : Definitions) → from_definitions ds ≡ ok r → KeysMatch r
unfolding from_definitions
from_definitions-KeysMatch ds r e = add-KeysMatch ds [] r e tt

find-insert_sorted :
    (d : TagDefinition) (xs : List TagDefinition) (id : Str)
    → find id (insert_sorted d xs) ≡ (if str_eq d.id id then some d else find id xs)
unfolding find insert_sorted
find-insert_sorted d [] id = refl
find-insert_sorted d (x ∷ xs) id =
    ground
      (arith, find-insert_sorted d xs id, str_eq_iff d.id id, str_eq_iff x.id id, str_lt_irrefl id)

-- The sorted list has each definition of the map under its id.
pub find-all_definitions_sorted :
    (m : Definitions) (id : Str) → KeysMatch m → find id (all_definitions_sorted m) ≡ lookup id m
unfolding find lookup all_definitions_sorted
find-all_definitions_sorted [] id h = refl
find-all_definitions_sorted ((k, d) ∷ m) id h = ground (
  arith,
  find-insert_sorted d (all_definitions_sorted m) id,
  find-all_definitions_sorted m id h.1,
)

abbrev pub UniqueKeys : Definitions → Type 0
UniqueKeys [] = Unit {0}
UniqueKeys ((k, d) ∷ m) = (lookup k m ≡ none) × UniqueKeys m

insert-UniqueKeys :
    (d : TagDefinition) (m : Definitions) → UniqueKeys m → UniqueKeys (insert d.id d m)
unfolding insert lookup
insert-UniqueKeys d [] h = (refl, tt)
insert-UniqueKeys d ((k, x) ∷ m) h = ground (
  arith,
  str_eq_iff k d.id,
  str_eq_iff d.id k,
  insert-UniqueKeys d m h.1,
  lookup-insert d.id k d m,
)

add-UniqueKeys :
    (ds : List TagDefinition) (m r : Definitions)
    → add_definitions m ds ≡ ok r
    → UniqueKeys m
    → UniqueKeys r
unfolding add_definitions
add-UniqueKeys [] m r e h = subst UniqueKeys (cc) h
add-UniqueKeys (d ∷ ds) m r e h =
    ground (arith, add-UniqueKeys ds (insert d.id d m) r, insert-UniqueKeys d m h)

pub from_definitions-UniqueKeys :
    (ds : List TagDefinition) (r : Definitions) → from_definitions ds ≡ ok r → UniqueKeys r
unfolding from_definitions
from_definitions-UniqueKeys ds r e = add-UniqueKeys ds [] r e tt

Distinct-insert_sorted :
    (d : TagDefinition) (xs : List TagDefinition)
    → find d.id xs ≡ none
    → Distinct xs
    → Distinct (insert_sorted d xs)
unfolding find insert_sorted
Distinct-insert_sorted d [] h u = (refl, tt)
Distinct-insert_sorted d (x ∷ xs) h u = ground (
  arith,
  Distinct-insert_sorted d xs,
  find-insert_sorted d xs x.id,
  str_eq_iff x.id d.id,
  str_eq_iff d.id x.id,
)

pub Distinct-all_definitions_sorted :
    (m : Definitions) → KeysMatch m → UniqueKeys m → Distinct (all_definitions_sorted m)
unfolding all_definitions_sorted
Distinct-all_definitions_sorted [] h u = tt
Distinct-all_definitions_sorted ((k, d) ∷ m) h u =
    Distinct-insert_sorted d (all_definitions_sorted m)
      (ground (arith, find-all_definitions_sorted m d.id h.1))
      (Distinct-all_definitions_sorted m h.1 u.1)
