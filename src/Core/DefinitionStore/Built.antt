-- ===== src/Core/DefinitionStore/Built.antt =====
-- What the definition store holds (core-model/src/tag_definition_store.rs) against the list of
-- definitions that it was built from.
use opcua_plc_bridge.Base.{
  ◌≡◌, refl, ◌↔◌, List, [], ◌∷◌, Option, none, some, Str, str_eq, str_eq_iff, lookup, insert,
  lookup-insert, ok, if◌then◌else◌, All, arith, Option-cases,
}
use opcua_plc_bridge.Core.TagDefinition.{TagDefinition, validate}
use opcua_plc_bridge.Core.DefinitionStore.{Definitions, add_definitions, from_definitions}

-- The first definition of an id.
unfoldable pub find : Str → List TagDefinition → Option TagDefinition
find id [] = none
find id (d ∷ ds) = if str_eq d.id id then some d else find id ds

abbrev pub IsValid : TagDefinition → Type 0
IsValid d = validate d ≡ ok tt

-- No id is defined twice.
abbrev pub Distinct : List TagDefinition → Type 0
Distinct [] = Unit {0}
Distinct (d ∷ ds) = (find d.id ds ≡ none) × Distinct ds

-- The map, and behind it the definitions that are still to be added.
abbrev both : Option TagDefinition → Option TagDefinition → Option TagDefinition
both (some d) o = some d
both none o = o

abbrev Fresh : Definitions → List TagDefinition → Type 0
Fresh m [] = Unit {0}
Fresh m (d ∷ ds) = (lookup d.id m ≡ none) × Fresh m ds

lookup-add_definitions :
    (ds : List TagDefinition) (m r : Definitions) (id : Str)
    → add_definitions m ds ≡ ok r
    → lookup id r ≡ both (lookup id m) (find id ds)
unfolding add_definitions find
lookup-add_definitions [] m r id e = ground arith
lookup-add_definitions (d ∷ ds) m r id e = ground (
  arith,
  str_eq_iff d.id id,
  lookup-insert d.id id d m,
  lookup-add_definitions ds (insert d.id d m) r id,
)

-- Once the map is built, a lookup finds the definition with that id in the list, or nothing where
-- the list has none.
pub lookup-from_definitions :
    (ds : List TagDefinition) (r : Definitions) (id : Str)
    → from_definitions ds ≡ ok r
    → lookup id r ≡ find id ds
unfolding from_definitions lookup
lookup-from_definitions ds r id e = lookup-add_definitions ds [] r id e

Fresh-insert :
    (d : TagDefinition) (m : Definitions) (ds : List TagDefinition)
    → (find d.id ds ≡ none) × Fresh m ds ↔ Fresh (insert d.id d m) ds
unfolding find
Fresh-insert d m [] = (λ h. tt, λ h. (refl, tt))
Fresh-insert d m (x ∷ xs) = ground (
  arith,
  str_eq_iff d.id x.id,
  str_eq_iff x.id d.id,
  lookup-insert d.id x.id d m,
  Fresh-insert d m xs,
)

add_sound :
    (ds : List TagDefinition) (m r : Definitions)
    → add_definitions m ds ≡ ok r
    → All IsValid ds × Distinct ds × Fresh m ds
unfolding add_definitions
add_sound [] m r e = (tt, tt, tt)
add_sound (d ∷ ds) m r e =
    ground
      (arith, add_sound ds (insert d.id d m) r, Fresh-insert d m ds, Option-cases (lookup d.id m))

add_complete :
    (ds : List TagDefinition) (m : Definitions)
    → All IsValid ds
    → Distinct ds
    → Fresh m ds
    → (r : Definitions) × (add_definitions m ds ≡ ok r)
unfolding add_definitions
add_complete [] m v u f = (m, refl)
add_complete (d ∷ ds) m v u f =
    let (r, e) = add_complete ds (insert d.id d m) v.1 u.1 ((Fresh-insert d m ds).0 (u.0, f.1)) in
    (r, rw (v.0, f.0) e)

-- `from_definitions` succeeds exactly when every definition is valid and no id is defined twice.
pub from_definitions_iff :
    (ds : List TagDefinition)
    → ((r : Definitions) × (from_definitions ds ≡ ok r)) ↔ All IsValid ds × Distinct ds
unfolding from_definitions lookup
from_definitions_iff ds = (
  λ p. let (v, u, f) = add_sound ds [] p.0 p.1 in (v, u),
  λ p. add_complete ds [] p.0 p.1 (empty-Fresh ds),
)
  where
    empty-Fresh : (xs : List TagDefinition) → Fresh [] xs
    empty-Fresh [] = tt
    empty-Fresh (x ∷ xs) = (refl, empty-Fresh xs)
