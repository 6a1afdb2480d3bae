-- ===== src/Fins/Areas.antt =====
-- driver/fins/src/driver.rs: the map from memory areas to mappings.
pub mod Entries
use opcua_plc_bridge.Base.{ℕ, List, [], ◌∷◌, ◌++◌, ltb, ◌==◌, if◌then◌else◌}
use opcua_plc_bridge.Fins.Mapping.{TagMapping}

-- `by_area.entry(m.area).or_default().push(m.clone())`, on a `BTreeMap`, whose keys ascend.
unfoldable pub push_entry : TagMapping → List (ℕ × List TagMapping) → List (ℕ × List TagMapping)
push_entry m [] = (m.area, m ∷ []) ∷ []
push_entry m ((area, ms) ∷ rest) =
    let later = push_entry m rest in
    if m.area == area
    then (area, ms ++ (m ∷ [])) ∷ rest
    else if ltb m.area area
    then (m.area, m ∷ []) ∷ (area, ms) ∷ rest
    else (area, ms) ∷ later

unfoldable pub by_area : List TagMapping → List (ℕ × List TagMapping) → List (ℕ × List TagMapping)
unfolding push_entry
by_area [] entries = entries
by_area (m ∷ ms) entries = by_area ms (push_entry m entries)
