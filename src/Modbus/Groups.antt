-- ===== src/Modbus/Groups.antt =====
-- driver/modbus/src/driver.rs: how a read cycle groups the mappings of one function. Addresses are
-- `u16`, whose arithmetic wraps in a release build.
pub mod Cover
pub mod Complete
use opcua_plc_bridge.Base.{
  ℕ, ◌+◌, ◌-◌, ◌%◌, ◌^◌, max, Bool, true, false, List, [], ◌∷◌, ◌++◌, leb, if◌then◌else◌,
}
use opcua_plc_bridge.Modbus.Mapping.{ModbusFunction, ModbusMapping}
use opcua_plc_bridge.Modbus.Validate.Sorting.{with_function, address_of}
use opcua_plc_bridge.Driver.Sorting.{sort_by_key}

-- `(start_addr, quantity, mappings)`
pub record Group : Type 0 where
  pub start : ℕ
  pub quantity : ℕ
  pub members : List ModbusMapping

abbrev pub add16 : ℕ → ℕ → ℕ
add16 a b = (a + b) % 2 ^ 16

abbrev pub sub16 : ℕ → ℕ → ℕ
sub16 a b = (a + 2 ^ 16 - b) % 2 ^ 16

-- `start.wrapping_add(*qty).wrapping_sub(1)`, and the end of a mapping.
abbrev pub end16 : ℕ → ℕ → ℕ
end16 start qty = sub16 (add16 start qty) 1

abbrev pub single : ModbusMapping → Group
single m = record { start = m.address; quantity = m.quantity; members = m ∷ [] }

-- A group with a mapping that starts inside it or directly behind it.
unfoldable pub extend : Group → ModbusMapping → Group
extend g m = record g {
  quantity = add16 (sub16 (max (end16 g.start g.quantity) (end16 m.address m.quantity)) g.start) 1;
  members = g.members ++ (m ∷ []);
}

-- `m.address <= end.wrapping_add(1)`
abbrev pub joins : Group → ModbusMapping → Bool
joins g m = leb m.address (add16 (end16 g.start g.quantity) 1)

-- The loop over the sorted mappings; `last` is `groups.last_mut()`.
unfoldable pub group_from : Group → List ModbusMapping → List Group
unfolding extend
group_from last [] = last ∷ []
group_from last (m ∷ ms) =
    let joined = group_from (extend last m) ms in
    let apart = group_from (single m) ms in if joins last m then joined else last ∷ apart

abbrev group_all : List ModbusMapping → List Group
group_all [] = []
group_all (m ∷ ms) = group_from (single m) ms

-- The groups of one function of the configuration.
unfoldable pub groups_of : ModbusFunction → List ModbusMapping → List Group
unfolding group_from sort_by_key with_function
groups_of f ms = group_all (sort_by_key address_of (with_function f ms))
