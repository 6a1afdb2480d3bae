-- ===== src/Modbus/Validate/Sorting.antt =====
-- The mappings of one function, and the key they are sorted by (driver/modbus/src/driver.rs).
use opcua_plc_bridge.Base.{ℕ, Bool, true, false, List, [], ◌∷◌, if◌then◌else◌}
use opcua_plc_bridge.Modbus.Mapping.{
  ModbusFunction, ModbusMapping, coils, discrete_inputs, holding_registers, input_registers,
}

-- The derived `PartialEq` of `ModbusFunction`.
unfoldable pub same_function : ModbusFunction → ModbusFunction → Bool
same_function coils coils = true
same_function discrete_inputs discrete_inputs = true
same_function holding_registers holding_registers = true
same_function input_registers input_registers = true
same_function _ _ = false

-- The entry of `by_func` for a function, in the order of the configuration.
unfoldable pub with_function : ModbusFunction → List ModbusMapping → List ModbusMapping
with_function f [] = []
with_function f (m ∷ ms) =
    let rest = with_function f ms in if same_function m.function f then m ∷ rest else rest

-- The key of `sort_by_key(|m| m.address)`.
abbrev pub address_of : ModbusMapping → ℕ
address_of m = m.address
