-- ===== src/Modbus/Validate.antt =====
-- driver/modbus/src/driver.rs: the checks of `ProtocolDriver::validate`. An error is the
-- constructor that stands for its message. The map by function is walked in one fixed order, where
-- Rust's `HashMap` has an arbitrary one: it decides which of several overlaps is reported.
pub mod Sorting
pub mod Disjoint
use opcua_plc_bridge.Base.{
  ℕ, ◌+◌, ◌-◌, ◌^◌, min, Bool, true, false, ◌&&◌, ◌||◌, List, [], ◌∷◌, Str, leb, ltb, ◌==◌,
  if◌then◌else◌, Outcome, ok, err, ◌>>◌, ◌>>=◌, fail_if,
}
use opcua_plc_bridge.Core.TagValue.{TagDataType}
use opcua_plc_bridge.Core.WordOrder.{WordOrder, cdab, dcba}
use opcua_plc_bridge.Modbus.Mapping.{
  ModbusFunction, ModbusMapping, coils, discrete_inputs, holding_registers, input_registers,
}
use Sorting.{address_of, with_function}
use opcua_plc_bridge.Driver.Sorting.{sort_by_key}

pub data MappingError : Type 0 where
  zero_quantity invalid_bit_offset requires_two requires_four read_only order_requires_two :
      ModbusMapping → MappingError
  overlapping : ModbusMapping → ModbusMapping → MappingError

-- The match on the data type.
unfoldable pub check_quantity : ModbusMapping → TagDataType → Outcome MappingError (Unit {0})
check_quantity m TagDataType.float = fail_if (ltb m.quantity 2) (requires_two m)
check_quantity m TagDataType.int32 = fail_if (ltb m.quantity 2) (requires_two m)
check_quantity m TagDataType.uint32 = fail_if (ltb m.quantity 2) (requires_two m)
check_quantity m TagDataType.double = fail_if (ltb m.quantity 4) (requires_four m)
check_quantity m _ = ok tt

-- The match on the function.
unfoldable pub check_writable : ModbusMapping → ModbusFunction → Outcome MappingError (Unit {0})
check_writable m input_registers = fail_if m.writable (read_only m)
check_writable m discrete_inputs = fail_if m.writable (read_only m)
check_writable m _ = ok tt

abbrev pub swaps_words : WordOrder → Bool
swaps_words cdab = true
swaps_words dcba = true
swaps_words _ = false

-- The body of the loop over the mappings.
unfoldable pub check_mapping : ModbusMapping → Outcome MappingError (Unit {0})
unfolding check_quantity check_writable
check_mapping m = do
  fail_if (m.quantity == 0) (zero_quantity m)
  fail_if (leb 16 m.bit_offset) (invalid_bit_offset m)
  check_quantity m m.data_type
  check_writable m m.function
  fail_if (swaps_words m.byte_order && ltb m.quantity 2) (order_requires_two m)

unfoldable pub check_mappings : List ModbusMapping → Outcome MappingError (Unit {0})
check_mappings [] = ok tt
check_mappings (m ∷ ms) = let rest = check_mappings ms in check_mapping m >> rest

-- `cur.address.saturating_add(cur.quantity).saturating_sub(1)`
unfoldable pub last_address : ModbusMapping → ℕ
last_address m = min (m.address + m.quantity) (2 ^ 16 - 1) - 1

-- The loop over neighbours of a sorted list.
unfoldable pub check_neighbours : List ModbusMapping → Outcome MappingError (Unit {0})
unfolding last_address
check_neighbours (cur ∷ next ∷ ms) =
    let rest = check_neighbours (next ∷ ms) in
    if leb next.address (last_address cur) then err (overlapping cur next) else rest
check_neighbours _ = ok tt

unfoldable pub check_functions :
    List ModbusMapping → List ModbusFunction → Outcome MappingError (Unit {0})
check_functions ms [] = ok tt
check_functions ms (f ∷ fs) =
    let rest = check_functions ms fs in
    check_neighbours (sort_by_key address_of (with_function f ms)) >> rest

abbrev pub functions : List ModbusFunction
functions = coils ∷ discrete_inputs ∷ holding_registers ∷ input_registers ∷ []

-- `ModbusDriver::validate`
unfoldable pub validate : List ModbusMapping → Outcome MappingError (Unit {0})
validate ms = do check_mappings ms; check_functions ms functions
