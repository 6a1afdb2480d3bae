-- ===== src/Modbus/Validate/Disjoint.antt =====
-- What `validate` (driver/modbus/src/driver.rs) accepts.
use opcua_plc_bridge.Base.{
  ℕ, ◌+◌, ◌^◌, ◌≤◌, ◌<◌, ◌≡◌, refl, ◌↔◌, ◌⊎◌, inl, inr, Bool, true, false, ◌&&◌, List, [], ◌∷◌, All,
  ltb, ok, arith, Bool-cases,
}
use opcua_plc_bridge.Core.TagValue.{TagDataType}
use opcua_plc_bridge.Modbus.Mapping.{
  ModbusFunction, ModbusMapping, coils, discrete_inputs, input_registers,
}
use opcua_plc_bridge.Modbus.Validate.{
  check_mapping, check_mappings, check_neighbours, check_functions, functions, swaps_words,
  validate,
}
use opcua_plc_bridge.Modbus.Validate.Sorting.{same_function, with_function, address_of}
use opcua_plc_bridge.Driver.Sorting.{
  AllPairs, sort_by_key, IsSorted, All-sort_by_key, sort_by_key-IsSorted, sort-AllPairs,
}

-- The registers that a data type needs, as far as `validate` knows.
abbrev pub min_quantity : TagDataType → ℕ
min_quantity TagDataType.float = 2
min_quantity TagDataType.int32 = 2
min_quantity TagDataType.uint32 = 2
min_quantity TagDataType.double = 4
min_quantity _ = 1

abbrev pub is_read_only : ModbusFunction → Bool
is_read_only input_registers = true
is_read_only discrete_inputs = true
is_read_only _ = false

pub record IsAcceptable (m : ModbusMapping) : Type 0 where
  pub sized : min_quantity m.data_type ≤ m.quantity
  pub bit : m.bit_offset < 16
  pub write : (is_read_only m.function && m.writable) ≡ false
  pub order : (swaps_words m.byte_order && ltb m.quantity 2) ≡ false

-- The checks of one mapping pass exactly when it has the registers that its type needs, a bit
-- offset below 16, no write through a read-only function, and two registers where words are swapped.
pub check_mapping_iff : (m : ModbusMapping) → (check_mapping m ≡ ok tt) ↔ IsAcceptable m
unfolding check_mapping
check_mapping_iff m = (λ e. ground arith, λ h. ground arith)

-- No register belongs to both.
abbrev pub Disjoint : ModbusMapping → ModbusMapping → Type 0
Disjoint m n = (m.address + m.quantity ≤ n.address) ⊎ (n.address + n.quantity ≤ m.address)

Disjoint-symm : (m n : ModbusMapping) → Disjoint m n → Disjoint n m
Disjoint-symm m n (inl h) = inr h
Disjoint-symm m n (inr h) = inl h

-- The mapping ends below the last address, 65535.
abbrev pub EndsEarly : ModbusMapping → Type 0
EndsEarly m = (0 < m.quantity) × (m.address + m.quantity < 2 ^ 16)

All-before :
    (cur next : ModbusMapping) (ms : List ModbusMapping)
    → cur.address + cur.quantity ≤ next.address
    → All (λ x. next.address ≤ x.address) ms
    → All (Disjoint cur) ms
All-before cur next [] h k = tt
All-before cur next (x ∷ ms) h k = (inl (omega arith), All-before cur next ms h k.1)

neighbours-AllPairs :
    (xs : List ModbusMapping)
    → check_neighbours xs ≡ ok tt
    → IsSorted address_of xs
    → All EndsEarly xs
    → AllPairs Disjoint xs
unfolding check_neighbours
neighbours-AllPairs [] e s h = tt
neighbours-AllPairs (m ∷ []) e s h = (tt, tt)
neighbours-AllPairs (cur ∷ next ∷ ms) e s h =
    let gap : cur.address + cur.quantity ≤ next.address = ground arith in
    let rest : check_neighbours (next ∷ ms) ≡ ok tt = ground arith in
    ((inl gap, All-before cur next ms gap s.1.0), neighbours-AllPairs (next ∷ ms) rest s.1 h.1)

pub All-with_function :
    (P : ModbusMapping → Type 0) (f : ModbusFunction) (ms : List ModbusMapping)
    → All P ms
    → All P (with_function f ms)
unfolding with_function
All-with_function P f [] h = tt
All-with_function P f (m ∷ ms) h = elim (Bool-cases (same_function m.function f)) [
  | inl same ↦ rw same (h.0, All-with_function P f ms h.1)
  | inr other ↦ rw other (All-with_function P f ms h.1)
]

checked_function :
    (ms : List ModbusMapping) (f : ModbusFunction)
    → validate ms ≡ ok tt
    → check_neighbours (sort_by_key address_of (with_function f ms)) ≡ ok tt
unfolding validate check_functions
checked_function ms coils e = ground arith
checked_function ms _ e = ground arith

checked_mappings : (ms : List ModbusMapping) → check_mappings ms ≡ ok tt → All IsAcceptable ms
unfolding check_mappings
checked_mappings [] e = tt
checked_mappings (m ∷ ms) e =
    ((check_mapping_iff m).0 (ground arith), checked_mappings ms (ground arith))

-- Where `validate` accepts a configuration whose mappings have a register each and end before
-- register 65535, every mapping passes the checks of one mapping, and no two mappings of one
-- function, neighbours in the configuration or not, share a register.
pub validate_sound :
    (ms : List ModbusMapping) (f : ModbusFunction)
    → All EndsEarly ms
    → validate ms ≡ ok tt
    → All IsAcceptable ms × AllPairs Disjoint (with_function f ms)
validate_sound ms f early e =
    let xs : List ModbusMapping = with_function f ms in
    (
      checked_mappings ms (unfold validate in ground arith),
      sort-AllPairs address_of Disjoint Disjoint-symm xs (
          neighbours-AllPairs (sort_by_key address_of xs) (checked_function ms f e)
            (sort_by_key-IsSorted address_of xs)
            (All-sort_by_key address_of EndsEarly xs (All-with_function EndsEarly f ms early))),
    )

AtLast : ModbusMapping → Type 0
AtLast m = m.address ≡ 65535

last_neighbours : (xs : List ModbusMapping) → All AtLast xs → check_neighbours xs ≡ ok tt
unfolding check_neighbours AtLast
last_neighbours [] h = refl
last_neighbours (m ∷ []) h = refl
last_neighbours (cur ∷ next ∷ ms) h = ground (arith, last_neighbours (next ∷ ms) h.1)

last_functions :
    (ms : List ModbusMapping) (fs : List ModbusFunction)
    → All AtLast ms
    → check_functions ms fs ≡ ok tt
unfolding check_functions
last_functions ms [] h = refl
last_functions ms (f ∷ fs) h =
    let xs : List ModbusMapping = with_function f ms in
    rw
      (last_neighbours (sort_by_key address_of xs)
        (All-sort_by_key address_of AtLast xs (All-with_function AtLast f ms h)))
      (last_functions ms fs h)

acceptable_mappings : (ms : List ModbusMapping) → All IsAcceptable ms → check_mappings ms ≡ ok tt
unfolding check_mappings
acceptable_mappings [] h = refl
acceptable_mappings (m ∷ ms) h = rw ((check_mapping_iff m).1 h.0) (acceptable_mappings ms h.1)

-- At register 65535 `validate` sees no overlap: any number of mappings that start there and each
-- pass the checks of one mapping are accepted together, whatever their functions.
pub validate_last_register :
    (ms : List ModbusMapping)
    → All IsAcceptable ms
    → All (λ m. m.address ≡ 65535) ms
    → validate ms ≡ ok tt
unfolding validate AtLast
validate_last_register ms h last = rw (acceptable_mappings ms h) (last_functions ms functions last)
