-- ===== src/Fins/Validate.antt =====
-- driver/fins/src/driver.rs: the checks of `ProtocolDriver::validate`. An error is the constructor
-- that stands for its message. The map by area is walked in the order of the areas, where Rust's
-- `HashMap` has an arbitrary one: it decides which of several overlaps is reported.
pub mod Disjoint
use opcua_plc_bridge.Base.{
  ℕ, ◌+◌, ◌-◌, ◌^◌, min, Bool, true, false, ◌&&◌, List, [], ◌∷◌, leb, ltb, ◌==◌, if◌then◌else◌,
  Outcome, ok, err, ◌>>◌, ◌>>=◌, fail_if,
}
use opcua_plc_bridge.Core.TagValue.{TagDataType}
use opcua_plc_bridge.Driver.Sorting.{sort_by_key}
use opcua_plc_bridge.Modbus.Validate.{swaps_words}
use opcua_plc_bridge.Fins.Mapping.{TagMapping, address_of}
use opcua_plc_bridge.Fins.Areas.{by_area}

pub data MappingError : Type 0 where
  zero_word_count invalid_bit_offset requires_two requires_four order_requires_two :
      TagMapping → MappingError
  overlapping : TagMapping → TagMapping → MappingError

-- The match on the data type.
unfoldable pub check_word_count : TagMapping → TagDataType → Outcome MappingError (Unit {0})
check_word_count m TagDataType.float = fail_if (ltb m.word_count 2) (requires_two m)
check_word_count m TagDataType.int32 = fail_if (ltb m.word_count 2) (requires_two m)
check_word_count m TagDataType.uint32 = fail_if (ltb m.word_count 2) (requires_two m)
check_word_count m TagDataType.double = fail_if (ltb m.word_count 4) (requires_four m)
check_word_count m _ = ok tt

-- The body of the loop over the mappings.
unfoldable pub check_mapping : TagMapping → Outcome MappingError (Unit {0})
unfolding check_word_count
check_mapping m = do
  fail_if (m.word_count == 0) (zero_word_count m)
  fail_if (leb 16 m.bit_offset) (invalid_bit_offset m)
  check_word_count m m.data_type
  fail_if (swaps_words m.byte_order && ltb m.word_count 2) (order_requires_two m)

unfoldable pub check_mappings : List TagMapping → Outcome MappingError (Unit {0})
check_mappings [] = ok tt
check_mappings (m ∷ ms) = let rest = check_mappings ms in check_mapping m >> rest

-- `cur.address.saturating_add(cur.word_count as u32).saturating_sub(1)`
unfoldable pub last_address : TagMapping → ℕ
last_address m = min (m.address + m.word_count) (2 ^ 32 - 1) - 1

-- The loop over neighbours of a sorted list.
unfoldable pub check_neighbours : List TagMapping → Outcome MappingError (Unit {0})
unfolding last_address
check_neighbours (cur ∷ next ∷ ms) =
    let rest = check_neighbours (next ∷ ms) in
    if leb next.address (last_address cur) then err (overlapping cur next) else rest
check_neighbours _ = ok tt

unfoldable pub check_areas : List (ℕ × List TagMapping) → Outcome MappingError (Unit {0})
check_areas [] = ok tt
check_areas ((area, ms) ∷ entries) =
    let rest = check_areas entries in check_neighbours (sort_by_key address_of ms) >> rest

-- `FinsDriver::validate`
unfoldable pub validate : List TagMapping → Outcome MappingError (Unit {0})
validate ms = do check_mappings ms; check_areas (by_area ms [])
