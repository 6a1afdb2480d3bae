-- ===== src/Tests/Plan.antt =====
-- The theorems on the plan of a read and on values, of driver/modbus/src, at concrete data.
use opcua_plc_bridge.Base.{ℕ, ◌≡◌, refl, true, List, [], ◌∷◌, ok, All, arith}
use opcua_plc_bridge.Core.TagValue.{TagDataType, data_type}
use opcua_plc_bridge.Core.WordOrder.{WordOrder, apply_to_bytes}
use opcua_plc_bridge.Driver.Words.{registers_to_bytes, ordered_words}
use opcua_plc_bridge.Modbus.Mapping.{ModbusMapping, coils, holding_registers}
use opcua_plc_bridge.Modbus.Codec.{tagvalue_to_registers, decode_bytes_to_tagvalue}
use opcua_plc_bridge.Modbus.Codec.RoundTrip.{write_then_read}
use opcua_plc_bridge.Modbus.Validate.{
  check_neighbours, check_functions, check_mappings, check_mapping, validate,
}
use opcua_plc_bridge.Modbus.Validate.Sorting.{same_function, with_function, address_of}
use opcua_plc_bridge.Driver.Sorting.{sort_by_key, AllPairs}
use opcua_plc_bridge.Modbus.Validate.Disjoint.{
  IsAcceptable, Disjoint, EndsEarly, validate_sound, validate_last_register,
}
use opcua_plc_bridge.Modbus.Groups.{Group, groups_of}
use opcua_plc_bridge.Modbus.Groups.Cover.{IsCovering}
use opcua_plc_bridge.Modbus.Groups.Complete.{AreApart, members_of, groups_of_complete}
use opcua_plc_bridge.Modbus.Chunks.{chunks_of, part_of, short, pack_bits}
use opcua_plc_bridge.Modbus.Chunks.Tiles.{Tiles, chunks_of-Tiles}
use opcua_plc_bridge.Modbus.Chunks.Parts.{coils_short}
use opcua_plc_bridge.Tests.Data.{mappings, temp_chunk, large, chrono, speed, temp_mapping}

write_then_read_example :
    (ws : List ℕ) × (tagvalue_to_registers chrono large ≡ ok ws)
    × (decode_bytes_to_tagvalue chrono
          (data_type large)
          (apply_to_bytes WordOrder.cdab (registers_to_bytes (ordered_words WordOrder.cdab ws)))
          0
        ≡ ok large)
write_then_read_example = write_then_read chrono large WordOrder.cdab (omega arith)

mappings_valid : validate mappings ≡ ok tt
unfolding validate check_mappings check_mapping check_functions check_neighbours sort_by_key
    with_function same_function
mappings_valid = refl

mappings_early : All EndsEarly mappings
mappings_early = ((omega arith, omega arith), ((omega arith, omega arith), tt))

validate_sound_example :
    All IsAcceptable mappings × AllPairs Disjoint (with_function holding_registers mappings)
validate_sound_example = validate_sound mappings holding_registers mappings_early mappings_valid

-- Two mappings of the last register.
abbrev last_mappings : List ModbusMapping
last_mappings =
    record temp_mapping { address = 65535 }
    ∷ record temp_mapping { address = 65535; tag_id = speed }
    ∷ []

last-IsAcceptable : All IsAcceptable last_mappings
last-IsAcceptable = (
  record { sized = omega arith; bit = omega arith; write = refl; order = refl },
  (record { sized = omega arith; bit = omega arith; write = refl; order = refl }, tt),
)

validate_last_register_example : validate last_mappings ≡ ok tt
validate_last_register_example =
    validate_last_register last_mappings last-IsAcceptable (refl, (refl, tt))

groups_of_complete_example :
    All IsCovering (groups_of holding_registers mappings)
    × AreApart (groups_of holding_registers mappings)
    × (members_of (groups_of holding_registers mappings)
        ≡ sort_by_key address_of (with_function holding_registers mappings))
groups_of_complete_example = groups_of_complete holding_registers mappings mappings_early

-- A group of 300 registers, read in three chunks.
abbrev long_group : Group
long_group = record { start = 100; quantity = 300; members = temp_mapping ∷ [] }

long-IsCovering : IsCovering long_group
long-IsCovering = record {
  filled = omega arith;
  bounded = omega arith;
  inside = ((omega arith, omega arith), tt);
}

chunks_of-Tiles_example : Tiles 125 100 400 (chunks_of holding_registers long_group)
chunks_of-Tiles_example = chunks_of-Tiles holding_registers long_group long-IsCovering

-- Three coils, of which the mapping is the third.
abbrev coil_mapping : ModbusMapping
coil_mapping = record temp_mapping { function = coils; address = 102; data_type = TagDataType.bool }

coils_short_example :
    part_of (registers_to_bytes (pack_bits 3 (true ∷ true ∷ true ∷ []))) temp_chunk coil_mapping
    ≡ short
coils_short_example =
    coils_short temp_chunk coil_mapping (true ∷ true ∷ true ∷ []) (omega arith, omega arith) refl
      (omega arith) (omega arith) (omega arith)
