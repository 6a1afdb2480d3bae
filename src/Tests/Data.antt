-- ===== src/Tests/Data.antt =====
-- The data of the tests: two tags of one device, `temp` of 16 bits and `speed` of 32. A time is the
-- number of a reading of the clock.
use opcua_plc_bridge.Core.DefinitionStore.{all_definitions_sorted, from_definitions}
use opcua_plc_bridge.Base.{
  str_lt, str_eq, insert, lookup, is_blank, ℕ, true, List, [], ◌∷◌, Str, codes, none, some, ◌≡◌,
  refl, ok,
}
use opcua_plc_bridge.Core.TagValue.{TagValue, TagDataType}
use opcua_plc_bridge.Core.WordOrder.{WordOrder}
use opcua_plc_bridge.Core.TagDefinition.{validate, TagDefinition}
use opcua_plc_bridge.Core.Tag.{new_tag}
use opcua_plc_bridge.Core.TagStore.{Inner, empty, insert_tag}
use opcua_plc_bridge.Core.TagStore.Invariant.{IsWellFormed, empty-IsWellFormed}
use opcua_plc_bridge.Core.TagStore.Kept.{insert_tag-IsWellFormed}
use opcua_plc_bridge.Core.Registry.{TagRegistry, from_definitions_at, populate}
use opcua_plc_bridge.Core.Registry.Typed.{IsTyped}
use opcua_plc_bridge.Core.Registry.Built.{from_definitions-IsTyped}
use opcua_plc_bridge.Driver.Chrono.{Chrono}
use opcua_plc_bridge.Modbus.Chunks.{Chunk}
use opcua_plc_bridge.Modbus.Mapping.{ModbusMapping, holding_registers}

abbrev pub chrono : Chrono ℕ
chrono = record {
  timestamp_millis = λ t. t;
  from_timestamp_millis = λ n. some n;
  parse_from_rfc3339 = λ s. none;
  unix_epoch = 0;
}

abbrev pub clock : ℕ → ℕ
clock n = n

abbrev pub temp : Str
temp = codes "temp"

abbrev pub speed : Str
speed = codes "speed"

abbrev pub temp_definition : TagDefinition
temp_definition = record {
  id = temp;
  name = temp;
  address = codes "100";
  data_type = TagDataType.uint16;
  writable = true;
  byte_order = WordOrder.abcd;
  stale_after_ms = none;
  plc_name = codes "plc";
}

abbrev pub speed_definition : TagDefinition
speed_definition = record temp_definition { id = speed; data_type = TagDataType.uint32 }

abbrev pub definitions : List TagDefinition
definitions = temp_definition ∷ speed_definition ∷ []

abbrev pub temp_store : Inner ℕ
temp_store = insert_tag temp (new_tag (TagValue.uint16 7) 1) (empty ℕ)

pub temp_store-IsWellFormed : IsWellFormed temp_store
temp_store-IsWellFormed =
    insert_tag-IsWellFormed temp (new_tag (TagValue.uint16 7) 1) (empty ℕ) empty-IsWellFormed

abbrev pub registry : TagRegistry ℕ
registry = record {
  definitions = (temp, temp_definition) ∷ (speed, speed_definition) ∷ [];
  tags = populate clock 0 (speed_definition ∷ temp_definition ∷ []) (empty ℕ);
}

pub registry_built : from_definitions_at clock definitions ≡ ok registry
unfolding from_definitions_at from_definitions validate is_blank lookup insert str_eq
    all_definitions_sorted str_lt
registry_built = refl

pub registry-IsTyped : IsTyped registry
registry-IsTyped = from_definitions-IsTyped clock definitions registry registry_built

abbrev pub temp_mapping : ModbusMapping
temp_mapping = record {
  tag_id = temp;
  data_type = TagDataType.uint16;
  address = 100;
  quantity = 1;
  function = holding_registers;
  bit_offset = 0;
  writable = true;
  byte_order = WordOrder.abcd;
}

abbrev pub speed_mapping : ModbusMapping
speed_mapping = record temp_mapping {
  tag_id = speed;
  data_type = TagDataType.uint32;
  address = 101;
  quantity = 2;
  byte_order = WordOrder.cdab;
}

abbrev pub mappings : List ModbusMapping
mappings = speed_mapping ∷ temp_mapping ∷ []

abbrev pub large : TagValue ℕ
large = TagValue.uint32 70000

abbrev pub temp_chunk : Chunk
temp_chunk = record { start = 100; quantity = 3 }
