-- ===== src/Tests/Runtime.antt =====
-- The theorems on runtime/src at concrete data.
use opcua_plc_bridge.Base.{
  insert, blank_step, ℕ, ◌^◌, ◌<◌, ◌≡◌, ◌↔◌, refl, List, [], ◌∷◌, Str, codes, str_eq, is_blank,
  none, some, is_some, true, false, ◌⊎◌, ◌≤◌, ok, lookup,
}
use opcua_plc_bridge.Core.TagValue.{TagValue, TagDataType}
use opcua_plc_bridge.Core.WordOrder.{WordOrder}
use opcua_plc_bridge.Core.TagDefinition.{new_definition, TagDefinition, validate}
use opcua_plc_bridge.Core.DefinitionStore.{Definitions, from_definitions}
use opcua_plc_bridge.Modbus.Mapping.{ModbusMapping, holding_registers}
use opcua_plc_bridge.Driver.Sorting.{sort_by_key}
use opcua_plc_bridge.Modbus.Validate
use opcua_plc_bridge.Modbus.Validate.Sorting.{same_function, with_function}
use opcua_plc_bridge.Server.Config.{WriteMode}
use opcua_plc_bridge.Server.DataSource.{write}
use opcua_plc_bridge.Server.Error.{DriverKind}
use opcua_plc_bridge.Server.Variant.{Ua, Variant}
use opcua_plc_bridge.Runtime.Config.{TagConfig, PlcConfig}
use opcua_plc_bridge.Runtime.Definitions.{all_definitions}
use opcua_plc_bridge.Runtime.Poller.{check_stale_tags}
use opcua_plc_bridge.Runtime.Poller.Stale.{configured_never_stale}
use opcua_plc_bridge.Runtime.Drivers.{
  Running, modbus_driver, mappings_of, add_routes, setup_modbus_driver, setup_driver, setup_drivers,
}
use opcua_plc_bridge.Runtime.Drivers.Served.{is_configured, AllServed, setup_drivers-AllServed}
use opcua_plc_bridge.Runtime.Tags.{
  default_function, check_words, parse_byte_order, parse_data_type, tagconfig_to_definition,
  tagconfig_to_modbus_mapping, tagconfig_to_fins_mapping,
}
use opcua_plc_bridge.Runtime.Tags.Accepted.{modbus_mapping_checked}
use opcua_plc_bridge.Runtime.Tags.Agree.{modbus_mapping_agrees}
use opcua_plc_bridge.Runtime.Text.{all_digits, trim, parse_u32, to_lowercase}
use opcua_plc_bridge.Runtime.WriteHandler.{Routing, Sender, sent, replied, handle_write}
use opcua_plc_bridge.Runtime.WriteHandler.Checked.{IsAllowed, handle_write_ok_iff}
use opcua_plc_bridge.Runtime.WriteHandler.Client.{bridge_reply, IsConfirmed, client_write_ok_iff}
use opcua_plc_bridge.Tests.Data.{clock, temp, temp_definition, registry, registry-IsTyped}

-- A register in human notation, between blanks.
abbrev config : TagConfig
config = record {
  id = temp;
  name = temp;
  address = codes " 40101 ";
  data_type = codes "UInt16";
  writable = true;
  byte_order = none;
  word_count = none;
  area = none;
}

abbrev definition : TagDefinition
definition = record temp_definition { address = codes " 40101 " }

abbrev mapping : ModbusMapping
mapping = record {
  tag_id = temp;
  data_type = TagDataType.uint16;
  address = 100;
  quantity = 1;
  function = holding_registers;
  bit_offset = 0;
  writable = true;
  byte_order = WordOrder.abcd;
}

defined : tagconfig_to_definition config (codes "plc") ≡ ok definition
unfolding tagconfig_to_definition parse_data_type str_eq to_lowercase parse_byte_order
    new_definition
defined = refl

mapped : tagconfig_to_modbus_mapping config ≡ ok mapping
unfolding tagconfig_to_modbus_mapping parse_u32 trim blank_step is_blank parse_data_type str_eq
    to_lowercase check_words parse_byte_order default_function
mapped = refl

-- `D100` in the D memory area.
fins_mapped :
    tagconfig_to_fins_mapping (record config { address = codes "D100" })
    ≡ ok (record {
      tag_id = temp;
      area = 0x82;
      address = 100;
      bit_offset = 0;
      word_count = 1;
      writable = true;
      byte_order = WordOrder.abcd;
      data_type = TagDataType.uint16;
    })
unfolding tagconfig_to_fins_mapping str_eq trim blank_step is_blank all_digits parse_u32
    parse_data_type to_lowercase check_words parse_byte_order
fins_mapped = refl

-- A number that a `u32` does not hold.
too_large : parse_u32 (codes "4294967296") ≡ none
unfolding parse_u32
too_large = refl

modbus_mapping_agrees_example :
    (mapping.tag_id ≡ definition.id)
    × (mapping.data_type ≡ definition.data_type)
    × (mapping.byte_order ≡ definition.byte_order)
    × (mapping.writable ≡ definition.writable)
modbus_mapping_agrees_example =
    modbus_mapping_agrees config (codes "plc") definition mapping defined mapped

modbus_mapping_checked_example :
    (100 < 2 ^ 16)
    × ((Validate.check_mapping mapping ≡ ok tt)
        ↔ ((0 < 1) × ((Validate.swaps_words WordOrder.abcd ≡ false) ⊎ (2 ≤ 1))))
modbus_mapping_checked_example = modbus_mapping_checked config mapping mapped

abbrev routing : Routing
routing = (temp, record { kind = DriverKind.modbus; driver = 0 }) ∷ []

abbrev nine : TagValue ℕ
nine = TagValue.uint16 9

handle_write_ok_iff_example :
    ((handle_write registry routing temp nine sent (replied (ok tt))).0 ≡ ok tt) ↔ (
      ((sender : Sender) × IsAllowed registry routing temp nine sender)
      × (sent ≡ sent)
      × (replied (ok tt) ≡ replied (ok tt)))
handle_write_ok_iff_example =
    handle_write_ok_iff registry routing temp nine sent (replied (ok tt)) registry-IsTyped

-- A library whose types are the model's own.
abbrev ua : Ua ℕ Str ℕ (List ℕ)
ua = record {
  string_new = some;
  as_str = some;
  try_from_unix_timestamp_nanos = some;
  as_unix_timestamp_nanos = λ n. n;
  byte_string_new = λ b. b;
  as_bytes = some;
  timestamp_nanos_opt = some;
  from_timestamp_nanos = λ n. n;
}

abbrev nine_variant : Variant Str ℕ (List ℕ)
nine_variant = Variant.uint16 9

client_write_ok_iff_example :
    ((write ua
        (bridge_reply ua registry routing true sent (replied (ok tt)))
        registry
        WriteMode.confirmed_ack
        true
        temp
        (some nine_variant)).0
      ≡ ok tt)
    ↔ IsConfirmed ua registry routing temp nine_variant true sent (replied (ok tt))
client_write_ok_iff_example =
    client_write_ok_iff ua registry routing temp nine_variant true sent (replied (ok tt))
      registry-IsTyped

abbrev plc : PlcConfig
plc = record {
  name = codes "plc";
  protocol = codes "modbus";
  endpoint = codes "localhost:502";
  cycle_ms = 100;
  tags = config ∷ [];
  max_words_per_request = none;
}

abbrev built : Definitions
built = (temp, definition) ∷ []

all_defined : all_definitions (plc ∷ []) ≡ ok (definition ∷ [])
unfolding all_definitions tagconfig_to_definition parse_data_type str_eq to_lowercase
    parse_byte_order new_definition
all_defined = refl

all_built : from_definitions (definition ∷ []) ≡ ok built
unfolding from_definitions validate is_blank lookup insert
all_built = refl

configured_never_stale_example :
    check_stale_tags
      (λ now then_. some 1000000000000)
      clock
      (codes "plc")
      (record registry { definitions = built }, 5)
    ≡ (record registry { definitions = built }, 5)
configured_never_stale_example =
    configured_never_stale (λ now then_. some 1000000000000) clock (plc ∷ []) (definition ∷ [])
      built (record registry { definitions = built }) 5 (codes "plc") all_defined all_built refl

-- A PLC of a protocol without a driver.
abbrev opaque_plc : PlcConfig
opaque_plc = record plc { protocol = codes "s7" }

abbrev running : Running
running = (
  (temp, record { kind = DriverKind.modbus; driver = 0 }) ∷ [],
  modbus_driver (codes "plc") (mapping ∷ []) ∷ [],
)

validated : Validate.validate (mapping ∷ []) ≡ ok tt
unfolding Validate.validate Validate.check_mappings Validate.check_mapping Validate.check_functions
    Validate.check_neighbours sort_by_key with_function same_function
validated = refl

modbus_set_up : setup_modbus_driver (λ endpoint. true) plc ([], []) ≡ ok running
unfolding setup_modbus_driver mappings_of add_routes insert
modbus_set_up = rw (mapped, validated) refl

set_up : setup_drivers (λ endpoint. true) (opaque_plc ∷ plc ∷ []) ([], []) ≡ ok running
unfolding setup_drivers setup_driver to_lowercase str_eq
set_up = rw modbus_set_up refl

setup_drivers-AllServed_example :
    ((id : Str) → is_some (lookup id running.0) ≡ is_configured id (opaque_plc ∷ plc ∷ []))
    × AllServed running
setup_drivers-AllServed_example =
    setup_drivers-AllServed (λ endpoint. true) (opaque_plc ∷ plc ∷ []) running set_up
