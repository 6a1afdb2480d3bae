-- ===== src/Runtime/Tags/Agree.antt =====
-- What the definition and the mappings of one configured tag have in common (runtime/src/tags.rs).
use opcua_plc_bridge.Base.{◌≡◌, Str, ok, arith}
use opcua_plc_bridge.Core.TagDefinition.{TagDefinition, new_definition}
use opcua_plc_bridge.Modbus.Mapping.{ModbusMapping}
use opcua_plc_bridge.Fins.Mapping.{TagMapping}
use opcua_plc_bridge.Runtime.Config.{TagConfig}
use opcua_plc_bridge.Runtime.Tags.{
  tagconfig_to_definition, tagconfig_to_fins_mapping, tagconfig_to_modbus_mapping,
}

-- Where a tag's configuration gives a definition and a Modbus mapping, the two agree in the id, the data
-- type, the byte order and whether the tag is writable.
pub modbus_mapping_agrees :
    (t : TagConfig) (plc_name : Str) (d : TagDefinition) (m : ModbusMapping)
    → tagconfig_to_definition t plc_name ≡ ok d
    → tagconfig_to_modbus_mapping t ≡ ok m
    → (m.tag_id ≡ d.id)
      × (m.data_type ≡ d.data_type)
      × (m.byte_order ≡ d.byte_order)
      × (m.writable ≡ d.writable)
unfolding tagconfig_to_definition tagconfig_to_modbus_mapping new_definition
modbus_mapping_agrees t plc_name d m e f = ground arith

-- Where a tag's configuration gives a definition and a FINS mapping, the two agree in the id, the data
-- type, the byte order and whether the tag is writable.
pub fins_mapping_agrees :
    (t : TagConfig) (plc_name : Str) (d : TagDefinition) (m : TagMapping)
    → tagconfig_to_definition t plc_name ≡ ok d
    → tagconfig_to_fins_mapping t ≡ ok m
    → (m.tag_id ≡ d.id)
      × (m.data_type ≡ d.data_type)
      × (m.byte_order ≡ d.byte_order)
      × (m.writable ≡ d.writable)
unfolding tagconfig_to_definition tagconfig_to_fins_mapping new_definition
fins_mapping_agrees t plc_name d m e f = ground arith
