-- ===== src/Modbus/Mapping.antt =====
-- driver/modbus/src/mapping.rs: how a tag maps to Modbus registers or coils.
use opcua_plc_bridge.Base.{ℕ, Bool, Str}
use opcua_plc_bridge.Core.TagValue.{TagDataType}
use opcua_plc_bridge.Core.WordOrder.{WordOrder}

pub data ModbusFunction : Type 0 where
  coils discrete_inputs holding_registers input_registers : ModbusFunction

pub record ModbusMapping : Type 0 where
  pub tag_id : Str
  pub data_type : TagDataType
  pub address : ℕ
  pub quantity : ℕ
  pub function : ModbusFunction
  pub bit_offset : ℕ
  pub writable : Bool
  pub byte_order : WordOrder
