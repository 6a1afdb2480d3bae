-- ===== src/Fins/Codec/Types.antt =====
-- The types of decoded values (driver/fins/src/driver.rs).
use opcua_plc_bridge.Base.{ℕ, ◌≡◌, List, Option, ok, arith}
use opcua_plc_bridge.Core.TagValue.{TagValue, TagDataType, data_type}
use opcua_plc_bridge.Driver.Chrono.{Chrono}
use opcua_plc_bridge.Fins.Codec.{enough, decode_value}

module _ {T : Type 0} (chrono : Chrono T) (from_system_time : ℕ → Option T) where
  -- The FINS driver decodes bytes, of whatever number, to a value of the type that was asked for, where
  -- it decodes them at all.
  pub decode_value-type :
      (v : TagValue T) (dt : TagDataType) (bytes : List ℕ) (bit_offset : ℕ)
      → decode_value chrono from_system_time dt bytes bit_offset ≡ ok v
      → data_type v ≡ dt
  unfolding decode_value enough data_type
  decode_value-type v dt bytes bit_offset e = ground arith
