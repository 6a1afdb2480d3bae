-- ===== src/Fins/Mapping.antt =====
-- driver/fins/src/mapping.rs: how a tag maps to words of a memory area.
use opcua_plc_bridge.Base.{ℕ, Bool, Str}
use opcua_plc_bridge.Core.TagValue.{TagDataType}
use opcua_plc_bridge.Core.WordOrder.{WordOrder}

pub record TagMapping : Type 0 where
  pub tag_id : Str
  pub area : ℕ
  pub address : ℕ
  pub bit_offset : ℕ
  pub word_count : ℕ
  pub writable : Bool
  pub byte_order : WordOrder
  pub data_type : TagDataType

-- The key of `sort_by_key(|m| m.address)`.
abbrev pub address_of : TagMapping → ℕ
address_of m = m.address
