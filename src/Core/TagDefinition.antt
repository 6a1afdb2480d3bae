-- ===== src/Core/TagDefinition.antt =====
-- core-model/src/tag_definition.rs: the configuration of a tag. The field `metadata` is left out:
-- it is a `serde_json::Value` that nothing in the program reads.
use opcua_plc_bridge.Base.{
  ℕ, Bool, false, Str, codes, is_blank, Option, none, ◌++◌, Outcome, fail_if, ◌>>◌,
}
use opcua_plc_bridge.Core.Error.{CoreError, invalid_config}
use opcua_plc_bridge.Core.TagValue.{TagDataType}
use opcua_plc_bridge.Core.WordOrder.{WordOrder}

pub record TagDefinition : Type 0 where
  pub id : Str
  pub name : Str
  pub address : Str
  pub data_type : TagDataType
  pub writable : Bool
  pub byte_order : WordOrder
  pub stale_after_ms : Option ℕ
  pub plc_name : Str

-- `TagDefinition::validate`
unfoldable pub validate : TagDefinition → Outcome CoreError (Unit {0})
validate d = do
  fail_if (is_blank d.id) (invalid_config (codes "TagDefinition.id is empty"))
  fail_if (is_blank d.name)
      (invalid_config (codes "TagDefinition.name is empty for id '" ++ (d.id ++ codes "'")))
  fail_if (is_blank d.address)
      (invalid_config (codes "TagDefinition.address is empty for id '" ++ (d.id ++ codes "'")))

-- `TagDefinition::new`
unfoldable pub new_definition : Str → Str → Str → TagDataType → Str → TagDefinition
new_definition i n a t plc = record {
  id = i;
  name = n;
  address = a;
  data_type = t;
  writable = false;
  byte_order = WordOrder.abcd;
  stale_after_ms = none;
  plc_name = plc;
}
