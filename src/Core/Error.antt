-- ===== src/Core/Error.antt =====
-- core-model/src/error.rs. `panicked` is the model's own: an index out of bounds, at which Rust panics.
use opcua_plc_bridge.Base.{Str}

pub data CoreError : Type 0 where
  tag_not_found definition_not_found type_mismatch invalid_config internal : Str → CoreError
  panicked : CoreError
