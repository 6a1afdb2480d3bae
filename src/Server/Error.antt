-- ===== src/Server/Error.antt =====
-- opcua-server/src/error.rs and runtime/src/write_handler.rs: the errors of a write. The handler's are
-- all `ServerError::Other`, each here the constructor that stands for its message.
use opcua_plc_bridge.Base.{Str}
use opcua_plc_bridge.Core.Error.{CoreError}

-- The variants of `DriverSender`.
pub data DriverKind : Type 0 where
  fins modbus : DriverKind

pub data ServerError : Type 0 where
  type_mismatch not_writable definition_not_found no_route : Str → ServerError
  runtime_tag_not_found : Str → CoreError → ServerError
  enqueue_failed : DriverKind → Str → ServerError
  enqueue_timed_out : DriverKind → ServerError
  write_failed : Str → ServerError
  confirmation_closed confirmation_timed_out : ServerError
