-- ===== src/Driver/Error.antt =====
-- driver/modbus/src/errors.rs and driver/fins/src/errors.rs: the drivers' errors. `modbus` is the
-- Modbus driver's, `protocol` the FINS driver's.
use opcua_plc_bridge.Base.{Str}

pub data DriverError : Type 0 where
  io modbus protocol mapping other : Str → DriverError
  timeout : DriverError
