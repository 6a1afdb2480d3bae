-- ===== src/Modbus/Cycle.antt =====
-- driver/modbus/src/driver.rs: `run_read_cycle_impl`, the writes and then the reads.
pub mod Keeps
pub mod Context
use opcua_plc_bridge.Base.{ℕ, List}
use opcua_plc_bridge.Driver.Chrono.{Chrono}
use opcua_plc_bridge.Modbus.Mapping.{ModbusFunction, ModbusMapping}
use opcua_plc_bridge.Modbus.Bus.{Device, Run, and_then}
use opcua_plc_bridge.Modbus.Reads.{read_all}
use opcua_plc_bridge.Modbus.Writes.{drain, max_writes}

module _ {T : Type 0} (chrono : Chrono T) (clock : ℕ → T) (device : Device) where
  unfoldable pub run_read_cycle : List ModbusFunction → List ModbusMapping → Run T
  run_read_cycle order ms b =
      and_then (drain chrono clock device ms max_writes b) (read_all chrono clock device order ms)
