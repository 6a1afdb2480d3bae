-- ===== src/Modbus/Cycle/Keeps.antt =====
-- The registry's contract along a whole cycle (driver/modbus/src/driver.rs).
use opcua_plc_bridge.Base.{ℕ, List}
use opcua_plc_bridge.Core.Registry.{TagRegistry}
use opcua_plc_bridge.Core.Registry.Typed.{IsTyped}
use opcua_plc_bridge.Driver.Chrono.{Chrono}
use opcua_plc_bridge.Modbus.Mapping.{ModbusFunction, ModbusMapping}
use opcua_plc_bridge.Modbus.Bus.{Bus, Device}
use opcua_plc_bridge.Core.Registry.Kept.{IsKept, IsTyped-IsKept}
use opcua_plc_bridge.Modbus.Bus.Keeps.{Keeps, and_then-Keeps}
use opcua_plc_bridge.Modbus.Writes.{max_writes}
use opcua_plc_bridge.Modbus.Reads.Keeps.{read_all-Keeps}
use opcua_plc_bridge.Modbus.Writes.Keeps.{drain-Keeps}
use opcua_plc_bridge.Modbus.Cycle.{run_read_cycle}

module _ {T : Type 0} (P : TagRegistry T → Type 0) (k : IsKept P) (chrono : Chrono T)
    (clock : ℕ → T) where
  module _ (device : Device) where
    -- A cycle keeps every property of the registry that `update_tag_value` and `set_tag_quality`
    -- keep, whatever the device answers, also when it ends early with an error.
    pub run_read_cycle-Keeps :
        (order : List ModbusFunction) (ms : List ModbusMapping)
        → Keeps P (run_read_cycle chrono clock device order ms)
    unfolding run_read_cycle
    run_read_cycle-Keeps order ms b h =
        and_then-Keeps P _ _ (drain-Keeps P k chrono clock device ms max_writes b h)
          (read_all-Keeps P k chrono clock device order ms)

module _ {T : Type 0} (chrono : Chrono T) (clock : ℕ → T) (device : Device) where
  -- A cycle on a typed registry leaves a typed registry: well formed, with a tag for each definition
  -- and no other, each value of the type of its definition. This holds whatever the device
  -- answers, for each configuration and queue, and also when the cycle ends early with an error.
  pub run_read_cycle-IsTyped :
      (order : List ModbusFunction) (ms : List ModbusMapping) (b : Bus T)
      → IsTyped b.registry
      → IsTyped (run_read_cycle chrono clock device order ms b).1.registry
  run_read_cycle-IsTyped order ms b =
      run_read_cycle-Keeps IsTyped IsTyped-IsKept chrono clock device order ms b
