-- ===== src/Fins/Cycle.antt =====
-- driver/fins/src/driver.rs: `run_read_cycle_impl`, the writes and then the reads.
pub mod Keeps
pub mod Ends
use opcua_plc_bridge.Base.{ℕ, true, List, Option, none, some, Outcome, ok}
use opcua_plc_bridge.Driver.Chrono.{Chrono}
use opcua_plc_bridge.Driver.Error.{DriverError}
use opcua_plc_bridge.Fins.Mapping.{TagMapping}
use opcua_plc_bridge.Fins.Groups.{ReadGroup}
use opcua_plc_bridge.Fins.Link.{Link, Stream}
use opcua_plc_bridge.Fins.Writes.{drain, max_writes}
use opcua_plc_bridge.Fins.Reads.{Flow, next, stop, unwind, each, read_group}

-- `connect_with_backoff`, where `conn` is empty, returns only with a stream.
unfoldable pub connect : {T : Type 0} → Link T → Link T
connect b = record b { connected = true }

-- A `break` leads to the `Ok(())` at the end; `none` is a panic, which ends the poller's task.
abbrev pub finish : {T : Type 0} → Flow × Link T → Option (Outcome DriverError (Unit {0})) × Link T
finish (next, b) = (some (ok tt), b)
finish (stop, b) = (some (ok tt), b)
finish (unwind, b) = (none, b)

module _ {T : Type 0} (chrono : Chrono T) (clock : ℕ → T) (from_system_time : ℕ → Option T)
    (stream : Stream) where
  unfoldable pub run_read_cycle :
      List ReadGroup → List TagMapping → Link T → Option (Outcome DriverError (Unit {0})) × Link T
  run_read_cycle groups ms b = finish (
      each (read_group chrono clock from_system_time stream) groups
        (drain chrono clock stream ms max_writes (connect b)))
