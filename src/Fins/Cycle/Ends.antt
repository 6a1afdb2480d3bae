-- ===== src/Fins/Cycle/Ends.antt =====
-- How a cycle ends (driver/fins/src/driver.rs).
use opcua_plc_bridge.Base.{ℕ, ◌≡◌, refl, List, Option, some, ok, All}
use opcua_plc_bridge.Driver.Chrono.{Chrono}
use opcua_plc_bridge.Fins.Mapping.{TagMapping}
use opcua_plc_bridge.Fins.Groups.{ReadGroup}
use opcua_plc_bridge.Fins.Link.{Link, Stream}
use opcua_plc_bridge.Fins.Reads.{Flow, next, stop, unwind, read_group}
use opcua_plc_bridge.Fins.Reads.Total.{IsCalm, IsTimeless, each-IsCalm, read_group-IsCalm}
use opcua_plc_bridge.Fins.Cycle.{connect, finish, run_read_cycle}

module _ {T : Type 0} (chrono : Chrono T) (clock : ℕ → T) (from_system_time : ℕ → Option T) where
  finish-IsCalm : (r : Flow × Link T) → IsCalm r.0 → (finish r).0 ≡ some (ok tt)
  finish-IsCalm (next, b) h = refl
  finish-IsCalm (stop, b) h = refl
  finish-IsCalm (unwind, b) h = absurd h

  -- Where no group has a mapping of type DateTime, a FINS cycle reports success, whatever the stream
  -- answers: no failed write, no error of the stream and no faulty response makes it fail.
  pub fins_cycle_ok :
      (stream : Stream) (groups : List ReadGroup) (ms : List TagMapping) (b : Link T)
      → All (λ (g : ReadGroup). All IsTimeless g.mappings) groups
      → (run_read_cycle chrono clock from_system_time stream groups ms b).0 ≡ some (ok tt)
  unfolding run_read_cycle connect
  fins_cycle_ok stream groups ms b h = finish-IsCalm _ (
      each-IsCalm (read_group chrono clock from_system_time stream)
        (λ (g : ReadGroup). All IsTimeless g.mappings)
        (read_group-IsCalm chrono clock from_system_time stream) groups _ h)
