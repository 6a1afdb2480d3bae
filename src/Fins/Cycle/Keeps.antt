-- ===== src/Fins/Cycle/Keeps.antt =====
-- The registry's contract along a whole cycle, and how it ends (driver/fins/src/driver.rs).
use opcua_plc_bridge.Base.{ℕ, List, Option}
use opcua_plc_bridge.Core.Registry.{TagRegistry}
use opcua_plc_bridge.Core.Registry.Typed.{IsTyped}
use opcua_plc_bridge.Core.Registry.Kept.{IsKept, IsTyped-IsKept}
use opcua_plc_bridge.Driver.Chrono.{Chrono}
use opcua_plc_bridge.Fins.Mapping.{TagMapping}
use opcua_plc_bridge.Fins.Groups.{ReadGroup}
use opcua_plc_bridge.Fins.Link.{Link, Stream}
use opcua_plc_bridge.Fins.Link.Keeps.{Holds}
use opcua_plc_bridge.Fins.Writes.{max_writes}
use opcua_plc_bridge.Fins.Writes.Keeps.{drain-keeps}
use opcua_plc_bridge.Fins.Reads.{Flow, next, stop, unwind, read_group}
use opcua_plc_bridge.Fins.Reads.Keeps.{After, each-keeps, read_group-keeps}
use opcua_plc_bridge.Fins.Cycle.{connect, finish, run_read_cycle}

module _ {T : Type 0} (chrono : Chrono T) (clock : ℕ → T) (from_system_time : ℕ → Option T)
    (stream : Stream) where
  finish-keeps : (P : TagRegistry T → Type 0) (r : Flow × Link T) → After P r → Holds P (finish r).1
  finish-keeps P (next, b) h = h
  finish-keeps P (stop, b) h = h
  finish-keeps P (unwind, b) h = h

  -- A cycle keeps every property of the registry that `update_tag_value` and `set_tag_quality`
  -- keep, whatever the stream answers, also when it panics.
  pub run_read_cycle-keeps :
      (P : TagRegistry T → Type 0)
      → IsKept P
      → (groups : List ReadGroup) (ms : List TagMapping) (b : Link T) → Holds P b
      → Holds P (run_read_cycle chrono clock from_system_time stream groups ms b).1
  unfolding run_read_cycle connect
  run_read_cycle-keeps P k groups ms b h = finish-keeps P _ (
      each-keeps P (read_group chrono clock from_system_time stream)
        (read_group-keeps P k chrono clock from_system_time stream) groups _
        (drain-keeps P k chrono clock stream ms max_writes _ h))

  -- A FINS cycle on a typed registry leaves a typed registry: well formed, with a tag for each
  -- definition and no other, each value of the type of its definition. This holds whatever the
  -- stream answers, for each list of groups, each configuration and each queue, and also where a
  -- decoding panics.
  pub fins_cycle-IsTyped :
      (groups : List ReadGroup) (ms : List TagMapping) (b : Link T)
      → IsTyped b.registry
      → IsTyped (run_read_cycle chrono clock from_system_time stream groups ms b).1.registry
  fins_cycle-IsTyped groups ms b h = run_read_cycle-keeps IsTyped IsTyped-IsKept groups ms b h
