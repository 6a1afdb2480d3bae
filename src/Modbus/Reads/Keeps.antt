-- ===== src/Modbus/Reads/Keeps.antt =====
-- Properties of the registry along the reads of a cycle (driver/modbus/src/driver.rs).
use opcua_plc_bridge.Base.{ℕ, List, [], ◌∷◌, Str, Outcome, ok, err}
use opcua_plc_bridge.Core.TagValue.{TagValue, TagQuality}
use opcua_plc_bridge.Core.Error.{CoreError}
use opcua_plc_bridge.Core.Tag.{Tag}
use opcua_plc_bridge.Core.TagDefinition.{TagDefinition}
use opcua_plc_bridge.Core.Registry.{TagRegistry, get_tag, get_definition}
use opcua_plc_bridge.Driver.Chrono.{Chrono}
use opcua_plc_bridge.Driver.Error.{DriverError}
use opcua_plc_bridge.Modbus.Mapping.{ModbusFunction, ModbusMapping}
use opcua_plc_bridge.Modbus.Chunks.{Chunk, Part, outside, short, slice, part_of, chunks_of}
use opcua_plc_bridge.Modbus.Groups.{groups_of}
use opcua_plc_bridge.Modbus.Bus.{Bus, Device, send_health_event, connect, take_context, put_back}
use opcua_plc_bridge.Core.Registry.Kept.{IsKept}
use opcua_plc_bridge.Modbus.Bus.Keeps.{
  Keeps, and_then-Keeps, each-Keeps, set_quality-keeps, update_good-keeps,
}
use opcua_plc_bridge.Modbus.Reads.{
  ReadFault, illegal, lost, ignored, classify, apply_decoded, apply_existing, apply_defined,
  apply_part, apply_members, mark_members, on_fault, on_read, read_chunk, read_one, read_group,
  read_function, read_all,
}

module _ {T : Type 0} (P : TagRegistry T → Type 0) (k : IsKept P) (chrono : Chrono T)
    (clock : ℕ → T) where
  apply_decoded-keeps :
      (id : Str) (o : Outcome DriverError (TagValue T)) (b : Bus T)
      → P b.registry
      → P (apply_decoded chrono clock id o b).registry
  apply_decoded-keeps id (ok v) b h = update_good-keeps P clock k id v b h
  apply_decoded-keeps id (err e) b h = set_quality-keeps P clock k id TagQuality.config_error b h

  apply_existing-keeps :
      (id : Str) (t : Outcome CoreError (Tag T)) (o : Outcome DriverError (TagValue T)) (b : Bus T)
      → P b.registry
      → P (apply_existing chrono clock id t o b).registry
  apply_existing-keeps id (ok t) o b h = apply_decoded-keeps id o b h
  apply_existing-keeps id (err e) o b h = set_quality-keeps P clock k id TagQuality.comm_lost b h

  apply_defined-keeps :
      (id : Str) (d : Outcome CoreError TagDefinition) (o : Outcome DriverError (TagValue T))
      (b : Bus T)
      → P b.registry
      → P (apply_defined chrono clock id d o b).registry
  apply_defined-keeps id (ok d) o b h = apply_existing-keeps id (get_tag b.registry id) o b h
  apply_defined-keeps id (err e) o b h = set_quality-keeps P clock k id TagQuality.config_error b h

  pub apply_part-keeps :
      (m : ModbusMapping) (p : Part) (b : Bus T)
      → P b.registry
      → P (apply_part chrono clock m p b).registry
  apply_part-keeps m outside b h = h
  apply_part-keeps m short b h = set_quality-keeps P clock k m.tag_id TagQuality.config_error b h
  apply_part-keeps m (slice bytes) b h =
      apply_defined-keeps m.tag_id (get_definition b.registry m.tag_id) _ b h

  pub apply_members-keeps :
      (raw : List ℕ) (c : Chunk) (ms : List ModbusMapping) (b : Bus T)
      → P b.registry
      → P (apply_members chrono clock raw c ms b).registry
  unfolding apply_members
  apply_members-keeps raw c [] b h = h
  apply_members-keeps raw c (m ∷ ms) b h =
      apply_members-keeps raw c ms _ (apply_part-keeps m (part_of raw c m) b h)

  mark_members-keeps :
      (q : TagQuality) (ms : List ModbusMapping) (b : Bus T)
      → P b.registry
      → P (mark_members chrono clock q ms b).registry
  unfolding mark_members
  mark_members-keeps q [] b h = h
  mark_members-keeps q (m ∷ ms) b h =
      mark_members-keeps q ms _ (set_quality-keeps P clock k m.tag_id q b h)

  on_fault-Keeps :
      (f : ReadFault) (text : Str) (ms : List ModbusMapping)
      → Keeps P (on_fault chrono clock f text ms)
  unfolding on_fault send_health_event
  on_fault-Keeps illegal text ms b h = mark_members-keeps TagQuality.config_error ms b h
  on_fault-Keeps lost text ms b h = mark_members-keeps TagQuality.comm_lost ms b h
  on_fault-Keeps ignored text ms b h = h

  on_read-Keeps :
      (r : Outcome Str (List ℕ)) (c : Chunk) (ms : List ModbusMapping)
      → Keeps P (on_read chrono clock r c ms)
  unfolding on_read
  on_read-Keeps (ok raw) c ms b h = apply_members-keeps raw c ms b h
  on_read-Keeps (err text) c ms b h = on_fault-Keeps (classify text) text ms b h

  module _ (device : Device) where
    pub read_all-Keeps :
        (order : List ModbusFunction) (ms : List ModbusMapping)
        → Keeps P (read_all chrono clock device order ms)
    unfolding read_all read_function read_group read_one take_context connect put_back
    read_all-Keeps order ms b h =
        and_then-Keeps P _ _
          (each-Keeps P _
            (λ f.
              each-Keeps P _
                (λ g.
                  each-Keeps P _
                    (λ c b. on_read-Keeps (read_chunk device b.calls f c) c g.members _)
                    (chunks_of f g))
                (groups_of f ms))
            order _ h)
          (λ b h. h)
