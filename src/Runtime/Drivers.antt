-- ===== src/Runtime/Drivers.antt =====
-- runtime/src/main.rs: the set-up of the drivers and of the routes to them. The resolution of an endpoint
-- (tokio) is the parameter `resolves`.
pub mod Routes
pub mod Served
use opcua_plc_bridge.Base.{
  ℕ, length, Bool, not, List, [], ◌∷◌, ◌++◌, Str, codes, str_eq, Option, none, some, insert,
  if◌then◌else◌, Outcome, ok, err, ◌>>=◌, ◌>>◌, fail_if, map_err,
}
use opcua_plc_bridge.Modbus.Mapping.{ModbusMapping}
use opcua_plc_bridge.Modbus.Validate as ModbusValidate
use opcua_plc_bridge.Fins.Mapping.{TagMapping}
use opcua_plc_bridge.Fins.Groups.{ReadGroup, read_groups_of}
use opcua_plc_bridge.Fins.Validate as FinsValidate
use opcua_plc_bridge.Server.Error.{DriverKind}
use opcua_plc_bridge.Runtime.Config.{TagConfig, PlcConfig}
use opcua_plc_bridge.Runtime.Tags.{TagError, tagconfig_to_fins_mapping, tagconfig_to_modbus_mapping}
use opcua_plc_bridge.Runtime.Text.{to_lowercase}
use opcua_plc_bridge.Runtime.WriteHandler.{Sender, Routing}

-- A failure ends the program. `hangs` is a `FinsDriver::new` that does not return.
pub data SetupError : Type 0 where
  unresolved : Str → SetupError
  mapping_failed : TagError → SetupError
  fins_invalid : FinsValidate.MappingError → SetupError
  modbus_invalid : ModbusValidate.MappingError → SetupError
  hangs : SetupError

-- A driver that runs: its PLC and its configuration.
pub data Driver : Type 0 where
  fins_driver : Str → List TagMapping → List ReadGroup → Driver
  modbus_driver : Str → List ModbusMapping → Driver

-- The loop over the tags that makes the mappings, in both functions.
unfoldable pub mappings_of :
    {M : Type 0} → (TagConfig → Outcome TagError M) → List TagConfig → Outcome TagError (List M)
mappings_of convert [] = ok []
mappings_of convert (t ∷ ts) =
    let rest = mappings_of convert ts in convert t >>= λ m. rest >>= λ ms. ok (m ∷ ms)

-- The loop over the tags that adds the routes; `add_route_for_fins` and `add_route_for_modbus` insert.
unfoldable pub add_routes : Sender → List TagConfig → Routing → Routing
add_routes sender [] routing = routing
add_routes sender (t ∷ ts) routing = add_routes sender ts (insert t.id sender routing)

-- `plc.max_words_per_request.unwrap_or(960)`
abbrev pub words_limit : Option ℕ → ℕ
words_limit none = 960
words_limit (some n) = n

abbrev pub or_hangs : {A : Type 0} → Option A → Outcome SetupError A
or_hangs none = err hangs
or_hangs (some a) = ok a

-- The routes and the drivers that run, in the order they were started.
abbrev pub Running : Type 0
Running = Routing × List Driver

-- `write_sender` of the driver that is started next.
abbrev pub sender_of : DriverKind → List Driver → Sender
sender_of kind drivers = record { kind = kind; driver = length drivers }

module _ (resolves : Str → Bool) where
  unfoldable pub setup_fins_driver : PlcConfig → Running → Outcome SetupError Running
  setup_fins_driver plc (routing, drivers) = do
    fail_if (not (resolves plc.endpoint)) (unresolved plc.endpoint)
    ms ← map_err mapping_failed (mappings_of tagconfig_to_fins_mapping plc.tags)
    groups ← or_hangs (read_groups_of (words_limit plc.max_words_per_request) ms)
    map_err fins_invalid (FinsValidate.validate ms)
    ok (
      add_routes (sender_of DriverKind.fins drivers) plc.tags routing,
      drivers ++ (fins_driver plc.name ms groups ∷ []),
    )

  unfoldable pub setup_modbus_driver : PlcConfig → Running → Outcome SetupError Running
  setup_modbus_driver plc (routing, drivers) = do
    fail_if (not (resolves plc.endpoint)) (unresolved plc.endpoint)
    ms ← map_err mapping_failed (mappings_of tagconfig_to_modbus_mapping plc.tags)
    map_err modbus_invalid (ModbusValidate.validate ms)
    ok (
      add_routes (sender_of DriverKind.modbus drivers) plc.tags routing,
      drivers ++ (modbus_driver plc.name ms ∷ []),
    )

  -- `match plc.protocol.to_lowercase().as_str()`; a PLC of another protocol is skipped.
  unfoldable pub setup_driver : PlcConfig → Running → Outcome SetupError Running
  setup_driver plc s =
      if str_eq (to_lowercase plc.protocol) (codes "fins")
      then setup_fins_driver plc s
      else if str_eq (to_lowercase plc.protocol) (codes "modbus")
      then setup_modbus_driver plc s
      else ok s

  unfoldable pub setup_drivers : List PlcConfig → Running → Outcome SetupError Running
  setup_drivers [] s = ok s
  setup_drivers (plc ∷ plcs) s = setup_driver plc s >>= setup_drivers plcs
