-- ===== src/Runtime/Drivers/Served.antt =====
-- Where the routes lead (runtime/src/main.rs).
use opcua_plc_bridge.Base.{
  arith, ◌≡◌, refl, sym, subst, Bool, true, false, not, ◌||◌, ◌&&◌, List, [], ◌∷◌, ◌++◌, Str, codes,
  str_eq, some, is_some, lookup, length, get_elem?, get_elem?-append_last, get_elem?_bound,
  get_elem?-append_left, ◌∙◌, inl, inr, Bool-cases, ok, fail_if, map_err, map_err-ok, bind-ok,
  ok-injective,
}
use opcua_plc_bridge.Modbus.Validate as ModbusValidate
use opcua_plc_bridge.Modbus.Writes as ModbusWrites
use opcua_plc_bridge.Fins.Groups.{read_groups_of}
use opcua_plc_bridge.Fins.Validate as FinsValidate
use opcua_plc_bridge.Fins.Writes as FinsWrites
use opcua_plc_bridge.Server.Error.{DriverKind}
use opcua_plc_bridge.Runtime.Config.{TagConfig, PlcConfig}
use opcua_plc_bridge.Runtime.Tags.{tagconfig_to_fins_mapping, tagconfig_to_modbus_mapping}
use opcua_plc_bridge.Runtime.Text.{to_lowercase}
use opcua_plc_bridge.Runtime.WriteHandler.{Sender, Routing}
use opcua_plc_bridge.Runtime.Drivers.{
  mapping_failed, modbus_invalid, fins_invalid, unresolved, Driver, fins_driver, modbus_driver,
  mappings_of, add_routes, words_limit, or_hangs, sender_of, Running, setup_fins_driver,
  setup_modbus_driver, setup_driver, setup_drivers,
}
use opcua_plc_bridge.Runtime.Drivers.Routes.{
  has_id, lookup-add_routes, lookup-add_routes_some, fins_found, modbus_found,
}

-- A driver of a kind that has a validated configuration with a mapping for an id.
abbrev pub Serves : DriverKind → Str → Driver → Type 0
Serves kind id (fins_driver name ms groups) =
    (kind ≡ DriverKind.fins)
    × (FinsValidate.validate ms ≡ ok tt)
    × (is_some (FinsWrites.find_mapping ms id) ≡ true)
Serves kind id (modbus_driver name ms) =
    (kind ≡ DriverKind.modbus)
    × (ModbusValidate.validate ms ≡ ok tt)
    × (is_some (ModbusWrites.find_mapping ms id) ≡ true)

-- The driver that a sender sends to, among those that were started, serves an id.
abbrev pub IsServed : Sender → Str → List Driver → Type 0
IsServed sender id drivers =
    (d : Driver) × (get_elem? drivers sender.driver ≡ some d) × Serves sender.kind id d

-- Every route leads to a driver that serves it.
abbrev pub AllServed : Running → Type 0
AllServed s = (id : Str) (sender : Sender) → lookup id s.0 ≡ some sender → IsServed sender id s.1

-- A protocol that the runtime has a driver for.
abbrev pub is_supported : PlcConfig → Bool
is_supported plc =
    str_eq (to_lowercase plc.protocol) (codes "fins")
    || str_eq (to_lowercase plc.protocol) (codes "modbus")

abbrev pub is_configured : Str → List PlcConfig → Bool
is_configured id [] = false
is_configured id (plc ∷ plcs) = (is_supported plc && has_id id plc.tags) || is_configured id plcs

module _ (resolves : Str → Bool) where
  added-AllServed :
      (kind : DriverKind) (ts : List TagConfig) (routing : Routing) (drivers : List Driver)
      (d : Driver)
      → AllServed (routing, drivers)
      → ((id : Str) → has_id id ts ≡ true → Serves kind id d)
      → AllServed (add_routes (sender_of kind drivers) ts routing, drivers ++ (d ∷ []))
  added-AllServed kind ts routing drivers d h serves id sender e =
      elim (lookup-add_routes (sender_of kind drivers) ts routing id sender e) [
        | inl (same, here) ↦
            rw same (d, get_elem?-append_last drivers d (length drivers) refl, serves id here)
        | inr found ↦
            let (d2, there, served) = h id sender found in
            (
              d2,
              get_elem?-append_left drivers (d ∷ []) sender.driver
                    (get_elem?_bound drivers sender.driver d2 there)
                  ∙ there,
              served,
            )
      ]

  fins-AllServed :
      (plc : PlcConfig) (s s1 : Running)
      → setup_fins_driver resolves plc s ≡ ok s1
      → AllServed s
      → AllServed s1 × (s1.0 ≡ add_routes (sender_of DriverKind.fins s.1) plc.tags s.0)
  unfolding setup_fins_driver
  fins-AllServed plc (routing, drivers) s1 e h =
      let (_, _, e1) =
        bind-ok (fail_if (not (resolves plc.endpoint)) (unresolved plc.endpoint)) _ s1 e in
      let (ms, mapped, e2) =
        bind-ok (map_err mapping_failed (mappings_of tagconfig_to_fins_mapping plc.tags)) _ s1 e1 in
      let (groups, _, e3) =
        bind-ok (or_hangs (read_groups_of (words_limit plc.max_words_per_request) ms)) _ s1 e2 in
      let (_, valid, e4) = bind-ok (map_err fins_invalid (FinsValidate.validate ms)) _ s1 e3 in
      subst
        (λ s. AllServed s × (s.0 ≡ add_routes (sender_of DriverKind.fins drivers) plc.tags routing))
        (ok-injective e4)
        (
          added-AllServed DriverKind.fins plc.tags routing drivers (fins_driver plc.name ms groups)
              h
              (λ id here. (
                refl,
                map_err-ok fins_invalid _ _ valid,
                fins_found plc.tags ms id (map_err-ok mapping_failed _ _ mapped) here,
              )),
          refl,
        )

  modbus-AllServed :
      (plc : PlcConfig) (s s1 : Running)
      → setup_modbus_driver resolves plc s ≡ ok s1
      → AllServed s
      → AllServed s1 × (s1.0 ≡ add_routes (sender_of DriverKind.modbus s.1) plc.tags s.0)
  unfolding setup_modbus_driver
  modbus-AllServed plc (routing, drivers) s1 e h =
      let (_, _, e1) =
        bind-ok (fail_if (not (resolves plc.endpoint)) (unresolved plc.endpoint)) _ s1 e in
      let (ms, mapped, e2) =
        bind-ok (map_err mapping_failed (mappings_of tagconfig_to_modbus_mapping plc.tags)) _ s1
          e1 in
      let (_, valid, e3) = bind-ok (map_err modbus_invalid (ModbusValidate.validate ms)) _ s1 e2 in
      subst
        (λ s.
          AllServed s × (s.0 ≡ add_routes (sender_of DriverKind.modbus drivers) plc.tags routing))
        (ok-injective e3)
        (
          added-AllServed DriverKind.modbus plc.tags routing drivers (modbus_driver plc.name ms) h
              (λ id here. (
                refl,
                map_err-ok modbus_invalid _ _ valid,
                modbus_found plc.tags ms id (map_err-ok mapping_failed _ _ mapped) here,
              )),
          refl,
        )

  -- One PLC of the loop.
  setup_driver_lem :
      (plc : PlcConfig) (s s1 : Running)
      → setup_driver resolves plc s ≡ ok s1
      → AllServed s
      → AllServed s1
        × ((id : Str)
            → is_some (lookup id s1.0)
              ≡ ((is_supported plc && has_id id plc.tags) || is_some (lookup id s.0)))
  unfolding setup_driver
  setup_driver_lem plc s s1 e h =
      elim (Bool-cases (str_eq (to_lowercase plc.protocol) (codes "fins"))) [
        | inl fins ↦
            let (served, routes) = fins-AllServed plc s s1 (rw fins at e) h in
            (
              served,
              λ id.
                  rw (fins, routes)
                    (lookup-add_routes_some (sender_of DriverKind.fins s.1) plc.tags s.0 id),
            )
        | inr other ↦ elim (Bool-cases (str_eq (to_lowercase plc.protocol) (codes "modbus"))) [
          | inl modbus ↦
              let (served, routes) = modbus-AllServed plc s s1 (rw (other, modbus) at e) h in
              (
                served,
                λ id.
                    rw (other, modbus, routes)
                      (lookup-add_routes_some (sender_of DriverKind.modbus s.1) plc.tags s.0 id),
              )
          | inr none_ ↦
              let same = ok-injective (rw (other, none_) at e) in
              (subst AllServed same h, λ id. rw (other, none_, sym same) refl)
        ]
      ]

  setup_drivers_lem :
      (plcs : List PlcConfig) (s s1 : Running)
      → setup_drivers resolves plcs s ≡ ok s1
      → AllServed s
      → AllServed s1
        × ((id : Str)
            → is_some (lookup id s1.0) ≡ (is_configured id plcs || is_some (lookup id s.0)))
  unfolding setup_drivers
  setup_drivers_lem [] s s1 e h =
      (subst AllServed (ok-injective e) h, λ id. rw (sym (ok-injective e)) refl)
  setup_drivers_lem (plc ∷ plcs) s s1 e h =
      let (s2, first, rest) = bind-ok (setup_driver resolves plc s) _ s1 e in
      let (served, routes) = setup_driver_lem plc s s2 first h in
      let (all_served, all_routes) = setup_drivers_lem plcs s2 s1 rest served in
      (all_served, λ id. ground (arith, routes id, all_routes id))

  -- Where the set-up of all PLCs succeeds: the write handler has a route for exactly the ids of the tags
  -- that are configured for a PLC of a supported protocol, and the driver that a route's sender sends to
  -- is one that was started, of the sender's kind, whose configuration passed its validation and has
  -- a mapping for the tag.
  pub setup_drivers-AllServed :
      (plcs : List PlcConfig) (s : Running)
      → setup_drivers resolves plcs ([], []) ≡ ok s
      → ((id : Str) → is_some (lookup id s.0) ≡ is_configured id plcs) × AllServed s
  unfolding lookup
  setup_drivers-AllServed plcs s e =
      let (served, routes) = setup_drivers_lem plcs ([], []) s e (λ j k none_. cc) in
      (λ id. ground (arith, routes id), served)
