-- ===== src/Runtime/Drivers/Routes.antt =====
-- The loops over the tags of a PLC (runtime/src/main.rs).
use opcua_plc_bridge.Base.{
  arith, ◌≡◌, refl, sym, subst, Bool, true, false, ◌||◌, List, [], ◌∷◌, Str, str_eq, some, is_some,
  lookup, lookup-insert, insert, ◌⊎◌, inl, inr, Bool-cases, ok, bind-ok, ok-injective,
}
use opcua_plc_bridge.Modbus.Mapping.{ModbusMapping}
use opcua_plc_bridge.Modbus.Writes as ModbusWrites
use opcua_plc_bridge.Fins.Mapping.{TagMapping}
use opcua_plc_bridge.Fins.Writes as FinsWrites
use opcua_plc_bridge.Runtime.Config.{TagConfig}
use opcua_plc_bridge.Runtime.Tags.{tagconfig_to_fins_mapping, tagconfig_to_modbus_mapping}
use opcua_plc_bridge.Runtime.WriteHandler.{Sender, Routing}
use opcua_plc_bridge.Runtime.Drivers.{mappings_of, add_routes}

-- Whether an id is configured.
abbrev pub has_id : Str → List TagConfig → Bool
has_id id [] = false
has_id id (t ∷ ts) = str_eq t.id id || has_id id ts

pub lookup-add_routes :
    (new : Sender) (ts : List TagConfig) (routing : Routing) (id : Str) (sender : Sender)
    → lookup id (add_routes new ts routing) ≡ some sender
    → ((sender ≡ new) × (has_id id ts ≡ true)) ⊎ (lookup id routing ≡ some sender)
unfolding add_routes
lookup-add_routes new [] routing id sender e = inr e
lookup-add_routes new (t ∷ ts) routing id sender e =
    elim (lookup-add_routes new ts (insert t.id new routing) id sender e) [
      | inl (same, later) ↦ inl (same, ground arith)
      | inr found ↦ ground (arith, lookup-insert t.id id new routing, found)
    ]

pub lookup-add_routes_some :
    (new : Sender) (ts : List TagConfig) (routing : Routing) (id : Str)
    → is_some (lookup id (add_routes new ts routing))
      ≡ (has_id id ts || is_some (lookup id routing))
unfolding add_routes
lookup-add_routes_some new [] routing id = refl
lookup-add_routes_some new (t ∷ ts) routing id = ground (
  arith,
  lookup-add_routes_some new ts (insert t.id new routing) id,
  lookup-insert t.id id new routing,
)

fins_mapping-id :
    (t : TagConfig) (m : TagMapping) → tagconfig_to_fins_mapping t ≡ ok m → m.tag_id ≡ t.id
unfolding tagconfig_to_fins_mapping
fins_mapping-id t m e = ground arith

modbus_mapping-id :
    (t : TagConfig) (m : ModbusMapping) → tagconfig_to_modbus_mapping t ≡ ok m → m.tag_id ≡ t.id
unfolding tagconfig_to_modbus_mapping
modbus_mapping-id t m e = ground arith

pub fins_found :
    (ts : List TagConfig) (ms : List TagMapping) (id : Str)
    → mappings_of tagconfig_to_fins_mapping ts ≡ ok ms
    → has_id id ts ≡ true
    → is_some (FinsWrites.find_mapping ms id) ≡ true
unfolding mappings_of FinsWrites.find_mapping
fins_found [] ms id e h = cc
fins_found (t ∷ ts) ms id e h =
    let (m, first, rest) = bind-ok (tagconfig_to_fins_mapping t) _ ms e in
    let (others, later, all) = bind-ok (mappings_of tagconfig_to_fins_mapping ts) _ ms rest in
    subst (λ ms. is_some (FinsWrites.find_mapping ms id) ≡ true) (ok-injective all)
      (elim (Bool-cases (str_eq m.tag_id id)) [
        | inl same ↦ rw same refl
        | inr other ↦
            rw other
              (fins_found ts others id later (rw (sym (fins_mapping-id t m first), other) at h))
      ])

pub modbus_found :
    (ts : List TagConfig) (ms : List ModbusMapping) (id : Str)
    → mappings_of tagconfig_to_modbus_mapping ts ≡ ok ms
    → has_id id ts ≡ true
    → is_some (ModbusWrites.find_mapping ms id) ≡ true
unfolding mappings_of ModbusWrites.find_mapping
modbus_found [] ms id e h = cc
modbus_found (t ∷ ts) ms id e h =
    let (m, first, rest) = bind-ok (tagconfig_to_modbus_mapping t) _ ms e in
    let (others, later, all) = bind-ok (mappings_of tagconfig_to_modbus_mapping ts) _ ms rest in
    subst (λ ms. is_some (ModbusWrites.find_mapping ms id) ≡ true) (ok-injective all)
      (elim (Bool-cases (str_eq m.tag_id id)) [
        | inl same ↦ rw same refl
        | inr other ↦
            rw other
              (modbus_found ts others id later (rw (sym (modbus_mapping-id t m first), other) at h))
      ])
