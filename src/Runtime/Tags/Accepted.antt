-- ===== src/Runtime/Tags/Accepted.antt =====
-- What the Modbus driver's checks say of configured mappings (runtime/src/tags.rs).
use opcua_plc_bridge.Base.{
  ℕ, ◌^◌, ◌<◌, ◌≤◌, ◌≡◌, refl, ◌↔◌, ◌⊎◌, inl, inr, Bool-cases, false, ◌&&◌, ltb, ok, arith,
}
use opcua_plc_bridge.Core.WordOrder.{WordOrder}
use opcua_plc_bridge.Modbus.Mapping.{ModbusMapping}
use opcua_plc_bridge.Modbus.Validate.{swaps_words, check_mapping}
use opcua_plc_bridge.Modbus.Validate.Disjoint.{IsAcceptable, check_mapping_iff}
use opcua_plc_bridge.Runtime.Config.{TagConfig}
use opcua_plc_bridge.Runtime.Tags.{
  normalize, check_words, default_function, tagconfig_to_modbus_mapping,
}

mapping-IsAcceptable :
    (t : TagConfig) (m : ModbusMapping)
    → tagconfig_to_modbus_mapping t ≡ ok m
    → 0 < m.quantity
    → (swaps_words m.byte_order && ltb m.quantity 2) ≡ false
    → IsAcceptable m
unfolding tagconfig_to_modbus_mapping normalize check_words default_function
mapping-IsAcceptable t m e positive order = ground arith

positive_quantity : (m : ModbusMapping) → IsAcceptable m → 0 < m.quantity
positive_quantity m h = let sized = h.sized in ground arith

wide_enough :
    (o : WordOrder) (n : ℕ) → (swaps_words o && ltb n 2) ≡ false → (swaps_words o ≡ false) ⊎ (2 ≤ n)
wide_enough o n e = elim (Bool-cases (swaps_words o)) [
  | inl swaps ↦ inr (ground arith)
  | inr plain ↦ inl plain
]

narrow_order :
    (o : WordOrder) (n : ℕ) → (swaps_words o ≡ false) ⊎ (2 ≤ n) → (swaps_words o && ltb n 2) ≡ false
narrow_order o n (inl plain) = rw plain refl
narrow_order o n (inr wide) = ground arith

-- What the runtime's conversion leaves to the Modbus driver's `check_mapping`: a mapping that the
-- configuration gives has an address below 65536, and passes the driver's checks of one mapping
-- exactly when its quantity is not 0 and is at least 2 where its byte order swaps words; the others
-- of these checks never refuse it.
pub modbus_mapping_checked :
    (t : TagConfig) (m : ModbusMapping)
    → tagconfig_to_modbus_mapping t ≡ ok m
    → (m.address < 2 ^ 16)
      × ((check_mapping m ≡ ok tt)
          ↔ ((0 < m.quantity) × ((swaps_words m.byte_order ≡ false) ⊎ (2 ≤ m.quantity))))
unfolding tagconfig_to_modbus_mapping normalize
modbus_mapping_checked t m e = (
  ground arith,
  (
    λ passes.
        let h = (check_mapping_iff m).0 passes in
        (positive_quantity m h, wide_enough m.byte_order m.quantity h.order),
    λ (positive, order).
        (check_mapping_iff m).1
          (mapping-IsAcceptable t m e positive (narrow_order m.byte_order m.quantity order)),
  ),
)
