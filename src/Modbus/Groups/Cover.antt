-- ===== src/Modbus/Groups/Cover.antt =====
-- The ranges of the groups of a read cycle and their members (driver/modbus/src/driver.rs).
use opcua_plc_bridge.Base.{◌+◌, ◌^◌, ◌≤◌, ◌<◌, max, ◌≡◌, refl, List, [], ◌∷◌, ◌++◌, All, arith}
use opcua_plc_bridge.Modbus.Mapping.{ModbusMapping}
use opcua_plc_bridge.Modbus.Validate.Disjoint.{EndsEarly}
use opcua_plc_bridge.Modbus.Groups.{Group, single, extend}

-- The mapping lies inside the range of the group.
abbrev pub Inside : Group → ModbusMapping → Type 0
Inside g m = (g.start ≤ m.address) × (m.address + m.quantity ≤ g.start + g.quantity)

-- A range of `u16` registers, not empty, with every member inside.
pub record IsCovering (g : Group) : Type 0 where
  pub filled : 0 < g.quantity
  pub bounded : g.start + g.quantity < 2 ^ 16
  pub inside : All (Inside g) g.members

All-wider :
    (g h : Group) (ms : List ModbusMapping)
    → g.start ≡ h.start
    → g.quantity ≤ h.quantity
    → All (Inside g) ms
    → All (Inside h) ms
All-wider g h [] e le a = tt
All-wider g h (m ∷ ms) e le a = ((omega arith, omega arith), All-wider g h ms e le a.1)

All-snoc :
    (g : Group) (ms : List ModbusMapping) (m : ModbusMapping)
    → All (Inside g) ms
    → Inside g m
    → All (Inside g) (ms ++ (m ∷ []))
All-snoc g [] m a h = (h, tt)
All-snoc g (x ∷ ms) m a h = (a.0, All-snoc g ms m a.1 h)

extend_range :
    (g : Group) (m : ModbusMapping)
    → IsCovering g
    → EndsEarly m
    → g.start ≤ m.address
    → ((extend g m).start ≡ g.start)
      × ((extend g m).start + (extend g m).quantity
          ≡ max (g.start + g.quantity) (m.address + m.quantity))
unfolding extend
extend_range g m c e s = (refl, omega (arith, c.filled, c.bounded))

pub single-IsCovering : (m : ModbusMapping) → EndsEarly m → IsCovering (single m)
single-IsCovering m e = record {
  filled = e.0;
  bounded = e.1;
  inside = ((omega arith, omega arith), tt);
}

pub extend-IsCovering :
    (g : Group) (m : ModbusMapping)
    → IsCovering g
    → EndsEarly m
    → g.start ≤ m.address
    → IsCovering (extend g m)
extend-IsCovering g m c e s =
    let (same, range) = extend_range g m c e s in
    record {
      filled = omega (arith, c.filled);
      bounded = omega (arith, c.bounded);
      inside =
          unfold extend in
          All-snoc (extend g m) g.members m
            (All-wider g (extend g m) g.members refl (omega arith) c.inside)
            (omega arith, omega arith);
    }
