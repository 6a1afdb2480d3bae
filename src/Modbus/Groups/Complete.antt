-- ===== src/Modbus/Groups/Complete.antt =====
-- The members of the groups and the gaps between them (driver/modbus/src/driver.rs).
use opcua_plc_bridge.Base.{
  ℕ, ◌+◌, ◌≤◌, ◌<◌, ◌≡◌, refl, ◌∙◌, ap, List, [], ◌∷◌, ◌++◌, All, arith, Bool-cases, inl, inr,
}
use mathlib.Core.List.{append_assoc}
use opcua_plc_bridge.Modbus.Mapping.{ModbusFunction, ModbusMapping}
use opcua_plc_bridge.Modbus.Validate.Sorting.{with_function, address_of}
use opcua_plc_bridge.Driver.Sorting.{sort_by_key, IsSorted, sort_by_key-IsSorted, All-sort_by_key}
use opcua_plc_bridge.Modbus.Validate.Disjoint.{EndsEarly, All-with_function}
use opcua_plc_bridge.Modbus.Groups.{Group, single, extend, joins, group_from, group_all, groups_of}
use opcua_plc_bridge.Modbus.Groups.Cover.{IsCovering, single-IsCovering, extend-IsCovering}

-- All members, group by group.
abbrev pub members_of : List Group → List ModbusMapping
members_of [] = []
members_of (g ∷ gs) = g.members ++ members_of gs

-- Each group ends at least one register before the next one starts.
abbrev pub AreApart : List Group → Type 0
AreApart (g ∷ h ∷ gs) = (g.start + g.quantity < h.start) × AreApart (h ∷ gs)
AreApart _ = Unit {0}

AreApart-cons :
    (g h : Group) (gs : List Group)
    → g.start + g.quantity < h.start
    → AreApart (h ∷ gs)
    → AreApart (g ∷ h ∷ gs)
AreApart-cons g h gs lt a = (lt, a)

All-from :
    (a b : ℕ) (ms : List ModbusMapping)
    → a ≤ b
    → All (λ x. b ≤ x.address) ms
    → All (λ x. a ≤ x.address) ms
All-from a b [] le h = tt
All-from a b (m ∷ ms) le h = (omega arith, All-from a b ms le h.1)

members-group_from :
    (last : Group) (ms : List ModbusMapping) → members_of (group_from last ms) ≡ last.members ++ ms
unfolding group_from
members-group_from last [] = refl
members-group_from last (m ∷ ms) = elim (Bool-cases (joins last m)) [
  | inl yes_ ↦ rw yes_ (
      members-group_from (extend last m) ms
      ∙ unfold extend in append_assoc last.members (m ∷ []) ms)
  | inr no_ ↦ rw no_ (ap (λ xs. last.members ++ xs) (members-group_from (single m) ms))
]

-- The facts that the loop keeps.
record CanExtend (last : Group) (ms : List ModbusMapping) : Type 0 where
  covering : IsCovering last
  early : All EndsEarly ms
  sorted : IsSorted address_of ms
  later : All (λ x. last.start ≤ x.address) ms

extended :
    (last : Group) (m : ModbusMapping) (ms : List ModbusMapping)
    → CanExtend last (m ∷ ms)
    → CanExtend (extend last m) ms
extended last m ms c = record {
  covering = extend-IsCovering last m c.covering c.early.0 c.later.0;
  early = c.early.1;
  sorted = c.sorted.1;
  later = unfold extend in c.later.1;
}

restarted :
    (last : Group) (m : ModbusMapping) (ms : List ModbusMapping)
    → CanExtend last (m ∷ ms)
    → CanExtend (single m) ms
restarted last m ms c = record {
  covering = single-IsCovering m c.early.0;
  early = c.early.1;
  sorted = c.sorted.1;
  later = c.sorted.0;
}

group_from-IsCovering :
    (last : Group) (ms : List ModbusMapping)
    → CanExtend last ms
    → All IsCovering (group_from last ms)
unfolding group_from
group_from-IsCovering last [] c = (c.covering, tt)
group_from-IsCovering last (m ∷ ms) c = elim (Bool-cases (joins last m)) [
  | inl yes_ ↦ rw yes_ (group_from-IsCovering (extend last m) ms (extended last m ms c))
  | inr no_ ↦ rw no_ (c.covering, group_from-IsCovering (single m) ms (restarted last m ms c))
]

-- The groups from `last` on begin where it begins.
Starts : ℕ → List Group → Type 0
Starts n [] = ⊥
Starts n (g ∷ gs) = g.start ≡ n

group_from-Starts :
    (last : Group) (ms : List ModbusMapping) → Starts last.start (group_from last ms)
unfolding group_from Starts
group_from-Starts last [] = refl
group_from-Starts last (m ∷ ms) = elim (Bool-cases (joins last m)) [
  | inl yes_ ↦ rw yes_ (unfold extend in group_from-Starts (extend last m) ms)
  | inr no_ ↦ rw no_ refl
]

AreApart-before :
    (g : Group) (n : ℕ) (gs : List Group)
    → g.start + g.quantity < n
    → Starts n gs
    → AreApart gs
    → AreApart (g ∷ gs)
unfolding Starts
AreApart-before g n [] lt s a = absurd s
AreApart-before g n (h ∷ gs) lt s a = (omega arith, a)

group_from-AreApart :
    (last : Group) (ms : List ModbusMapping) → CanExtend last ms → AreApart (group_from last ms)
unfolding group_from
group_from-AreApart last [] c = tt
group_from-AreApart last (m ∷ ms) c = elim (Bool-cases (joins last m)) [
  | inl yes_ ↦ rw yes_ (group_from-AreApart (extend last m) ms (extended last m ms c))
  | inr no_ ↦
      let filled = c.covering.filled in
      let bounded = c.covering.bounded in
      rw no_ (
        AreApart-before last m.address (group_from (single m) ms) (ground arith)
          (group_from-Starts (single m) ms)
          (group_from-AreApart (single m) ms (restarted last m ms c)))
]

abbrev Complete : List Group → List ModbusMapping → Type 0
Complete gs ms = All IsCovering gs × AreApart gs × (members_of gs ≡ ms)

group_all-Complete :
    (ms : List ModbusMapping)
    → All EndsEarly ms
    → IsSorted address_of ms
    → Complete (group_all ms) ms
group_all-Complete [] e s = (tt, tt, refl)
group_all-Complete (m ∷ ms) e s =
    let c : CanExtend (single m) ms = record {
      covering = single-IsCovering m e.0;
      early = e.1;
      sorted = s.1;
      later = s.0;
    } in
    (
      group_from-IsCovering (single m) ms c,
      group_from-AreApart (single m) ms c,
      members-group_from (single m) ms,
    )

-- Where the mappings have a register each and end before register 65535, the groups of a function
-- hold exactly its mappings, in the order of their addresses; every group is a range of registers
-- below 65536 with each of its members inside; and between two groups a register is left out.
pub groups_of_complete :
    (f : ModbusFunction) (ms : List ModbusMapping)
    → All EndsEarly ms
    → All IsCovering (groups_of f ms)
      × AreApart (groups_of f ms)
      × (members_of (groups_of f ms) ≡ sort_by_key address_of (with_function f ms))
unfolding groups_of
groups_of_complete f ms e =
    group_all-Complete (sort_by_key address_of (with_function f ms))
      (All-sort_by_key address_of EndsEarly (with_function f ms)
        (All-with_function EndsEarly f ms e))
      (sort_by_key-IsSorted address_of (with_function f ms))
