-- ===== src/Fins/Groups/Ranges.antt =====
-- The ranges of the mappings of an area (driver/fins/src/driver.rs).
use opcua_plc_bridge.Base.{
  ℕ, ◌+◌, ◌^◌, ◌≤◌, ◌<◌, ◌⊎◌, List, [], ◌∷◌, ◌++◌, All, Any, Any-left, Any-right, arith, Bool-cases,
  inl, inr,
}
use opcua_plc_bridge.Driver.Sorting.{IsSorted}
use opcua_plc_bridge.Fins.Mapping.{TagMapping, address_of}
use opcua_plc_bridge.Fins.Validate.Disjoint.{EndsEarly}
use opcua_plc_bridge.Fins.Groups.{Range, single, extend, joins, ranges_from, ranges_of}

-- The mapping lies inside the range.
abbrev pub Within : Range → TagMapping → Type 0
Within r m = (r.start_addr ≤ m.address) × (m.address + m.word_count ≤ r.end_addr + 1)

-- A range ends before the last address and has its mappings inside.
pub record IsRange (r : Range) : Type 0 where
  pub ordered : r.start_addr ≤ r.end_addr
  pub bounded : r.end_addr + 1 < 2 ^ 32
  pub members : All (Within r) r.group_mappings

-- The facts that the loop keeps.
record CanExtend (last : Range) (ms : List TagMapping) : Type 0 where
  range : IsRange last
  early : All EndsEarly ms
  sorted : IsSorted address_of ms
  later : All (λ x. last.start_addr ≤ x.address) ms

single-IsRange : (m : TagMapping) → EndsEarly m → IsRange (single m)
single-IsRange m e = record {
  ordered = omega (arith, e.0, e.1);
  bounded = omega (arith, e.0, e.1);
  members = ((omega arith, omega (arith, e.0, e.1)), tt);
}

extended-members :
    (r : Range) (next : TagMapping) (ms : List TagMapping) (e : ℕ)
    → r.end_addr ≤ e
    → r.start_addr ≤ next.address
    → next.address + next.word_count ≤ e + 1
    → All (Within r) ms
    → All (λ m. (r.start_addr ≤ m.address) × (m.address + m.word_count ≤ e + 1)) (ms ++ (next ∷ []))
extended-members r next [] e le s t h = ((s, t), tt)
extended-members r next (m ∷ ms) e le s t h =
    ((h.0.0, omega (arith, h.0.1)), extended-members r next ms e le s t h.1)

extend-IsRange :
    (r : Range) (m : TagMapping)
    → IsRange r
    → EndsEarly m
    → r.start_addr ≤ m.address
    → IsRange (extend r m)
unfolding extend
extend-IsRange r m i e s =
    let o = i.ordered in
    let b = i.bounded in
    let (filled, early) = e in
    record {
      ordered = ground arith;
      bounded = ground arith;
      members = extended-members r m r.group_mappings _ (ground arith) s (ground arith) i.members;
    }

ranges_from-IsRange :
    (last : Range) (ms : List TagMapping) → CanExtend last ms → All IsRange (ranges_from last ms)
unfolding ranges_from
ranges_from-IsRange last [] c = (c.range, tt)
ranges_from-IsRange last (m ∷ ms) c = elim (Bool-cases (joins last m)) [
  | inl joined ↦ rw joined (
      ranges_from-IsRange (extend last m) ms (record {
        range = extend-IsRange last m c.range c.early.0 c.later.0;
        early = c.early.1;
        sorted = c.sorted.1;
        later = unfold extend in c.later.1;
      }))
  | inr apart ↦ rw apart (
    c.range,
    ranges_from-IsRange (single m) ms (record {
      range = single-IsRange m c.early.0;
      early = c.early.1;
      sorted = c.sorted.1;
      later = c.sorted.0;
    }),
  )
]

-- Some mapping of the range has the property.
abbrev pub AnyMember : (TagMapping → Type 0) → Range → Type 0
AnyMember P r = Any P r.group_mappings

ranges_from-AnyMember :
    (P : TagMapping → Type 0) (last : Range) (ms : List TagMapping)
    → Any P last.group_mappings ⊎ Any P ms
    → Any (AnyMember P) (ranges_from last ms)
unfolding ranges_from
ranges_from-AnyMember P last [] (inl h) = inl h
ranges_from-AnyMember P last [] (inr h) = absurd h
ranges_from-AnyMember P last (m ∷ ms) h = elim (Bool-cases (joins last m)) [
  | inl joined ↦ rw joined (ranges_from-AnyMember P (extend last m) ms (unfold extend in moved h))
  | inr apart ↦ rw apart (elim h [
    | inl k ↦ inl k
    | inr (inl p) ↦ inr (ranges_from-AnyMember P (single m) ms (inl (inl p)))
    | inr (inr k) ↦ inr (ranges_from-AnyMember P (single m) ms (inr k))
  ])
]
  where
    moved :
        Any P last.group_mappings ⊎ Any P (m ∷ ms)
        → Any P (last.group_mappings ++ (m ∷ [])) ⊎ Any P ms
    moved (inl k) = inl (Any-left P last.group_mappings (m ∷ []) k)
    moved (inr (inl p)) = inl (Any-right P last.group_mappings (m ∷ []) (inl p))
    moved (inr (inr k)) = inr k

pub ranges_of-IsRange :
    (ms : List TagMapping) → All EndsEarly ms → IsSorted address_of ms → All IsRange (ranges_of ms)
unfolding ranges_of
ranges_of-IsRange [] e s = tt
ranges_of-IsRange (m ∷ ms) e s =
    ranges_from-IsRange (single m) ms
      (record { range = single-IsRange m e.0; early = e.1; sorted = s.1; later = s.0 })

pub ranges_of-AnyMember :
    (P : TagMapping → Type 0) (ms : List TagMapping) → Any P ms → Any (AnyMember P) (ranges_of ms)
unfolding ranges_of
ranges_of-AnyMember P [] h = absurd h
ranges_of-AnyMember P (m ∷ ms) (inl p) = ranges_from-AnyMember P (single m) ms (inl (inl p))
ranges_of-AnyMember P (m ∷ ms) (inr h) = ranges_from-AnyMember P (single m) ms (inr h)
