-- ===== src/Fins/Groups/Complete.antt =====
-- What the read groups ask for (driver/fins/src/driver.rs).
use opcua_plc_bridge.Base.{
  ℕ, ◌+◌, ◌^◌, ◌≤◌, ◌<◌, ◌==◌, ==_iff, ◌≡◌, refl, sym, subst, List, [], ◌∷◌, ◌++◌, Option, some,
  All, Any, Any-left, Any-right, arith, Bool-cases, inl, inr, leb,
}
use opcua_plc_bridge.Driver.Sorting.{
  sort_by_key, All-sort_by_key, Any-sort_by_key, sort_by_key-IsSorted,
}
use opcua_plc_bridge.Fins.Mapping.{TagMapping, address_of}
use opcua_plc_bridge.Fins.Areas.{by_area}
use opcua_plc_bridge.Fins.Areas.Entries.{
  EachEntry, by_area-EachEntry, entry, entry-by_area, Any-with_area,
}
use opcua_plc_bridge.Fins.Split.{Request}
use opcua_plc_bridge.Fins.Split.Tiles.{Tiles, split_ends, split-Tiles}
use opcua_plc_bridge.Fins.Validate.Disjoint.{EndsEarly}
use opcua_plc_bridge.Fins.Groups.{
  Range, ReadGroup, total_words, to_groups, append_some, ranges_of, range_groups, area_groups,
  entry_groups, read_groups_of,
}
use opcua_plc_bridge.Fins.Groups.Ranges.{
  Within, IsRange, AnyMember, ranges_of-IsRange, ranges_of-AnyMember,
}

-- The group asks for a word of a mapping that is among its own.
pub record Asks (m : TagMapping) (w : ℕ) (g : ReadGroup) : Type 0 where
  pub same_area : g.area ≡ m.area
  pub member : Any (λ x. x ≡ m) g.mappings
  pub starts : g.start_address ≤ w
  pub ends : w < g.start_address + g.word_count

-- The computation ended with groups, one of which asks for the word.
abbrev pub Found : TagMapping → ℕ → Option (List ReadGroup) → Type 0
Found m w o = (gs : List ReadGroup) × (o ≡ some gs) × Any (Asks m w) gs

abbrev Ended : Option (List ReadGroup) → Type 0
Ended o = (gs : List ReadGroup) × (o ≡ some gs)

append_some-Ended : (o p : Option (List ReadGroup)) → Ended o → Ended p → Ended (append_some o p)
append_some-Ended o p (gs, e) (hs, f) = rw (e, f) (gs ++ hs, refl)

append_some-left :
    (m : TagMapping) (w : ℕ) (o p : Option (List ReadGroup))
    → Found m w o
    → Ended p
    → Found m w (append_some o p)
append_some-left m w o p (gs, e, a) (hs, f) =
    rw (e, f) (gs ++ hs, refl, Any-left (Asks m w) gs hs a)

append_some-right :
    (m : TagMapping) (w : ℕ) (o p : Option (List ReadGroup))
    → Ended o
    → Found m w p
    → Found m w (append_some o p)
append_some-right m w o p (gs, e) (hs, f, a) =
    rw (e, f) (gs ++ hs, refl, Any-right (Asks m w) gs hs a)

total_words-IsRange : (r : Range) → IsRange r → r.start_addr + total_words r ≡ r.end_addr + 1
unfolding total_words
total_words-IsRange r i = let o = i.ordered in let b = i.bounded in omega arith

module _ (limit : ℕ) (l : 0 < limit) (u : limit < 2 ^ 16) where
  Tiles-Asks :
      (m : TagMapping) (w : ℕ) (ms : List TagMapping) (a b : ℕ) (cs : List Request)
      → Tiles limit a b cs
      → Any (λ x. x ≡ m) ms
      → a ≤ w
      → w < b
      → Any (Asks m w) (to_groups m.area ms cs)
  Tiles-Asks m w ms a b [] t h s e = absurd (omega (arith, t))
  Tiles-Asks m w ms a b (c ∷ cs) (start, positive, small, rest) h s e =
      elim (Bool-cases (leb (a + c.word_count) w)) [
        | inl later ↦ inr (Tiles-Asks m w ms (a + c.word_count) b cs rest h (ground arith) e)
        | inr now ↦ inl (record {
          same_area = refl;
          member = h;
          starts = omega (arith, start);
          ends = ground (arith, start);
        })
      ]

  range_groups-Ended : (area : ℕ) (r : Range) → Ended (range_groups limit area r)
  unfolding range_groups
  range_groups-Ended area r =
      let (cs, e) =
        split_ends (total_words r) limit r.start_addr (total_words r) l u (omega arith) in
      rw e (to_groups area r.group_mappings cs, refl)

  range_groups-Found :
      (m : TagMapping) (w : ℕ) (r : Range)
      → IsRange r
      → Any (λ x. x ≡ m) r.group_mappings
      → r.start_addr ≤ w
      → w < r.end_addr + 1
      → Found m w (range_groups limit m.area r)
  unfolding range_groups
  range_groups-Found m w r i h s e =
      let (cs, eq, tiles) =
        split-Tiles (total_words r) limit r.start_addr (total_words r) l u (omega arith)
          (let o = i.ordered in let b = i.bounded in omega (arith, total_words-IsRange r i)) in
      rw eq (
        to_groups m.area r.group_mappings cs,
        refl,
        Tiles-Asks m w r.group_mappings r.start_addr (r.start_addr + total_words r) cs tiles h s
            (omega (arith, total_words-IsRange r i)),
      )

  area_groups-Ended : (area : ℕ) (rs : List Range) → Ended (area_groups limit area rs)
  unfolding area_groups
  area_groups-Ended area [] = ([], refl)
  area_groups-Ended area (r ∷ rs) =
      append_some-Ended (range_groups limit area r) (area_groups limit area rs)
        (range_groups-Ended area r) (area_groups-Ended area rs)

  Any-Within :
      (m : TagMapping) (r : Range) (ms : List TagMapping)
      → All (Within r) ms
      → Any (λ x. x ≡ m) ms
      → Within r m
  Any-Within m r [] h k = absurd k
  Any-Within m r (x ∷ ms) h (inl e) = subst (Within r) e h.0
  Any-Within m r (x ∷ ms) h (inr k) = Any-Within m r ms h.1 k

  area_groups-Found :
      (m : TagMapping) (w : ℕ) (rs : List Range)
      → All IsRange rs
      → Any (AnyMember (λ x. x ≡ m)) rs
      → m.address ≤ w
      → w < m.address + m.word_count
      → Found m w (area_groups limit m.area rs)
  unfolding area_groups
  area_groups-Found m w [] i h s e = absurd h
  area_groups-Found m w (r ∷ rs) i (inl h) s e =
      let (from, to) = Any-Within m r r.group_mappings i.0.members h in
      append_some-left m w (range_groups limit m.area r) (area_groups limit m.area rs)
        (range_groups-Found m w r i.0 h (omega (arith, from)) (omega (arith, to)))
        (area_groups-Ended m.area rs)
  area_groups-Found m w (r ∷ rs) i (inr h) s e =
      append_some-right m w (range_groups limit m.area r) (area_groups limit m.area rs)
        (range_groups-Ended m.area r) (area_groups-Found m w rs i.1 h s e)

  entry_groups-Ended : (es : List (ℕ × List TagMapping)) → Ended (entry_groups limit es)
  unfolding entry_groups
  entry_groups-Ended [] = ([], refl)
  entry_groups-Ended ((area, ms) ∷ es) =
      append_some-Ended (area_groups limit area (ranges_of (sort_by_key address_of ms)))
        (entry_groups limit es) (area_groups-Ended area (ranges_of (sort_by_key address_of ms)))
        (entry_groups-Ended es)

  entry_groups-Found :
      (m : TagMapping) (w : ℕ) (es : List (ℕ × List TagMapping))
      → EachEntry EndsEarly es
      → Any (λ x. x ≡ m) (entry m.area es)
      → m.address ≤ w
      → w < m.address + m.word_count
      → Found m w (entry_groups limit es)
  unfolding entry_groups
  entry_groups-Found m w [] i h s e = absurd h
  entry_groups-Found m w ((area, ms) ∷ es) i h s e = elim (Bool-cases (area == m.area)) [
    | inl mine ↦
        let here : area ≡ m.area = (==_iff area m.area).0 mine in
        let k : Any (λ x. x ≡ m) ms = rw mine at h in
        let sorted : List TagMapping = sort_by_key address_of ms in
        append_some-left m w (area_groups limit area (ranges_of sorted)) (entry_groups limit es)
          (subst (λ a. Found m w (area_groups limit a (ranges_of sorted))) (sym here)
            (area_groups-Found m w (ranges_of sorted)
              (ranges_of-IsRange sorted (All-sort_by_key address_of EndsEarly ms i.0)
                (sort_by_key-IsSorted address_of ms))
              (ranges_of-AnyMember (λ x. x ≡ m) sorted
                (Any-sort_by_key address_of (λ x. x ≡ m) ms k))
              s e))
          (entry_groups-Ended es)
    | inr other ↦
        let k : Any (λ x. x ≡ m) (entry m.area es) = rw other at h in
        append_some-right m w (area_groups limit area (ranges_of (sort_by_key address_of ms)))
          (entry_groups limit es) (area_groups-Ended area (ranges_of (sort_by_key address_of ms)))
          (entry_groups-Found m w es i.1 k s e)
  ]

  -- With a limit from 1 to 65535 the computation of the read groups ends, and where the mappings of
  -- the configuration have a word each and end before address 2 ^ 32 - 1, every word of every mapping
  -- is asked for: some group of the mapping's area spans the word and has the mapping among its
  -- members.
  pub read_groups_cover :
      (ms : List TagMapping) (m : TagMapping) (w : ℕ)
      → All EndsEarly ms
      → Any (λ x. x ≡ m) ms
      → m.address ≤ w
      → w < m.address + m.word_count
      → Found m w (read_groups_of limit ms)
  unfolding read_groups_of
  read_groups_cover ms m w early h s e =
      entry_groups-Found m w (by_area ms []) (by_area-EachEntry EndsEarly ms [] early tt)
        (subst (Any (λ x. x ≡ m)) (sym (entry-by_area m.area ms)) (Any-with_area m ms h)) s e
