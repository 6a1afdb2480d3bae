-- ===== src/Fins/Validate/Disjoint.antt =====
-- What `validate` (driver/fins/src/driver.rs) accepts.
use opcua_plc_bridge.Base.{
  ℕ, ◌+◌, ◌^◌, ◌≤◌, ◌<◌, ◌≡◌, refl, subst, ◌⊎◌, inl, inr, false, ◌&&◌, ◌==◌, List, [], ◌∷◌, All,
  ltb, ok, arith, Bool-cases,
}
use opcua_plc_bridge.Driver.Sorting.{
  AllPairs, sort_by_key, IsSorted, All-sort_by_key, sort_by_key-IsSorted, sort-AllPairs,
}
use opcua_plc_bridge.Modbus.Validate.{swaps_words}
use opcua_plc_bridge.Modbus.Validate.Disjoint.{min_quantity}
use opcua_plc_bridge.Fins.Mapping.{TagMapping, address_of}
use opcua_plc_bridge.Fins.Areas.{by_area}
use opcua_plc_bridge.Fins.Areas.Entries.{with_area, entry, entry-by_area, All-with_area}
use opcua_plc_bridge.Fins.Validate.{
  check_mapping, check_mappings, check_neighbours, check_areas, validate,
}

pub record IsAcceptable (m : TagMapping) : Type 0 where
  pub sized : min_quantity m.data_type ≤ m.word_count
  pub bit : m.bit_offset < 16
  pub order : (swaps_words m.byte_order && ltb m.word_count 2) ≡ false

check_mapping-IsAcceptable : (m : TagMapping) → check_mapping m ≡ ok tt → IsAcceptable m
unfolding check_mapping
check_mapping-IsAcceptable m e = ground arith

checked_mappings : (ms : List TagMapping) → check_mappings ms ≡ ok tt → All IsAcceptable ms
unfolding check_mappings
checked_mappings [] e = tt
checked_mappings (m ∷ ms) e =
    (check_mapping-IsAcceptable m (ground arith), checked_mappings ms (ground arith))

-- No word belongs to both.
abbrev pub Disjoint : TagMapping → TagMapping → Type 0
Disjoint m n = (m.address + m.word_count ≤ n.address) ⊎ (n.address + n.word_count ≤ m.address)

Disjoint-symm : (m n : TagMapping) → Disjoint m n → Disjoint n m
Disjoint-symm m n (inl h) = inr h
Disjoint-symm m n (inr h) = inl h

-- The mapping ends below the last address, 2 ^ 32 - 1.
abbrev pub EndsEarly : TagMapping → Type 0
EndsEarly m = (0 < m.word_count) × (m.address + m.word_count < 2 ^ 32)

All-before :
    (cur next : TagMapping) (ms : List TagMapping)
    → cur.address + cur.word_count ≤ next.address
    → All (λ x. next.address ≤ x.address) ms
    → All (Disjoint cur) ms
All-before cur next [] h k = tt
All-before cur next (x ∷ ms) h k = (inl (omega arith), All-before cur next ms h k.1)

neighbours-AllPairs :
    (xs : List TagMapping)
    → check_neighbours xs ≡ ok tt
    → IsSorted address_of xs
    → All EndsEarly xs
    → AllPairs Disjoint xs
unfolding check_neighbours
neighbours-AllPairs [] e s h = tt
neighbours-AllPairs (m ∷ []) e s h = (tt, tt)
neighbours-AllPairs (cur ∷ next ∷ ms) e s h =
    let gap : cur.address + cur.word_count ≤ next.address = ground arith in
    let rest : check_neighbours (next ∷ ms) ≡ ok tt = ground arith in
    ((inl gap, All-before cur next ms gap s.1.0), neighbours-AllPairs (next ∷ ms) rest s.1 h.1)

checked_areas :
    (a : ℕ) (es : List (ℕ × List TagMapping))
    → check_areas es ≡ ok tt
    → check_neighbours (sort_by_key address_of (entry a es)) ≡ ok tt
unfolding check_areas check_neighbours sort_by_key
checked_areas a [] e = refl
checked_areas a ((area, ms) ∷ es) e = elim (Bool-cases (area == a)) [
  | inl mine ↦ rw mine (ground arith)
  | inr other ↦ rw other (checked_areas a es (ground arith))
]

-- Where the FINS driver's `validate` accepts a configuration whose mappings have a word each and end
-- before address 2 ^ 32 - 1, every mapping has the words that its type needs, as far as `validate`
-- knows, a bit offset below 16, and two words where words are swapped; and no two mappings of one
-- memory area, neighbours in the configuration or not, share a word.
pub fins_validate_sound :
    (ms : List TagMapping) (a : ℕ)
    → All EndsEarly ms
    → validate ms ≡ ok tt
    → All IsAcceptable ms × AllPairs Disjoint (with_area a ms)
unfolding validate
fins_validate_sound ms a early e =
    let xs : List TagMapping = with_area a ms in
    let checked : check_neighbours (sort_by_key address_of xs) ≡ ok tt =
      subst (λ ys. check_neighbours (sort_by_key address_of ys) ≡ ok tt) (entry-by_area a ms)
        (checked_areas a (by_area ms []) (ground arith)) in
    (
      checked_mappings ms (ground arith),
      sort-AllPairs address_of Disjoint Disjoint-symm xs (
          neighbours-AllPairs (sort_by_key address_of xs) checked
            (sort_by_key-IsSorted address_of xs)
            (All-sort_by_key address_of EndsEarly xs (All-with_area EndsEarly a ms early))),
    )
