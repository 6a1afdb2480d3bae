-- ===== src/Fins/Groups.antt =====
-- driver/fins/src/driver.rs: the read groups that `FinsDriver::new` computes. Addresses are `u32`,
-- whose arithmetic wraps in a release build.
pub mod Ranges
pub mod Complete
use opcua_plc_bridge.Base.{
  ℕ, ◌+◌, ◌-◌, ◌%◌, ◌^◌, Bool, List, [], ◌∷◌, ◌++◌, Option, none, some, leb, ltb, ◌==◌,
  if◌then◌else◌,
}
use opcua_plc_bridge.Driver.Sorting.{sort_by_key}
use opcua_plc_bridge.Fins.Mapping.{TagMapping, address_of}
use opcua_plc_bridge.Fins.Areas.{by_area}
use opcua_plc_bridge.Fins.Split.{Request, split}

pub record ReadGroup : Type 0 where
  pub area : ℕ
  pub start_address : ℕ
  pub word_count : ℕ
  pub mappings : List TagMapping

abbrev pub add32 : ℕ → ℕ → ℕ
add32 a b = (a + b) % 2 ^ 32

abbrev pub sub32 : ℕ → ℕ → ℕ
sub32 a b = (a + 2 ^ 32 - b) % 2 ^ 32

-- `address + (word_count as u32) - 1`
abbrev pub end32 : ℕ → ℕ → ℕ
end32 address count = sub32 (add32 address count) 1

-- `start_addr`, `end_addr` and `group_mappings` of the loop over the sorted mappings of an area.
pub record Range : Type 0 where
  pub start_addr : ℕ
  pub end_addr : ℕ
  pub group_mappings : List TagMapping

abbrev pub single : TagMapping → Range
single m = record {
  start_addr = m.address;
  end_addr = end32 m.address m.word_count;
  group_mappings = m ∷ [];
}

-- The body of `while j < maps.len()`.
unfoldable pub extend : Range → TagMapping → Range
extend r next =
    let candidate_end = end32 next.address next.word_count in
    record r {
      end_addr = if ltb r.end_addr candidate_end then candidate_end else r.end_addr;
      group_mappings = r.group_mappings ++ (next ∷ []);
    }

-- `next.address <= end_addr + 1`
abbrev pub joins : Range → TagMapping → Bool
joins r next = leb next.address (add32 r.end_addr 1)

unfoldable pub ranges_from : Range → List TagMapping → List Range
unfolding extend
ranges_from last [] = last ∷ []
ranges_from last (m ∷ ms) =
    let joined = ranges_from (extend last m) ms in
    let apart = ranges_from (single m) ms in if joins last m then joined else last ∷ apart

unfoldable pub ranges_of : List TagMapping → List Range
unfolding ranges_from
ranges_of [] = []
ranges_of (m ∷ ms) = ranges_from (single m) ms

-- `end_addr - start_addr + 1`
unfoldable pub total_words : Range → ℕ
total_words r = add32 (sub32 r.end_addr r.start_addr) 1

abbrev pub to_group : ℕ → List TagMapping → Request → ReadGroup
to_group area ms c = record {
  area = area;
  start_address = c.start_address;
  word_count = c.word_count;
  mappings = ms;
}

abbrev pub to_groups : ℕ → List TagMapping → List Request → List ReadGroup
to_groups area ms [] = []
to_groups area ms (c ∷ cs) = to_group area ms c ∷ to_groups area ms cs

abbrev pub append_some : Option (List ReadGroup) → Option (List ReadGroup) → Option (List ReadGroup)
append_some (some gs) (some rest) = some (gs ++ rest)
append_some _ _ = none

abbrev pub all_to_groups : ℕ → List TagMapping → Option (List Request) → Option (List ReadGroup)
all_to_groups area ms none = none
all_to_groups area ms (some cs) = some (to_groups area ms cs)

-- The requests of a range. Its number of words is fuel enough; `none` is a loop that does not end.
unfoldable pub range_groups : ℕ → ℕ → Range → Option (List ReadGroup)
unfolding total_words
range_groups limit area r =
    all_to_groups area r.group_mappings (split (total_words r) limit r.start_addr (total_words r))

unfoldable pub area_groups : ℕ → ℕ → List Range → Option (List ReadGroup)
unfolding range_groups
area_groups limit area [] = some []
area_groups limit area (r ∷ rs) =
    append_some (range_groups limit area r) (area_groups limit area rs)

unfoldable pub entry_groups : ℕ → List (ℕ × List TagMapping) → Option (List ReadGroup)
unfolding area_groups ranges_of
entry_groups limit [] = some []
entry_groups limit ((area, ms) ∷ rest) =
    append_some (area_groups limit area (ranges_of (sort_by_key address_of ms)))
      (entry_groups limit rest)

-- `FinsDriver::new`, with `limit` for `config.max_words_per_request`.
unfoldable pub read_groups_of : ℕ → List TagMapping → Option (List ReadGroup)
unfolding entry_groups by_area
read_groups_of limit ms = entry_groups limit (by_area ms [])
