-- ===== src/Fins/Split.antt =====
-- driver/fins/src/driver.rs: how `FinsDriver::new` splits a range of words into requests.
pub mod Tiles
use opcua_plc_bridge.Base.{
  ℕ, zero, suc, ◌+◌, ◌-◌, ◌%◌, ◌^◌, min, List, [], ◌∷◌, Option, none, some, ◌==◌, if◌then◌else◌,
}

-- The place of a `ReadGroup`.
pub record Request : Type 0 where
  pub start_address : ℕ
  pub word_count : ℕ

abbrev prepend : Request → Option (List Request) → Option (List Request)
prepend r none = none
prepend r (some rs) = some (r ∷ rs)

-- The rounds of `while remaining > 0`, on fuel: `none` is a loop that has not ended. `as u16` cuts the
-- length of a request to its low two bytes, and `chunk_start` wraps as a `u32`.
unfoldable pub split : ℕ → ℕ → ℕ → ℕ → Option (List Request)
split zero limit start remaining = if remaining == 0 then some [] else none
split (suc fuel) limit start remaining =
    let chunk_words = min remaining limit % 2 ^ 16 in
    let rest = split fuel limit ((start + chunk_words) % 2 ^ 32) (remaining - chunk_words) in
    if remaining == 0
    then some []
    else prepend (record { start_address = start; word_count = chunk_words }) rest
