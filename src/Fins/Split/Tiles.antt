-- ===== src/Fins/Split/Tiles.antt =====
-- The requests of a range and its words (driver/fins/src/driver.rs).
use opcua_plc_bridge.Base.{
  ℕ, zero, suc, ◌+◌, ◌-◌, ◌%◌, ◌^◌, ◌≤◌, ◌<◌, ◌≡◌, refl, min, List, [], ◌∷◌, none, some, arith,
  ◌==◌, true, false, ==_iff, subst, Bool-cases, inl, inr,
}
use opcua_plc_bridge.Fins.Split.{Request, split}

-- The requests follow one another from `a` up to `b`, none empty and none above the limit.
abbrev pub Tiles : ℕ → ℕ → ℕ → List Request → Type 0
Tiles limit a b [] = a ≡ b
Tiles limit a b (r ∷ rs) =
    (r.start_address ≡ a)
    × (0 < r.word_count)
    × (r.word_count ≤ limit)
    × Tiles limit (a + r.word_count) b rs

not_zero : (n : ℕ) → (n == 0) ≡ false → 0 < n
not_zero n e = ground arith

split_nothing : (fuel limit start : ℕ) → split fuel limit start 0 ≡ some []
unfolding split
split_nothing zero limit start = refl
split_nothing (suc fuel) limit start = refl

-- With a limit from 1 to 65535 the loop ends, `remaining` rounds being enough.
pub split_ends :
    (fuel limit start remaining : ℕ)
    → 0 < limit
    → limit < 2 ^ 16
    → remaining ≤ fuel
    → (rs : List Request) × (split fuel limit start remaining ≡ some rs)
unfolding split
split_ends zero limit start remaining l u h =
    let z : (remaining == 0) ≡ true = (==_iff remaining 0).1 (omega arith) in rw z ([], refl)
split_ends (suc fuel) limit start remaining l u h = elim (Bool-cases (remaining == 0)) [
  | inl z ↦ rw z ([], refl)
  | inr nz ↦
      let positive : 0 < remaining = not_zero remaining nz in
      let chunk_words : ℕ = min remaining limit % 2 ^ 16 in
      let (rs, e) =
        split_ends fuel limit ((start + chunk_words) % 2 ^ 32) (remaining - chunk_words) l u
          (omega arith) in
      rw (nz, e) (record { start_address = start; word_count = chunk_words } ∷ rs, refl)
]

-- The rounds behind the first; where no word is left, their start may have wrapped.
wrapped-Tiles :
    (fuel limit a n : ℕ)
    → a + n ≤ 2 ^ 32
    → (rs : List Request) × (split fuel limit a n ≡ some rs) × Tiles limit a (a + n) rs
    → (rs : List Request) × (split fuel limit (a % 2 ^ 32) n ≡ some rs) × Tiles limit a (a + n) rs
wrapped-Tiles fuel limit a zero f h =
    rw (split_nothing fuel limit (a % 2 ^ 32)) ([], refl, omega arith)
wrapped-Tiles fuel limit a (suc n) f h = let same : a % 2 ^ 32 ≡ a = omega arith in rw same h

-- With a limit from 1 to 65535 the loop over a range of addresses below 2 ^ 32 ends, `remaining` rounds
-- being enough, and its requests follow one another from the start of the range to its end without a
-- gap, each of one word at least and of no more words than the limit.
pub split-Tiles :
    (fuel limit start remaining : ℕ)
    → 0 < limit
    → limit < 2 ^ 16
    → remaining ≤ fuel
    → start + remaining ≤ 2 ^ 32
    → (rs : List Request) × (split fuel limit start remaining ≡ some rs)
      × Tiles limit start (start + remaining) rs
unfolding split
split-Tiles zero limit start remaining l u h below =
    let z : (remaining == 0) ≡ true = (==_iff remaining 0).1 (omega arith) in
    rw z ([], refl, omega arith)
split-Tiles (suc fuel) limit start remaining l u h below = elim (Bool-cases (remaining == 0)) [
  | inl z ↦ rw z ([], refl, omega (arith, (==_iff remaining 0).0 z))
  | inr nz ↦
      let positive : 0 < remaining = not_zero remaining nz in
      let chunk_words : ℕ = min remaining limit % 2 ^ 16 in
      let (rs, e, tiles) =
        wrapped-Tiles fuel limit (start + chunk_words) (remaining - chunk_words) (omega arith) (
          split-Tiles fuel limit (start + chunk_words) (remaining - chunk_words) l u (omega arith)
            (omega arith)) in
      let end_at : start + chunk_words + (remaining - chunk_words) ≡ start + remaining =
        omega arith in
      rw (nz, e)
        (
          record { start_address = start; word_count = chunk_words } ∷ rs,
          refl,
          (
            refl,
            omega arith,
            omega arith,
            subst (λ b. Tiles limit (start + chunk_words) b rs) end_at tiles,
          ),
        )
]

-- With a limit of 0 the loop over a range that is not empty never ends: it has not after any number of
-- rounds.
pub split_zero_limit :
    (fuel start remaining : ℕ) → 0 < remaining → split fuel 0 start remaining ≡ none
unfolding split
split_zero_limit zero start remaining h = ground arith
split_zero_limit (suc fuel) start remaining h =
    let none_taken : min remaining 0 % 2 ^ 16 ≡ 0 = omega arith in
    let rest = split_zero_limit fuel ((start + 0) % 2 ^ 32) (remaining - 0) (omega arith) in
    rw none_taken (ground (arith, rest))
