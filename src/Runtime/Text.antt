-- ===== src/Runtime/Text.antt =====
-- What runtime/src uses of Rust's `str`: `trim`, `to_lowercase` and `parse::<u32>`.
use opcua_plc_bridge.Base.{
  ℕ, ◌+◌, ◌-◌, ◌*◌, ◌^◌, Bool, true, ◌&&◌, [], ◌∷◌, Str, Option, none, some, leb, ltb, ◌==◌,
  if◌then◌else◌, is_blank,
}
use opcua_plc_bridge.Base.Text.{Blank, start, no_space, blank_step}

-- The bytes behind a prefix of white space. `kept` is what is left where the last whole character
-- ended.
abbrev after_step : Blank → Str → Str → (Blank → Str → Str) → Str
after_step start kept s rest = rest start s
after_step no_space kept s rest = kept
after_step q kept s rest = rest q kept

trim_from : Blank → Str → Str → Str
trim_from start kept [] = []
trim_from q kept [] = kept
trim_from q kept (b ∷ s) = after_step (blank_step q b) kept s (λ q k. trim_from q k s)

-- A suffix of a text that is only white space starts where a character does.
trim_end : Str → Str
trim_end [] = []
trim_end (b ∷ s) = let rest = trim_end s in if is_blank (b ∷ s) then [] else b ∷ rest

-- `s.trim()`
unfoldable pub trim : Str → Str
unfolding trim_from trim_end
trim s = trim_end (trim_from start s s)

is_digit : ℕ → Bool
is_digit c = leb 48 c && leb c 57

-- `s.chars().all(|c| c.is_ascii_digit())`
unfoldable pub all_digits : Str → Bool
unfolding is_digit
all_digits [] = true
all_digits (c ∷ s) = let rest = all_digits s in is_digit c && rest

-- The digits of a `u32`, from the most significant one; overflow is an error.
unfoldable pub parse_digits : ℕ → Str → Option ℕ
unfolding is_digit
parse_digits n [] = some n
parse_digits n (c ∷ s) =
    let m = n * 10 + (c - 48) in
    let rest = parse_digits m s in if is_digit c && ltb m (2 ^ 32) then rest else none

abbrev nonempty_digits : Str → Option ℕ
nonempty_digits [] = none
nonempty_digits (c ∷ s) = parse_digits 0 (c ∷ s)

-- `s.parse::<u32>()`: digits, at least one, behind an optional plus sign.
unfoldable pub parse_u32 : Str → Option ℕ
unfolding parse_digits
parse_u32 [] = none
parse_u32 (c ∷ s) = if c == 43 then nonempty_digits s else parse_digits 0 (c ∷ s)

-- `s.to_lowercase()` on ASCII. Of the other characters only U+212A lowers to an ASCII letter, `k`,
-- which is in none of the words that the result is compared with.
unfoldable pub to_lowercase : Str → Str
to_lowercase [] = []
to_lowercase (c ∷ s) =
    let rest = to_lowercase s in if leb 65 c && leb c 90 then (c + 32) ∷ rest else c ∷ rest
