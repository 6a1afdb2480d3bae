-- ===== src/Base/Text.antt =====
-- Rust's `str`: its UTF-8 bytes. Equality, order and substring search go by bytes, as in Rust.
use Prim.Native.Nat.{ℕ, compare, Ordering}
use Prim.Native.Char.{code}
use Prim.Native.String.{String}
use mathlib.Core.Path.{◌≡◌, refl}
use mathlib.Core.Logic.{◌↔◌}
use mathlib.Core.Bool.{Bool, true, false, ◌&&◌, ◌||◌}
use mathlib.Core.List.{List, [], ◌∷◌}
use native.Mathlib.Omega.{arith}
use opcua_plc_bridge.Base.Tests.{◌==◌, if◌then◌else◌, leb}

abbrev pub Str : Type 0
Str = List ℕ

-- The bytes of an ASCII literal.
abbrev pub codes : String → Str
codes String.[] = []
codes (String.◌∷◌ c s) = code c ∷ codes s

unfoldable pub str_eq : Str → Str → Bool
str_eq [] [] = true
str_eq [] (y ∷ ys) = false
str_eq (x ∷ xs) [] = false
str_eq (x ∷ xs) (y ∷ ys) = x == y && str_eq xs ys

pub str_eq_iff : (a b : Str) → (str_eq a b ≡ true) ↔ (a ≡ b)
unfolding str_eq
str_eq_iff [] [] = ground arith
str_eq_iff [] (y ∷ ys) = ground arith
str_eq_iff (x ∷ xs) [] = ground arith
str_eq_iff (x ∷ xs) (y ∷ ys) = ground (arith, str_eq_iff xs ys)

pub str_eq_self : (a : Str) → str_eq a a ≡ true
str_eq_self a = (str_eq_iff a a).1 refl

-- `a.cmp(b) == Less`: the first byte that differs decides, and a proper prefix is less.
unfoldable pub str_lt : Str → Str → Bool
str_lt [] [] = false
str_lt [] (y ∷ ys) = true
str_lt (x ∷ xs) [] = false
str_lt (x ∷ xs) (y ∷ ys) = elim (compare x y) [
  | Ordering.lt ↦ true
  | Ordering.eq ↦ str_lt xs ys
  | Ordering.gt ↦ false
]

pub str_lt_irrefl : (a : Str) → str_lt a a ≡ false
unfolding str_lt
str_lt_irrefl [] = refl
str_lt_irrefl (x ∷ xs) = ground (arith, str_lt_irrefl xs)

pub str_lt_trans : (a b c : Str) → str_lt a b ≡ true → str_lt b c ≡ true → str_lt a c ≡ true
unfolding str_lt
str_lt_trans [] [] c h k = cc
str_lt_trans [] (y ∷ ys) [] h k = cc
str_lt_trans [] (y ∷ ys) (z ∷ zs) h k = refl
str_lt_trans (x ∷ xs) [] c h k = cc
str_lt_trans (x ∷ xs) (y ∷ ys) [] h k = cc
str_lt_trans (x ∷ xs) (y ∷ ys) (z ∷ zs) h k = ground (arith, str_lt_trans xs ys zs)

pub str_lt_total : (a b : Str) → str_eq a b ≡ false → str_lt a b ≡ false → str_lt b a ≡ true
unfolding str_lt str_eq
str_lt_total [] [] h k = cc
str_lt_total [] (y ∷ ys) h k = cc
str_lt_total (x ∷ xs) [] h k = refl
str_lt_total (x ∷ xs) (y ∷ ys) h k = ground (arith, str_lt_total xs ys)

-- `s.contains(needle)`
unfoldable pub starts_with : Str → Str → Bool
starts_with [] s = true
starts_with (p ∷ ps) [] = false
starts_with (p ∷ ps) (x ∷ xs) = p == x && starts_with ps xs

unfoldable pub contains : Str → Str → Bool
unfolding starts_with
contains [] needle = starts_with needle []
contains (x ∷ xs) needle = starts_with needle (x ∷ xs) || contains xs needle

-- `s.trim().is_empty()`: only characters of the Unicode property White_Space. The states are the
-- bytes of a character that have been read.
pub data Blank : Type 0 where
  start after_c2 after_e1 after_e1_9a after_e2 after_e2_80 after_e2_81 after_e3 after_e3_80
        no_space :
      Blank

unfoldable pub blank_step : Blank → ℕ → Blank
blank_step start b =
    if (leb 0x09 b && leb b 0x0d) || b == 0x20
    then start
    else if b == 0xc2
    then after_c2
    else if b == 0xe1
    then after_e1
    else if b == 0xe2
    then after_e2
    else if b == 0xe3
    then after_e3
    else no_space
blank_step after_c2 b = if b == 0x85 || b == 0xa0 then start else no_space
blank_step after_e1 b = if b == 0x9a then after_e1_9a else no_space
blank_step after_e1_9a b = if b == 0x80 then start else no_space
blank_step after_e2 b =
    if b == 0x80 then after_e2_80 else if b == 0x81 then after_e2_81 else no_space
blank_step after_e2_80 b =
    if (leb 0x80 b && leb b 0x8a) || b == 0xa8 || b == 0xa9 || b == 0xaf then start else no_space
blank_step after_e2_81 b = if b == 0x9f then start else no_space
blank_step after_e3 b = if b == 0x80 then after_e3_80 else no_space
blank_step after_e3_80 b = if b == 0x80 then start else no_space
blank_step no_space b = no_space

unfoldable blank_from : Blank → Str → Bool
unfolding blank_step
blank_from start [] = true
blank_from _ [] = false
blank_from q (b ∷ s) = blank_from (blank_step q b) s

unfoldable pub is_blank : Str → Bool
unfolding blank_from
is_blank s = blank_from start s
