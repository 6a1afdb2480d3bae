-- ===== src/Base/Maps.antt =====
-- A `HashMap` with text keys as an association list.
use mathlib.Core.Path.{◌≡◌, refl}
use mathlib.Core.Bool.{Bool, true, false}
use mathlib.Core.Option.{Option, none, some}
use mathlib.Core.List.{List, [], ◌∷◌}
use native.Mathlib.Omega.{arith}
use opcua_plc_bridge.Base.Tests.{if◌then◌else◌}
use opcua_plc_bridge.Base.Text.{Str, str_eq, str_eq_iff}

module _ {ℓ} {V : Type ℓ} where
  -- `map.get(key)`
  unfoldable pub lookup : Str → List (Str × V) → Option V
  lookup key [] = none
  lookup key ((k, v) ∷ m) = if str_eq k key then some v else lookup key m

  -- `map.insert(key, value)`
  unfoldable pub insert : Str → V → List (Str × V) → List (Str × V)
  insert key value [] = (key, value) ∷ []
  insert key value ((k, v) ∷ m) =
      if str_eq k key then (key, value) ∷ m else (k, v) ∷ insert key value m

  pub lookup-insert :
      (key j : Str) (value : V) (m : List (Str × V))
      → lookup j (insert key value m) ≡ (if str_eq key j then some value else lookup j m)
  unfolding lookup insert
  lookup-insert key j value [] = refl
  lookup-insert key j value ((k, v) ∷ m) =
      ground
        (arith, str_eq_iff key j, str_eq_iff k key, str_eq_iff k j, lookup-insert key j value m)

abbrev pub is_some {ℓ} : {V : Type ℓ} → Option V → Bool
is_some none = false
is_some (some v) = true
