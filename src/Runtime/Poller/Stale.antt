-- ===== src/Runtime/Poller/Stale.antt =====
-- What the check for stale tags changes (runtime/src/runtime_driver.rs).
use opcua_plc_bridge.Base.{
  arith, ℕ, ◌+◌, ◌≡◌, refl, ◌∙◌, ap, sym, subst, Bool, true, false, List, [], ◌∷◌, ◌++◌, Str,
  str_eq, str_lt, Option, none, some, Outcome, ok, err, All, Bool-cases, inl, inr, if-both,
  if◌then◌else◌, lookup, insert, is_some, ok-injective, bind-ok,
}
use opcua_plc_bridge.Core.Error.{CoreError}
use opcua_plc_bridge.Core.TagValue.{TagQuality}
use opcua_plc_bridge.Core.Tag.{Tag}
use opcua_plc_bridge.Core.TagDefinition.{TagDefinition, new_definition, validate}
use opcua_plc_bridge.Core.DefinitionStore.{
  Definitions, duplicate, add_definitions, from_definitions, insert_sorted, all_definitions_sorted,
}
use opcua_plc_bridge.Core.Registry.{TagRegistry, get_tag}
use opcua_plc_bridge.Core.Registry.Kept.{IsKept}
use opcua_plc_bridge.Runtime.Config.{TagConfig, PlcConfig}
use opcua_plc_bridge.Runtime.Tags.{tagconfig_to_definition}
use opcua_plc_bridge.Runtime.Definitions.{plc_definitions, all_definitions}
use opcua_plc_bridge.Runtime.Poller.{
  is_stale_quality, is_stale, mark, check_tag, check_timeout, check_definition, check_definitions,
  check_stale_tags,
}

-- A definition without a threshold.
abbrev pub IsUntimed : TagDefinition → Type 0
IsUntimed d = d.stale_after_ms ≡ none

tagconfig-IsUntimed :
    (t : TagConfig) (plc_name : Str) (d : TagDefinition)
    → tagconfig_to_definition t plc_name ≡ ok d
    → IsUntimed d
unfolding tagconfig_to_definition new_definition
tagconfig-IsUntimed t plc_name d e = ground arith

All-++ :
    (P : TagDefinition → Type 0) (xs ys : List TagDefinition)
    → All P xs
    → All P ys
    → All P (xs ++ ys)
All-++ P [] ys h k = k
All-++ P (x ∷ xs) ys h k = (h.0, All-++ P xs ys h.1 k)

plc_definitions-IsUntimed :
    (plc_name : Str) (ts : List TagConfig) (defs : List TagDefinition)
    → plc_definitions plc_name ts ≡ ok defs
    → All IsUntimed defs
unfolding plc_definitions
plc_definitions-IsUntimed plc_name [] defs e = subst (All IsUntimed) (ok-injective e) tt
plc_definitions-IsUntimed plc_name (t ∷ ts) defs e =
    let (d, first, rest) = bind-ok (tagconfig_to_definition t plc_name) _ defs e in
    let (ds, others, all) = bind-ok (plc_definitions plc_name ts) _ defs rest in
    subst (All IsUntimed) (ok-injective all)
      (tagconfig-IsUntimed t plc_name d first, plc_definitions-IsUntimed plc_name ts ds others)

all_definitions-IsUntimed :
    (plcs : List PlcConfig) (defs : List TagDefinition)
    → all_definitions plcs ≡ ok defs
    → All IsUntimed defs
unfolding all_definitions
all_definitions-IsUntimed [] defs e = subst (All IsUntimed) (ok-injective e) tt
all_definitions-IsUntimed (plc ∷ plcs) defs e =
    let (xs, first, rest) = bind-ok (plc_definitions plc.name plc.tags) _ defs e in
    let (ys, others, all) = bind-ok (all_definitions plcs) _ defs rest in
    subst (All IsUntimed) (ok-injective all) (
      All-++ IsUntimed xs ys (plc_definitions-IsUntimed plc.name plc.tags xs first)
        (all_definitions-IsUntimed plcs ys others))

-- Every definition of the map has a property.
abbrev AllValues : (TagDefinition → Type 0) → Definitions → Type 0
AllValues P = All (λ (x : Str × TagDefinition). P x.1)

module _ (P : TagDefinition → Type 0) where
  insert-AllValues :
      (d : TagDefinition) (m : Definitions) (k : Str)
      → P d
      → AllValues P m
      → AllValues P (insert k d m)
  unfolding insert
  insert-AllValues d [] k p h = (p, tt)
  insert-AllValues d ((j, x) ∷ m) k p h = elim (Bool-cases (str_eq j k)) [
    | inl same ↦ rw same (p, h.1)
    | inr other ↦ rw other (h.0, insert-AllValues d m k p h.1)
  ]

  add_definitions-AllValues :
      (ds : List TagDefinition) (m m1 : Definitions)
      → All P ds
      → AllValues P m
      → add_definitions m ds ≡ ok m1
      → AllValues P m1
  unfolding add_definitions
  add_definitions-AllValues [] m m1 h k e = subst (AllValues P) (ok-injective e) k
  add_definitions-AllValues (d ∷ ds) m m1 h k e =
      let (_, _, rest) = bind-ok (validate d) _ m1 e in
      elim (Bool-cases (is_some (lookup d.id m))) [
        | inl twice ↦ let refused : err (duplicate d) ≡ ok m1 = rw twice at rest in cc
        | inr once ↦
            add_definitions-AllValues ds (insert d.id d m) m1 h.1 (insert-AllValues d m d.id h.0 k)
              (rw once at rest)
      ]

  insert_sorted-All :
      (d : TagDefinition) (xs : List TagDefinition) → P d → All P xs → All P (insert_sorted d xs)
  unfolding insert_sorted
  insert_sorted-All d [] p h = (p, tt)
  insert_sorted-All d (x ∷ xs) p h = elim (Bool-cases (str_lt x.id d.id)) [
    | inl lt ↦ rw lt (h.0, insert_sorted-All d xs p h.1)
    | inr ge ↦ rw ge (p, h)
  ]

  all_definitions_sorted-All : (m : Definitions) → AllValues P m → All P (all_definitions_sorted m)
  unfolding all_definitions_sorted
  all_definitions_sorted-All [] h = tt
  all_definitions_sorted-All ((k, d) ∷ m) h =
      insert_sorted-All d (all_definitions_sorted m) h.0 (all_definitions_sorted-All m h.1)

module _ {T : Type 0} (signed_duration_since : T → T → Option ℕ) (clock : ℕ → T) where
  check_definitions-IsUntimed :
      (plc_name : Str) (ds : List TagDefinition) (s : TagRegistry T × ℕ)
      → All IsUntimed ds
      → check_definitions signed_duration_since clock plc_name ds s ≡ s
  unfolding check_definitions check_definition
  check_definitions-IsUntimed plc_name [] s h = refl
  check_definitions-IsUntimed plc_name (d ∷ ds) s h =
      let untouched : (if str_eq d.plc_name plc_name
            then check_timeout signed_duration_since clock d d.stale_after_ms s
            else s)
          ≡ s =
        rw h.0 (if-both (str_eq d.plc_name plc_name) (λ x. x ≡ s) refl refl) in
      ap (check_definitions signed_duration_since clock plc_name ds) untouched
      ∙ check_definitions-IsUntimed plc_name ds s h.1

  -- No tag of a program that is started from a configuration is ever marked stale: the definitions that
  -- `main` makes have no threshold, so that on a registry with the definitions it builds from them,
  -- whatever the tags have become, the check for stale tags of any PLC changes nothing.
  pub configured_never_stale :
      (plcs : List PlcConfig) (defs : List TagDefinition) (built : Definitions) (r : TagRegistry T)
      (n : ℕ) (plc_name : Str)
      → all_definitions plcs ≡ ok defs
      → from_definitions defs ≡ ok built
      → r.definitions ≡ built
      → check_stale_tags signed_duration_since clock plc_name (r, n) ≡ (r, n)
  unfolding check_stale_tags from_definitions
  configured_never_stale plcs defs built r n plc_name e f g =
      check_definitions-IsUntimed plc_name (all_definitions_sorted r.definitions) (r, n)
        (all_definitions_sorted-All IsUntimed r.definitions (
          subst (AllValues IsUntimed) (sym g) (
            add_definitions-AllValues IsUntimed defs [] built
              (all_definitions-IsUntimed plcs defs e) tt f)))

  module _ (P : TagRegistry T → Type 0) (k : IsKept P) where
    mark-keeps :
        (id : Str) (q : TagQuality) (late : Bool) (s : TagRegistry T × ℕ)
        → P s.0
        → P (mark signed_duration_since clock id q late s).0
    mark-keeps id q false s h = h
    mark-keeps id q true s h =
        if-both (is_stale_quality q) (λ (x : TagRegistry T × ℕ). P x.0) h
          (k.by_quality id TagQuality.stale (clock (s.1 + 1)) s.0 h)

    check_tag-keeps :
        (id : Str) (timeout : ℕ) (o : Outcome CoreError (Tag T)) (s : TagRegistry T × ℕ)
        → P s.0
        → P (check_tag signed_duration_since clock id timeout o s).0
    unfolding is_stale
    check_tag-keeps id timeout (err e) s h = h
    check_tag-keeps id timeout (ok tag) s h = mark-keeps id tag.quality _ s h

    check_timeout-keeps :
        (d : TagDefinition) (o : Option ℕ) (s : TagRegistry T × ℕ)
        → P s.0
        → P (check_timeout signed_duration_since clock d o s).0
    check_timeout-keeps d none s h = h
    check_timeout-keeps d (some ms) s h = check_tag-keeps d.id ms (get_tag s.0 d.id) s h

    check_definitions-keeps :
        (plc_name : Str) (ds : List TagDefinition) (s : TagRegistry T × ℕ)
        → P s.0
        → P (check_definitions signed_duration_since clock plc_name ds s).0
    unfolding check_definitions check_definition
    check_definitions-keeps plc_name [] s h = h
    check_definitions-keeps plc_name (d ∷ ds) s h = check_definitions-keeps plc_name ds _ (
        if-both (str_eq d.plc_name plc_name) (λ (x : TagRegistry T × ℕ). P x.0)
          (check_timeout-keeps d d.stale_after_ms s h) h)

    -- The check for stale tags keeps every property of the registry that `set_tag_quality` keeps.
    pub check_stale_tags-keeps :
        (plc_name : Str) (s : TagRegistry T × ℕ)
        → P s.0
        → P (check_stale_tags signed_duration_since clock plc_name s).0
    unfolding check_stale_tags
    check_stale_tags-keeps plc_name s h =
        check_definitions-keeps plc_name (all_definitions_sorted s.0.definitions) s h
