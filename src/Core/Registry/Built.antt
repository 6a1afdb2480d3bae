-- ===== src/Core/Registry/Built.antt =====
-- What `TagRegistry::from_definitions` builds (core-model/src/registry.rs).
use opcua_plc_bridge.Base.{
  ℕ, ◌+◌, ◌≡◌, refl, ◌∙◌, false, List, [], ◌∷◌, none, some, Str, str_eq, str_eq_iff, lookup,
  Outcome-cases, ok, arith, Bool-cases, Option-cases, inl, inr, subst,
}
use opcua_plc_bridge.Core.TagValue.{TagDataType, data_type}
use opcua_plc_bridge.Core.Tag.{Tag, new_tag}
use opcua_plc_bridge.Core.TagDefinition.{TagDefinition}
use opcua_plc_bridge.Core.DefinitionStore.{Definitions, from_definitions, all_definitions_sorted}
use opcua_plc_bridge.Core.DefinitionStore.Built.{find, Distinct}
use opcua_plc_bridge.Core.DefinitionStore.Sorted.{
  find-all_definitions_sorted, Distinct-all_definitions_sorted, from_definitions-KeysMatch,
  from_definitions-UniqueKeys,
}
use opcua_plc_bridge.Core.TagStore.{Inner, empty, insert_tag}
use opcua_plc_bridge.Core.TagStore.Invariant.{IsWellFormed, empty-IsWellFormed}
use opcua_plc_bridge.Core.TagStore.View.{view, view-insert_tag}
use opcua_plc_bridge.Core.TagStore.Kept.{insert_tag-IsWellFormed}
use opcua_plc_bridge.Core.Registry.Typed.{Agree, IsTyped}
use opcua_plc_bridge.Core.Registry.{TagRegistry, initial_value, populate, from_definitions_at}

module _ {T : Type 0} where
  data_type-initial_value : (t : TagDataType) (now : T) → data_type (initial_value t now) ≡ t
  unfolding data_type initial_value
  data_type-initial_value TagDataType.bool now = refl
  data_type-initial_value _ now = refl

  populate-IsWellFormed :
      (clock : ℕ → T) (n : ℕ) (ds : List TagDefinition) (s : Inner T)
      → IsWellFormed s
      → IsWellFormed (populate clock n ds s)
  unfolding populate
  populate-IsWellFormed clock n [] s h = h
  populate-IsWellFormed clock n (d ∷ ds) s h =
      populate-IsWellFormed clock (n + 2) ds _ (insert_tag-IsWellFormed d.id _ s h)

  abbrev first_tag : (ℕ → T) → ℕ → TagDefinition → Tag T
  first_tag clock n d = new_tag (initial_value d.data_type (clock n)) (clock (n + 1))

  -- Ids that the list does not define keep their tag.
  populate_other :
      (clock : ℕ → T) (n : ℕ) (ds : List TagDefinition) (s : Inner T) (id : Str)
      → IsWellFormed s
      → find id ds ≡ none
      → view (populate clock n ds s) id ≡ view s id
  unfolding populate find
  populate_other clock n [] s id h e = refl
  populate_other clock n (d ∷ ds) s id h e =
      let other : str_eq d.id id ≡ false = ground arith in
      populate_other clock (n + 2) ds (insert_tag d.id (first_tag clock n d) s) id
        (insert_tag-IsWellFormed d.id (first_tag clock n d) s h) (ground arith)
      ∙ rw (view-insert_tag s d.id (first_tag clock n d) id h, other)

  -- An id that the list defines, once, gets a tag of its type.
  populate_defined :
      (clock : ℕ → T) (n : ℕ) (ds : List TagDefinition) (s : Inner T) (id : Str) (d : TagDefinition)
      → IsWellFormed s
      → Distinct ds
      → find id ds ≡ some d
      → (t : Tag T) × (view (populate clock n ds s) id ≡ some t) × (data_type t.value ≡ d.data_type)
  unfolding populate find
  populate_defined clock n [] s id d h u e = cc
  populate_defined clock n (x ∷ xs) s id d h u e = elim (Bool-cases (str_eq x.id id)) [
    | inl same ↦
        let same_id : x.id ≡ id = (str_eq_iff x.id id).0 same in
        let absent : find id xs ≡ none = subst (λ i. find i xs ≡ none) same_id u.0 in
        let types : x.data_type ≡ d.data_type = ground arith in
        (
          first_tag clock n x,
          populate_other clock (n + 2) xs (insert_tag x.id (first_tag clock n x) s) id
                (insert_tag-IsWellFormed x.id (first_tag clock n x) s h) absent
              ∙ rw (view-insert_tag s x.id (first_tag clock n x) id h, same),
          unfold new_tag in data_type-initial_value x.data_type (clock n) ∙ types,
        )
    | inr other ↦
        populate_defined clock (n + 2) xs (insert_tag x.id (first_tag clock n x) s) id d
          (insert_tag-IsWellFormed x.id (first_tag clock n x) s h) u.1 (rw (other) at e)
  ]

  abbrev built : (ℕ → T) → Definitions → TagRegistry T
  built clock m = record {
    definitions = m;
    tags = populate clock 0 (all_definitions_sorted m) (empty T);
  }

  view-empty : (id : Str) → view (empty T) id ≡ none
  unfolding view lookup
  view-empty id = refl

  built-Agree :
      (clock : ℕ → T) (defs : List TagDefinition) (m : Definitions) (id : Str)
      → from_definitions defs ≡ ok m
      → Agree (lookup id m) (view (built clock m).tags id)
  built-Agree clock defs m id e =
      let keys = from_definitions-KeysMatch defs m e in
      let unique = Distinct-all_definitions_sorted m keys (from_definitions-UniqueKeys defs m e) in
      let sorted = find-all_definitions_sorted m id keys in
      elim (Option-cases (lookup id m)) [
        | inl gone ↦
            rw
              (
                gone,
                populate_other clock 0 (all_definitions_sorted m) (empty T) id empty-IsWellFormed
                    (sorted ∙ gone),
                view-empty id,
              )
              tt
        | inr (d, found) ↦
            let (t, seen, typed) =
              populate_defined clock 0 (all_definitions_sorted m) (empty T) id d empty-IsWellFormed
                unique (sorted ∙ found) in
            rw (found, seen) typed
      ]

  -- A registry that was built from definitions is typed: it has a tag, of the configured type,
  -- for exactly the ids that are defined.
  pub from_definitions-IsTyped :
      (clock : ℕ → T) (defs : List TagDefinition) (r : TagRegistry T)
      → from_definitions_at clock defs ≡ ok r
      → IsTyped r
  unfolding from_definitions_at
  from_definitions-IsTyped clock defs r e = elim (Outcome-cases (from_definitions defs)) [
    | inr (x, bad) ↦ cc
    | inl (m, good) ↦ subst IsTyped {x = built clock m} (cc) (record {
      tags = populate-IsWellFormed clock 0 (all_definitions_sorted m) (empty T) empty-IsWellFormed;
      agree = λ id. built-Agree clock defs m id good;
    })
  ]
