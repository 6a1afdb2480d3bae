-- ===== src/Core/Registry/Typed.antt =====
-- The registry's contract (core-model/src/registry.rs): its tags against its definitions.
use opcua_plc_bridge.Base.{
  ◌≡◌, refl, true, Option, none, some, Str, str_eq, str_eq_iff, lookup, Outcome, ok, err, arith,
  Bool-cases, Option-cases, inl, inr, subst,
}
use opcua_plc_bridge.Core.Error.{CoreError}
use opcua_plc_bridge.Core.TagValue.{TagValue, TagQuality, data_type, matches, same_type_iff}
use opcua_plc_bridge.Core.Tag.{Tag, apply_read, set_quality}
use opcua_plc_bridge.Core.TagDefinition.{TagDefinition}
use opcua_plc_bridge.Core.DefinitionStore
use opcua_plc_bridge.Core.TagStore.Invariant.{IsWellFormed}
use opcua_plc_bridge.Core.TagStore.View.{view, update, changed, after}
use opcua_plc_bridge.Core.TagStore.Kept.{update_value-IsWellFormed, set_quality-IsWellFormed}
use opcua_plc_bridge.Core.TagStore.Updates.{typed_read, update_value_view, set_quality-view}
use opcua_plc_bridge.Core.Registry.{TagRegistry, update_tag_value, set_tag_quality}

module _ {T : Type 0} where
  abbrev pub Agree : Option TagDefinition → Option (Tag T) → Type 0
  Agree none none = Unit {0}
  Agree (some d) (some t) = data_type t.value ≡ d.data_type
  Agree (some d) none = ⊥
  Agree none (some t) = ⊥

  pub record IsTyped (r : TagRegistry T) : Type 0 where
    pub tags : IsWellFormed r.tags
    pub agree : (id : Str) → Agree (lookup id r.definitions) (view r.tags id)

  -- `m` with the tag of `id` replaced by one whose value has the type of the definition.
  Agree-update :
      (od : Option TagDefinition) (m : Str → Option (Tag T)) (id j : Str) (t : Tag T)
      → Agree od (m j)
      → (str_eq id j ≡ true → Agree od (some t))
      → Agree od (update m id t j)
  Agree-update od m id j t a h = elim (Bool-cases (str_eq id j)) [
    | inl same ↦ rw same (h same)
    | inr other ↦ rw other a
  ]

  matches-data_type :
      (v : TagValue T) (d : TagDefinition)
      → matches v d.data_type ≡ true
      → data_type v ≡ d.data_type
  unfolding matches
  matches-data_type v d h = (same_type_iff (data_type v) d.data_type).0 h

  Agree-after :
      {R : Type 0} (od : Option TagDefinition) (m : Str → Option (Tag T)) (id j : Str)
      (o : Outcome CoreError (Tag T × R))
      → Agree od (m j)
      → ((t : Tag T) (res : R) → o ≡ ok (t, res) → str_eq id j ≡ true → Agree od (some t))
      → Agree od (after o m id j)
  Agree-after od m id j (ok (t, res)) a h = Agree-update od m id j t a (h t res refl)
  Agree-after od m id j (err e) a h = a

  -- The tag that a read of a matching value leaves has the type of its definition.
  read-Agree :
      (r : TagRegistry T) (id j : Str) (d : TagDefinition) (v : TagValue T) (q : TagQuality)
      (ts now : T) (t u : Tag T)
      → lookup id r.definitions ≡ some d
      → typed_read r.tags id v q ts d.data_type now ≡ ok (t, u)
      → str_eq id j ≡ true
      → Agree (lookup j r.definitions) (some t)
  unfolding apply_read
  read-Agree r id j d v q ts now t u found e same =
      let same_id : id ≡ j = (str_eq_iff id j).0 same in
      let here : lookup j r.definitions ≡ some d =
        subst (λ i. lookup i r.definitions ≡ some d) same_id found in
      rw here (ground (arith, matches-data_type v d))

  -- `update_tag_value` keeps the registry typed, whatever the id and the value.
  pub update_tag_value-IsTyped :
      (id : Str) (v : TagValue T) (q : TagQuality) (ts now : T) (r : TagRegistry T)
      → IsTyped r
      → IsTyped (update_tag_value id v q ts now r).1
  unfolding update_tag_value DefinitionStore.get_definition
  update_tag_value-IsTyped id v q ts now r h = elim (Option-cases (lookup id r.definitions)) [
    | inl gone ↦ rw gone h
    | inr (d, found) ↦
        let (_, seen) = update_value_view r.tags id v q ts d.data_type now h.tags in
        rw found (record {
          tags = update_value-IsWellFormed id v q ts d.data_type now r.tags h.tags;
          agree = λ j. rw (seen j) (
              Agree-after (lookup j r.definitions) (view r.tags) id j
                (typed_read r.tags id v q ts d.data_type now) (h.agree j)
                (λ t u e same. read-Agree r id j d v q ts now t u found e same));
        })
  ]

  requality-Agree :
      (r : TagRegistry T) (id j : Str) (q : TagQuality) (now : T) (t : Tag T) (u : Unit {0})
      → IsTyped r
      → changed (view r.tags id) id (λ t. ok (set_quality t q now, tt)) ≡ ok (t, u)
      → str_eq id j ≡ true
      → Agree (lookup j r.definitions) (some t)
  unfolding set_quality
  requality-Agree r id j q now t u h e same =
      let same_id : id ≡ j = (str_eq_iff id j).0 same in
      subst (λ i. Agree (lookup i r.definitions) (some t)) same_id
        (at_id (lookup id r.definitions) (view r.tags id) (h.agree id) e)
    where
      at_id :
          (od : Option TagDefinition) (o : Option (Tag T))
          → Agree od o
          → changed o id (λ t. ok (set_quality t q now, tt)) ≡ ok (t, u)
          → Agree od (some t)
      at_id od none a e = cc
      at_id none (some x) a e = a
      at_id (some d) (some x) a e = ground arith

  -- `set_tag_quality` keeps the registry typed, whatever the id.
  pub set_tag_quality-IsTyped :
      (id : Str) (q : TagQuality) (now : T) (r : TagRegistry T)
      → IsTyped r
      → IsTyped (set_tag_quality id q now r).1
  unfolding set_tag_quality
  set_tag_quality-IsTyped id q now r h =
      let (_, seen) = set_quality-view r.tags id q now h.tags in
      record {
        tags = set_quality-IsWellFormed id q now r.tags h.tags;
        agree = λ j. rw (seen j) (
            Agree-after (lookup j r.definitions) (view r.tags) id j _ (h.agree j)
              (λ t u e same. requality-Agree r id j q now t u h e same));
      }
