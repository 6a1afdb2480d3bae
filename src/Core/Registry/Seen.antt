-- ===== src/Core/Registry/Seen.antt =====
-- What a reader of the registry sees after a driver's calls of it (core-model/src/registry.rs).
use opcua_plc_bridge.Base.{
  ◌≡◌, refl, ◌∙◌, ap, Str, str_eq, str_eq_iff, Option, none, some, true, false, Outcome, ok, err,
  if◌then◌else◌, lookup,
}
use opcua_plc_bridge.Core.Error.{CoreError, type_mismatch}
use opcua_plc_bridge.Core.TagValue.{TagValue, TagQuality, data_type, matches, same_type_iff}
use opcua_plc_bridge.Core.Tag
use opcua_plc_bridge.Core.Tag.{Tag, apply_read}
use opcua_plc_bridge.Core.TagDefinition.{TagDefinition}
use opcua_plc_bridge.Core.DefinitionStore
use opcua_plc_bridge.Core.TagStore.Invariant.{IsWellFormed}
use opcua_plc_bridge.Core.TagStore.View.{view, changed, after}
use opcua_plc_bridge.Core.TagStore.Updates.{typed_read, update_value_view, set_quality-view}
use opcua_plc_bridge.Core.Registry.{
  TagRegistry, update_known, get_definition, update_tag_value, set_tag_quality,
}
use opcua_plc_bridge.Core.Registry.Typed.{IsTyped, Agree}

module _ {T : Type 0} where
  -- The tag that a reader of the registry sees under an id.
  abbrev pub seen : TagRegistry T → Str → Option (Tag T)
  seen r = view r.tags

  -- The tag is seen with a value and a quality, whatever its timestamps.
  abbrev pub Shows : TagRegistry T → Str → TagValue T → TagQuality → Type 0
  Shows r id v q = (t : Tag T) × (seen r id ≡ some t) × (t.value ≡ v) × (t.quality ≡ q)

  changed_self :
      {R : Type 0} (o : Option (Tag T)) (m : Str → Option (Tag T)) (id : Str) (t : Tag T)
      (f : Tag T → Outcome CoreError (Tag T × R)) (u : Tag T) (x : R)
      → o ≡ some t
      → f t ≡ ok (u, x)
      → after (changed o id f) m id id ≡ some u
  changed_self o m id t f u x e g = rw (e, g, (str_eq_iff id id).1 refl) refl

  changed-other :
      {R : Type 0} (o : Outcome CoreError (Tag T × R)) (m : Str → Option (Tag T)) (id j : Str)
      → str_eq id j ≡ false
      → after o m id j ≡ m j
  changed-other (ok (t, r)) m id j h = rw h refl
  changed-other (err e) m id j h = refl

  update_known-other :
      (k : Outcome CoreError TagDefinition) (id j : Str) (v : TagValue T) (q : TagQuality)
      (ts now : T) (r : TagRegistry T)
      → IsWellFormed r.tags
      → str_eq id j ≡ false
      → view (update_known k id v q ts now r).1.tags j ≡ view r.tags j
  update_known-other (err e) id j v q ts now r h n = refl
  update_known-other (ok d) id j v q ts now r h n =
      let (_, s) = update_value_view r.tags id v q ts d.data_type now h in
      s j ∙ changed-other (typed_read r.tags id v q ts d.data_type now) (view r.tags) id j n

  update_known_self :
      (d : TagDefinition) (t : Tag T) (id : Str) (v : TagValue T) (q : TagQuality) (ts now : T)
      (r : TagRegistry T)
      → IsWellFormed r.tags
      → view r.tags id ≡ some t
      → data_type v ≡ d.data_type
      → view (update_known (ok d) id v q ts now r).1.tags id ≡ some (apply_read t v q ts now)
  unfolding matches
  update_known_self d t id v q ts now r h e same =
      let (_, s) = update_value_view r.tags id v q ts d.data_type now h in
      let good : matches v d.data_type ≡ true = (same_type_iff (data_type v) d.data_type).1 same in
      s id
      ∙ ap
          (λ b.
            after
              (if b
                then changed (view r.tags id) id (λ c. let t = apply_read c v q ts now in ok (t, t))
                else err (type_mismatch id))
              (view r.tags) id id)
          good
      ∙ changed_self (view r.tags id) (view r.tags) id t _ _ _ e refl

  Agree-some :
      (d : TagDefinition) (od : Option TagDefinition) (o : Option (Tag T))
      → od ≡ some d
      → Agree od o
      → (t : Tag T) × (o ≡ some t)
  Agree-some d (some d2) (some t) e a = (t, refl)
  Agree-some d (some d2) none e a = elim a [ ]
  Agree-some d none o e a = cc

  -- A defined id has a tag.
  pub IsTyped-seen :
      (r : TagRegistry T) (id : Str) (d : TagDefinition)
      → IsTyped r
      → lookup id r.definitions ≡ some d
      → (t : Tag T) × (seen r id ≡ some t)
  IsTyped-seen r id d h found =
      Agree-some d (lookup id r.definitions) (seen r id) found (h.agree id)

  pub get_definition-found :
      (r : TagRegistry T) (id : Str) (d : TagDefinition)
      → lookup id r.definitions ≡ some d
      → get_definition r id ≡ ok d
  unfolding DefinitionStore.get_definition
  get_definition-found r id d e = rw e refl

  -- A tag whose quality is set keeps its value.
  pub set_tag_quality-Shows :
      (id : Str) (q : TagQuality) (now : T) (r : TagRegistry T) (t : Tag T)
      → IsWellFormed r.tags
      → seen r id ≡ some t
      → Shows (set_tag_quality id q now r).1 id t.value q
  unfolding set_tag_quality Tag.set_quality
  set_tag_quality-Shows id q now r t h e =
      let (_, s) = set_quality-view r.tags id q now h in
      (
        Tag.set_quality t q now,
        s id ∙ changed_self (seen r id) (seen r) id t _ _ tt e refl,
        refl,
        refl,
      )

  pub set_tag_quality-other :
      (id j : Str) (q : TagQuality) (now : T) (r : TagRegistry T)
      → IsWellFormed r.tags
      → str_eq id j ≡ false
      → seen (set_tag_quality id q now r).1 j ≡ seen r j
  unfolding set_tag_quality
  set_tag_quality-other id j q now r h n =
      let (_, s) = set_quality-view r.tags id q now h in s j ∙ changed-other _ (seen r) id j n

  pub update_tag_value-Shows :
      (id : Str) (v : TagValue T) (q : TagQuality) (ts now : T) (r : TagRegistry T)
      (d : TagDefinition)
      → IsTyped r
      → lookup id r.definitions ≡ some d
      → data_type v ≡ d.data_type
      → Shows (update_tag_value id v q ts now r).1 id v q
  unfolding update_tag_value apply_read
  update_tag_value-Shows id v q ts now r d h found same =
      let (t, e) = IsTyped-seen r id d h found in
      (
        apply_read t v q ts now,
        ap (λ k. view (update_known k id v q ts now r).1.tags id)
              (get_definition-found r id d found)
            ∙ update_known_self d t id v q ts now r h.tags e same,
        refl,
        refl,
      )

  pub update_tag_value-other :
      (id j : Str) (v : TagValue T) (q : TagQuality) (ts now : T) (r : TagRegistry T)
      → IsWellFormed r.tags
      → str_eq id j ≡ false
      → seen (update_tag_value id v q ts now r).1 j ≡ seen r j
  unfolding update_tag_value
  update_tag_value-other id j v q ts now r h n =
      update_known-other (get_definition r id) id j v q ts now r h n
