-- ===== src/Core/TagStore/Updates.antt =====
-- The updates of core-model/src/tag_store.rs against the map of ids to tags.
use opcua_plc_bridge.Base.{
  ◌≡◌, refl, Str, if◌then◌else◌, Outcome, ok, err, ◌>>=◌, Bool-cases, inl, inr,
}
use opcua_plc_bridge.Core.Error.{CoreError, type_mismatch}
use opcua_plc_bridge.Core.TagValue.{TagValue, TagDataType, TagQuality, matches}
use opcua_plc_bridge.Core.Tag
use opcua_plc_bridge.Core.Tag.{Tag}
use opcua_plc_bridge.Core.TagStore.{
  Inner, update_value_with_expected, set_tag_quality, try_update_with,
}
use opcua_plc_bridge.Core.TagStore.Invariant.{IsWellFormed}
use opcua_plc_bridge.Core.TagStore.View.{view, changed, result_of, after, modify-view}

module _ {T : Type 0} (s : Inner T) (id : Str) where
  -- The tag after a read of `v`, and the same tag as the result. The type is tested first.
  abbrev pub typed_read :
      TagValue T → TagQuality → T → TagDataType → T → Outcome CoreError (Tag T × Tag T)
  typed_read v q ts expected now =
      if matches v expected
      then changed (view s id) id
          (λ current. let t = Tag.apply_read current v q ts now in ok (t, t))
      else err (type_mismatch id)

  -- In a well-formed store, `update_value_with_expected` returns a type mismatch where the value has
  -- another type than expected, else "not found" where no tag is seen under the id, else the tag
  -- with the new value, quality and timestamps; afterwards a reader sees that tag under the id, and
  -- under every other id what was there. After an error a reader sees what was there.
  pub update_value_view :
      (v : TagValue T) (q : TagQuality) (ts : T) (expected : TagDataType) (now : T)
      → IsWellFormed s
      → ((update_value_with_expected id v q ts expected now s).0
          ≡ result_of (typed_read v q ts expected now))
        × ((j : Str)
            → view (update_value_with_expected id v q ts expected now s).1 j
              ≡ after (typed_read v q ts expected now) (view s) id j)
  unfolding update_value_with_expected
  update_value_view v q ts expected now h = elim (Bool-cases (matches v expected)) [
    | inl good ↦ rw good (modify-view s id _ h)
    | inr bad ↦ rw bad (refl, λ j. refl)
  ]

  -- In a well-formed store, `set_quality` changes the quality and the server timestamp of the tag
  -- seen under the id, and nothing else that a reader sees; without one it is an error.
  pub set_quality-view :
      (q : TagQuality) (now : T)
      → IsWellFormed s
      → ((set_tag_quality id q now s).0
          ≡ result_of (changed (view s id) id (λ t. ok (Tag.set_quality t q now, tt))))
        × ((j : Str)
            → view (set_tag_quality id q now s).1 j
              ≡ after
                  (changed (view s id) id (λ t. ok (Tag.set_quality t q now, tt)))
                  (view s)
                  id
                  j)
  unfolding set_tag_quality
  set_quality-view q now h = modify-view s id _ h

  -- In a well-formed store, `try_update_with` gives the closure the tag seen under the id. Where
  -- the closure fails, its error is returned and a reader sees no change; else a reader sees the
  -- tag that it left, with a new server timestamp.
  pub try_update_view :
      {R : Type 0} (f : Tag T → Outcome CoreError (Tag T × R)) (now : T)
      → IsWellFormed s
      → ((try_update_with id f now s).0
          ≡ result_of (changed (view s id) id (λ t. f t >>= λ p. ok (Tag.touch p.0 now, p.1))))
        × ((j : Str)
            → view (try_update_with id f now s).1 j
              ≡ after
                  (changed (view s id) id (λ t. f t >>= λ p. ok (Tag.touch p.0 now, p.1)))
                  (view s)
                  id
                  j)
  unfolding try_update_with
  try_update_view f now h = modify-view s id _ h
