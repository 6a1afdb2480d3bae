-- ===== src/Core/TagStore/Kept.antt =====
-- The operations of core-model/src/tag_store.rs, one at a time, on a well-formed store.
use opcua_plc_bridge.Base.{ℕ, Str, lookup, Option-cases, Bool-cases, inl, inr, Outcome, ok, err}
use opcua_plc_bridge.Core.Error.{CoreError}
use opcua_plc_bridge.Core.TagValue.{TagValue, TagDataType, TagQuality, matches}
use opcua_plc_bridge.Core.Tag.{Tag}
use opcua_plc_bridge.Core.TagStore.{
  Inner, insert_tag, publish, finish, modify, update_value_with_expected, set_tag_quality,
}
use opcua_plc_bridge.Core.TagStore.Invariant.{
  IsWellFormed, store-IsWellFormed, broadcast_change-IsWellFormed, insert_locked-IsWellFormed,
}

module _ {T : Type 0} where
  pub publish-IsWellFormed :
      (id : Str) (idx : ℕ) (tag : Tag T) {s : Inner T}
      → IsWellFormed s
      → IsWellFormed (publish id idx tag s)
  unfolding publish
  publish-IsWellFormed id idx tag h =
      broadcast_change-IsWellFormed id tag (store-IsWellFormed idx tag h)

  -- `insert`, alone, keeps the store well-formed.
  pub insert_tag-IsWellFormed :
      (id : Str) (tag : Tag T) (s : Inner T) → IsWellFormed s → IsWellFormed (insert_tag id tag s)
  unfolding insert_tag
  insert_tag-IsWellFormed id tag s h = elim (Option-cases (lookup id s.index)) [
    | inl gone ↦ rw (gone, insert_tag) (insert_locked-IsWellFormed id tag h)
    | inr (i, found) ↦ rw (found, insert_tag) (unfold publish in publish-IsWellFormed id i tag h)
  ]

module _ {T R : Type 0} where
  finish-IsWellFormed :
      (id : Str) (idx : ℕ) (r : Outcome CoreError (Tag T × R)) (s : Inner T)
      → IsWellFormed s
      → IsWellFormed (finish id idx r s).1
  finish-IsWellFormed id idx (ok (tag, res)) s h = publish-IsWellFormed id idx tag h
  finish-IsWellFormed id idx (err e) s h = h

  modify-IsWellFormed :
      (id : Str) (change : Tag T → Outcome CoreError (Tag T × R)) (s : Inner T)
      → IsWellFormed s
      → IsWellFormed (modify id change s).1
  unfolding modify
  modify-IsWellFormed id change s h = elim (Option-cases (lookup id s.index)) [
    | inl gone ↦ rw (gone, modify) h
    | inr (i, found) ↦ rw (found, modify) (finish-IsWellFormed id i _ s h)
  ]

module _ {T : Type 0} where
  -- So does `update_value_with_expected`.
  pub update_value-IsWellFormed :
      (id : Str) (v : TagValue T) (q : TagQuality) (ts : T) (expected : TagDataType) (now : T)
      (s : Inner T)
      → IsWellFormed s
      → IsWellFormed (update_value_with_expected id v q ts expected now s).1
  unfolding update_value_with_expected
  update_value-IsWellFormed id v q ts expected now s h = elim (Bool-cases (matches v expected)) [
    | inl good ↦ rw good (modify-IsWellFormed id _ s h)
    | inr bad ↦ rw bad h
  ]

  -- And `set_quality`.
  pub set_quality-IsWellFormed :
      (id : Str) (q : TagQuality) (now : T) (s : Inner T)
      → IsWellFormed s
      → IsWellFormed (set_tag_quality id q now s).1
  unfolding set_tag_quality
  set_quality-IsWellFormed id q now s h = modify-IsWellFormed id _ s h
