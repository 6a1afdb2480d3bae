-- ===== src/Core/TagStore/View.antt =====
-- What a reader sees of the tag store (core-model/src/tag_store.rs): a map from ids to tags.
use opcua_plc_bridge.Base.{
  ℕ, ◌≡◌, refl, [], ◌∷◌, Option, none, some, Str, str_eq, str_eq_iff, length, get_elem?,
  get_elem?-set_self, get_elem?-set_ne, get_elem?_lt, get_elem?-append_last, get_elem?-append_left,
  lookup, lookup-insert, if◌then◌else◌, Outcome, ok, err, arith, Option-cases, inl, inr,
}
use opcua_plc_bridge.Core.Error.{CoreError, tag_not_found}
use opcua_plc_bridge.Core.Tag.{Tag}
use opcua_plc_bridge.Core.TagStore.{
  Inner, broadcast_change, store, push_slot, insert_locked, insert_tag, load, get, publish, finish,
  modify,
}
use opcua_plc_bridge.Core.TagStore.Invariant.{IsWellFormed, lookup-lt, lookup_injective}

module _ {T : Type 0} where
  unfoldable pub view : Inner T → Str → Option (Tag T)
  view s id = elim (lookup id s.index) [ some idx ↦ get_elem? s.tags idx | none ↦ none ]

  -- The map with one key changed.
  abbrev pub update : (Str → Option (Tag T)) → Str → Tag T → Str → Option (Tag T)
  update m id tag j = if str_eq id j then some tag else m j

  pub view-broadcast_change :
      (s : Inner T) (id : Str) (tag : Tag T) (j : Str)
      → view (broadcast_change id tag s) j ≡ view s j
  unfolding view broadcast_change
  view-broadcast_change s id tag j = refl

  pub view-store :
      (s : Inner T) (id : Str) (idx : ℕ) (tag : Tag T) (j : Str)
      → IsWellFormed s
      → lookup id s.index ≡ some idx
      → view (store idx tag s) j ≡ update (view s) id tag j
  unfolding view store
  view-store s id idx tag j h e = elim (Option-cases (lookup j s.index)) [
    | inl gone ↦ ground (arith, str_eq_iff id j)
    | inr (i, found) ↦ ground (
      arith,
      str_eq_iff id j,
      lookup_injective s.index 0 (length s.tags) id j idx h.indexed,
      lookup-lt s.index 0 (length s.tags) id idx h.indexed,
      get_elem?-set_self s.tags idx tag,
      get_elem?-set_ne s.tags idx i tag,
    )
  ]

  pub view-push_slot :
      (s : Inner T) (id : Str) (tag : Tag T) (j : Str)
      → IsWellFormed s
      → lookup id s.index ≡ none
      → view (push_slot id tag s) j ≡ update (view s) id tag j
  unfolding view push_slot
  view-push_slot s id tag j h e = elim (Option-cases (lookup j s.index)) [
    | inl gone ↦ ground (
      arith,
      lookup-insert id j (length s.tags) s.index,
      get_elem?-append_last s.tags tag (length s.tags) refl,
    )
    | inr (i, found) ↦ ground (
      arith,
      str_eq_iff id j,
      lookup-insert id j (length s.tags) s.index,
      lookup-lt s.index 0 (length s.tags) j i h.indexed,
      get_elem?-append_left s.tags (tag ∷ []) i,
    )
  ]

  -- In a well-formed store, `get` returns the tag that is seen under the id, and the error "not
  -- found" where none is; its indexing never panics.
  pub get-view :
      (s : Inner T) (id : Str)
      → IsWellFormed s
      → get id s ≡ elim (view s id) [ some tag ↦ ok tag | none ↦ err (tag_not_found id) ]
  unfolding get load view
  get-view s id h = elim (Option-cases (lookup id s.index)) [
    | inl gone ↦ ground arith
    | inr (i, found) ↦
        ground (arith, get_elem?_lt s.tags i, lookup-lt s.index 0 (length s.tags) id i h.indexed)
  ]

  -- After `insert` into a well-formed store a reader sees the new tag under its id, and under every
  -- other id what was there.
  pub view-insert_tag :
      (s : Inner T) (id : Str) (tag : Tag T) (j : Str)
      → IsWellFormed s
      → view (insert_tag id tag s) j ≡ update (view s) id tag j
  unfolding insert_tag insert_locked
  view-insert_tag s id tag j h = elim (Option-cases (lookup id s.index)) [
    | inl gone ↦
        rw (gone, insert_tag)
          (rw (gone, insert_locked) (rw view-broadcast_change (view-push_slot s id tag j h gone)))
    | inr (i, found) ↦
        rw (found, insert_tag) (rw view-broadcast_change (view-store s id i tag j h found))
  ]

  -- The slot of an id that a reader sees.
  pub slot_of :
      (s : Inner T) (id : Str) (current : Tag T)
      → view s id ≡ some current
      → (idx : ℕ) × (lookup id s.index ≡ some idx) × (load idx s ≡ ok current)
  unfolding view load
  slot_of s id current e = elim (Option-cases (lookup id s.index)) [
    | inl gone ↦ absurd (ground arith)
    | inr (i, found) ↦ (i, found, ground arith)
  ]

  no_slot : (s : Inner T) (id : Str) → IsWellFormed s → view s id ≡ none → lookup id s.index ≡ none
  unfolding view
  no_slot s id h e = elim (Option-cases (lookup id s.index)) [
    | inl gone ↦ gone
    | inr (i, found) ↦
        ground (arith, get_elem?_lt s.tags i, lookup-lt s.index 0 (length s.tags) id i h.indexed)
  ]

  pub view-publish :
      (s : Inner T) (id : Str) (idx : ℕ) (tag : Tag T) (j : Str)
      → IsWellFormed s
      → lookup id s.index ≡ some idx
      → view (publish id idx tag s) j ≡ update (view s) id tag j
  unfolding publish
  view-publish s id idx tag j h e = rw view-broadcast_change (view-store s id idx tag j h e)

module _ {T R : Type 0} where
  -- What an update of the tag `o`, seen under `id`, makes of it.
  abbrev pub changed :
      Option (Tag T) → Str → (Tag T → Outcome CoreError (Tag T × R)) → Outcome CoreError (Tag T × R)
  changed (some current) id change = change current
  changed none id change = err (tag_not_found id)

  abbrev pub result_of : Outcome CoreError (Tag T × R) → Outcome CoreError R
  result_of (ok (tag, res)) = ok res
  result_of (err e) = err e

  -- The map after it: changed at `id` where the update succeeded, and kept where it failed.
  abbrev pub after :
      Outcome CoreError (Tag T × R) → (Str → Option (Tag T)) → Str → Str → Option (Tag T)
  after (ok (tag, res)) m id j = update m id tag j
  after (err e) m id j = m j

  finish-view :
      (s : Inner T) (id : Str) (idx : ℕ) (r : Outcome CoreError (Tag T × R))
      → IsWellFormed s
      → lookup id s.index ≡ some idx
      → ((finish id idx r s).0 ≡ result_of r)
        × ((j : Str) → view (finish id idx r s).1 j ≡ after r (view s) id j)
  finish-view s id idx (ok (tag, res)) h e = (refl, λ j. view-publish s id idx tag j h e)
  finish-view s id idx (err e') h e = (refl, λ j. refl)

  -- An update answers from the map, and changes it at its own id at most.
  pub modify-view :
      (s : Inner T) (id : Str) (change : Tag T → Outcome CoreError (Tag T × R))
      → IsWellFormed s
      → ((modify id change s).0 ≡ result_of (changed (view s id) id change))
        × ((j : Str)
            → view (modify id change s).1 j ≡ after (changed (view s id) id change) (view s) id j)
  unfolding modify
  modify-view s id change h = elim (Option-cases (view s id)) [
    | inl gone ↦ rw (gone) (rw (no_slot s id h gone, modify) (refl, λ j. refl))
    | inr (current, found) ↦
        let (idx, e, l) = slot_of s id current found in
        rw found (rw (e, modify) (rw l (finish-view s id idx (change current) h e)))
  ]
