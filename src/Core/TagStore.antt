-- ===== src/Core/TagStore.antt =====
-- core-model/src/tag_store.rs: the runtime store. A slot (`Arc<ArcSwap<Tag>>`) is its index in
-- `tags`, since slots are never removed; the lock guards of a call are the state that it is given.
-- Each `now` is what `Utc::now()` reads in the call.
pub mod Subscribers
pub mod Invariant
pub mod View
pub mod Updates
pub mod Kept
pub mod Threads
pub mod Locks
pub mod Steps
pub mod Races
use opcua_plc_bridge.Base.{
  ℕ, zero, suc, Bool, true, false, not, List, [], ◌∷◌, ◌++◌, map, Option, none, some, Str, str_lt,
  length, get_elem?, set, lookup, insert, if◌then◌else◌, Outcome, ok, err, ◌>>=◌, ◌==◌,
}
use opcua_plc_bridge.Core.Error.{CoreError, tag_not_found, type_mismatch, panicked}
use opcua_plc_bridge.Core.TagValue.{TagValue, TagDataType, TagQuality, matches}
use opcua_plc_bridge.Core.Tag.{Tag, apply_read, set_quality, touch}
use Subscribers.{Channel, TagChange, try_send, new_channel}

pub record Inner (T : Type 0) : Type 0 where
  pub tags : List (Tag T)
  pub index : List (Str × ℕ)
  pub sorted_ids : List Str
  pub subscribers : List (Channel T)

-- Where `binary_search_by` finds that `id` can be inserted into a sorted vector that lacks it.
unfoldable pub insert_position : Str → List Str → ℕ
insert_position id [] = 0
insert_position id (x ∷ xs) =
    let rest = insert_position id xs in if str_lt x id then suc rest else 0

-- `vec.insert(pos, id)`
unfoldable pub insert_at : ℕ → Str → List Str → List Str
insert_at zero id xs = id ∷ xs
insert_at (suc n) id [] = id ∷ []
insert_at (suc n) id (x ∷ xs) = x ∷ insert_at n id xs

-- `Inner::new`
abbrev pub empty : (T : Type 0) → Inner T
empty T = record { tags = []; index = []; sorted_ids = []; subscribers = [] }

module _ {T : Type 0} where
  -- `broadcast_change` and `broadcast_change_locked`
  unfoldable pub broadcast_change : Str → Tag T → Inner T → Inner T
  broadcast_change id tag s = record s {
    subscribers = map (try_send (record { tag_id = id; tag = tag })) s.subscribers;
  }

  -- `handle.store(tag)` of the slot `idx`
  unfoldable pub store : ℕ → Tag T → Inner T → Inner T
  store idx tag s = record s { tags = set s.tags idx tag }

  -- A new slot, its key and its place among the sorted ids.
  unfoldable pub push_slot : Str → Tag T → Inner T → Inner T
  push_slot id tag s = record s {
    tags = s.tags ++ (tag ∷ []);
    index = insert id (length s.tags) s.index;
    sorted_ids = insert_at (insert_position id s.sorted_ids) id s.sorted_ids;
  }

  -- The part of `insert` under the write lock. Where another thread has inserted the id since the
  -- read lock was released, the tag is stored and no change is broadcast.
  unfoldable pub insert_locked : Str → Tag T → Inner T → Inner T
  insert_locked id tag s = elim (lookup id s.index) [
    | some idx ↦ store idx tag s
    | none ↦ broadcast_change id tag (push_slot id tag s)
  ]

  -- `TagStore::insert`, with no other thread between its locks.
  unfoldable pub insert_tag : Str → Tag T → Inner T → Inner T
  insert_tag id tag s = elim (lookup id s.index) [
    | some idx ↦ broadcast_change id tag (store idx tag s)
    | none ↦ insert_locked id tag s
  ]

  abbrev slot : Option (Tag T) → Outcome CoreError (Tag T)
  slot none = err panicked
  slot (some tag) = ok tag

  -- `inner.tags[idx].load_full()`
  unfoldable pub load : ℕ → Inner T → Outcome CoreError (Tag T)
  load idx s = slot (get_elem? s.tags idx)

  -- `TagStore::get`
  unfoldable pub get : Str → Inner T → Outcome CoreError (Tag T)
  get id s = elim (lookup id s.index) [ some idx ↦ load idx s | none ↦ err (tag_not_found id) ]

  -- Store a changed copy into its slot and broadcast it.
  unfoldable pub publish : Str → ℕ → Tag T → Inner T → Inner T
  publish id idx tag s = broadcast_change id tag (store idx tag s)

  abbrev finish :
      {R : Type 0}
      → Str
      → ℕ
      → Outcome CoreError (Tag T × R)
      → Inner T
      → Outcome CoreError R × Inner T
  finish id idx (ok (t, res)) s = (ok res, publish id idx t s)
  finish id idx (err e) s = (err e, s)

  -- The part that the updates share: find the slot under the read lock, load it, change a copy,
  -- and publish the copy where that did not fail.
  unfoldable pub modify :
      {R : Type 0}
      → Str
      → (Tag T → Outcome CoreError (Tag T × R))
      → Inner T
      → Outcome CoreError R × Inner T
  modify id change s = elim (lookup id s.index) [
    | some idx ↦ finish id idx (load idx s >>= change) s
    | none ↦ (err (tag_not_found id), s)
  ]

  -- `TagStore::update_value_with_expected`
  unfoldable pub update_value_with_expected :
      Str
      → TagValue T
      → TagQuality
      → T
      → TagDataType
      → T
      → Inner T
      → Outcome CoreError (Tag T) × Inner T
  update_value_with_expected id value quality source_ts expected now s =
      if matches value expected
      then modify id
          (λ current. let t = apply_read current value quality source_ts now in ok (t, t)) s
      else (err (type_mismatch id), s)

  -- `TagStore::set_quality`
  unfoldable pub set_tag_quality :
      Str → TagQuality → T → Inner T → Outcome CoreError (Unit {0}) × Inner T
  set_tag_quality id quality now s =
      modify id (λ current. ok (set_quality current quality now, tt)) s

  -- `TagStore::try_update_with`: the closure returns the tag that it has changed, and its result.
  unfoldable pub try_update_with :
      {R : Type 0}
      → Str
      → (Tag T → Outcome CoreError (Tag T × R))
      → T
      → Inner T
      → Outcome CoreError R × Inner T
  try_update_with id f now s =
      modify id (λ current. do (t, res) ← f current; ok (touch t now, res)) s

  -- `TagStore::subscribe`: the receiver is the new last channel.
  unfoldable pub subscribe : Inner T → Inner T
  subscribe s = record s { subscribers = s.subscribers ++ (new_channel T ∷ []) }

  -- `TagStore::list_ids_sorted`
  abbrev pub list_ids_sorted : Inner T → List Str
  list_ids_sorted s = s.sorted_ids

  -- `TagStore::len` and `TagStore::is_empty`
  abbrev pub len : Inner T → ℕ
  len s = length s.tags

  abbrev pub is_empty : Inner T → Bool
  is_empty s = len s == 0
