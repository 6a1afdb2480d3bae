-- ===== src/Tests/Store.antt =====
-- The theorems on core-model/src at concrete data.
use opcua_plc_bridge.Base.{
  ℕ, ◌≡◌, refl, ◌↔◌, [], ◌∷◌, Str, some, ok, All, lookup, insert, str_eq, true, length, inl, arith,
}
use opcua_plc_bridge.Core.TagValue.{matches, TagValue, TagDataType, TagQuality}
use opcua_plc_bridge.Core.Tag
use opcua_plc_bridge.Core.Tag.{Tag, new_tag}
use opcua_plc_bridge.Core.TagStore.{
  push_slot, broadcast_change, insert_locked, insert_tag, update_value_with_expected,
}
use opcua_plc_bridge.Core.TagStore.View.{view, result_of, after}
use opcua_plc_bridge.Core.TagStore.Updates.{typed_read, update_value_view}
use opcua_plc_bridge.Core.TagStore.Subscribers.{new_channel}
use opcua_plc_bridge.Core.TagStore.Locks.{count}
use opcua_plc_bridge.Core.TagStore.Threads.{
  storing, updating, finished, subscribe_call, System, begin, move, run,
}
use opcua_plc_bridge.Core.TagStore.Steps.{IsConsistent, run-IsConsistent}
use opcua_plc_bridge.Core.TagStore.Races.{race, lost_update}
use opcua_plc_bridge.Core.DefinitionStore.{Definitions, from_definitions}
use opcua_plc_bridge.Core.DefinitionStore.Built.{IsValid, Distinct, from_definitions_iff}
use opcua_plc_bridge.Core.Registry.Typed.{IsTyped}
use opcua_plc_bridge.Core.Registry.Built.{from_definitions-IsTyped}
use opcua_plc_bridge.Tests.Data.{
  clock, temp, definitions, registry, registry_built, temp_store, temp_store-IsWellFormed,
}

abbrev temp_tag : Tag ℕ
temp_tag = record {
  value = TagValue.uint16 7;
  quality = TagQuality.initializing;
  source_timestamp = 1;
  server_timestamp = 1;
}

temp_slot : lookup temp temp_store.index ≡ some 0
unfolding lookup insert_tag insert_locked broadcast_change push_slot insert str_eq
temp_slot = refl

update_value_view_example :
    ((update_value_with_expected temp
        (TagValue.uint16 9)
        TagQuality.good
        5
        TagDataType.uint16
        6
        temp_store).0
      ≡ result_of
          (typed_read temp_store temp (TagValue.uint16 9) TagQuality.good 5 TagDataType.uint16 6))
    × ((j : Str)
        → view
            (update_value_with_expected temp
              (TagValue.uint16 9)
              TagQuality.good
              5
              TagDataType.uint16
              6
              temp_store).1
            j
          ≡ after
              (typed_read temp_store temp
                (TagValue.uint16 9)
                TagQuality.good
                5
                TagDataType.uint16
                6)
              (view temp_store)
              temp
              j)
update_value_view_example =
    update_value_view temp_store temp (TagValue.uint16 9) TagQuality.good 5 TagDataType.uint16 6
      temp_store-IsWellFormed

-- A subscriber, and two threads, one of which is between its load and its store.
abbrev running : System ℕ
running = record {
  inner = record temp_store { subscribers = new_channel ℕ ∷ [] };
  threads =
      storing temp 0 temp_tag ∷ updating temp (λ t. ok (Tag.set_quality t TagQuality.stale 6)) ∷ [];
}

running-IsConsistent : IsConsistent running
unfolding count
running-IsConsistent = record {
  store = record {
    indexed = temp_store-IsWellFormed.indexed;
    sorted = temp_store-IsWellFormed.sorted;
    counted = temp_store-IsWellFormed.counted;
    same_ids = temp_store-IsWellFormed.same_ids;
    bounded = (omega arith, tt);
  };
  handles = (temp_slot, (tt, tt));
  guarded = inl refl;
}

run-IsConsistent_example :
    IsConsistent (
      run (move 1 ∷ move 0 ∷ begin subscribe_call ∷ move 0 ∷ move 1 ∷ move 0 ∷ move 2 ∷ []) running)
run-IsConsistent_example =
    run-IsConsistent
      (move 1 ∷ move 0 ∷ begin subscribe_call ∷ move 0 ∷ move 1 ∷ move 0 ∷ move 2 ∷ []) running
      running-IsConsistent

temp-view : view temp_store temp ≡ some temp_tag
unfolding view insert_tag lookup insert_locked broadcast_change push_slot insert str_eq new_tag
temp-view = refl

nine_matches : matches {T = ℕ} (TagValue.uint16 9) TagDataType.uint16 ≡ true
unfolding matches
nine_matches = refl

lost_update_example :
    (end : System ℕ) × (run
        (race temp
          (TagValue.uint16 9)
          TagQuality.good
          5
          TagDataType.uint16
          6
          TagQuality.stale
          8
          (length temp_store.subscribers))
        (record { inner = temp_store; threads = [] })
      ≡ end)
    × (end.threads
        ≡ finished (
            ok (record {
              value = TagValue.uint16 9;
              quality = TagQuality.good;
              source_timestamp = 5;
              server_timestamp = 6;
            }))
          ∷ finished (ok (record temp_tag { quality = TagQuality.stale; server_timestamp = 8 }))
          ∷ [])
    × (view end.inner temp
        ≡ some (record temp_tag { quality = TagQuality.stale; server_timestamp = 8 }))
lost_update_example =
    lost_update temp_store temp temp_tag (TagValue.uint16 9) TagQuality.good TagQuality.stale 5 6 8
      TagDataType.uint16 temp_store-IsWellFormed temp-view nine_matches

from_definitions_iff_example :
    ((r : Definitions) × (from_definitions definitions ≡ ok r))
    ↔ All IsValid definitions × Distinct definitions
from_definitions_iff_example = from_definitions_iff definitions

from_definitions-IsTyped_example : IsTyped registry
from_definitions-IsTyped_example =
    from_definitions-IsTyped clock definitions registry registry_built
