-- ===== src/Core/TagStore/Threads.antt =====
-- core-model/src/tag_store.rs: several threads that call the store. A thread moves by one atomic access:
-- a lookup under the read lock, the part of `insert` under the write lock, a load or a store of a
-- slot, which take no lock, the begin of a broadcast, and one `try_send` of it. A broadcast holds
-- its lock (the read lock, or in `insert` the write lock) from its begin to its end.
use opcua_plc_bridge.Base.{
  ℕ, suc, Bool, true, false, not, ◌||◌, List, [], ◌∷◌, ◌++◌, Option, none, some, Str, get_elem?,
  set, drop, lookup, if◌then◌else◌, Outcome, ok, err, ◌>>=◌,
}
use opcua_plc_bridge.Core.Error.{CoreError, tag_not_found, type_mismatch}
use opcua_plc_bridge.Core.TagValue.{TagValue, TagDataType, TagQuality, matches}
use opcua_plc_bridge.Core.Tag.{Tag, apply_read, set_quality, touch}
use opcua_plc_bridge.Core.TagStore.{Inner, store, push_slot, load, subscribe}
use opcua_plc_bridge.Core.TagStore.Subscribers.{Channel, TagChange, try_send}

module _ (T : Type 0) where
  -- The calls that change the store. The result of a closure plays no part in it.
  pub data Call : Type 0 where
    insert_call : Str → Tag T → Call
    update_value_call : Str → TagValue T → TagQuality → T → TagDataType → T → Call
    set_quality_call : Str → TagQuality → T → Call
    try_update_call : Str → (Tag T → Outcome CoreError (Tag T)) → T → Call
    subscribe_call : Call

  -- A call in progress, by what it does next: `sending exclusive i change` is a broadcast that holds
  -- the write lock or a read lock, and whose next channel is `i`.
  pub data Thread : Type 0 where
    inserting inserting_new announcing : Str → Tag T → Thread
    updating : Str → (Tag T → Outcome CoreError (Tag T)) → Thread
    loading : Str → ℕ → (Tag T → Outcome CoreError (Tag T)) → Thread
    storing : Str → ℕ → Tag T → Thread
    sending : Bool → ℕ → TagChange T → Thread
    subscribing subscribed : Thread
    finished : Outcome CoreError (Tag T) → Thread

  pub record System : Type 0 where
    pub inner : Inner T
    pub threads : List Thread

  -- What happens next: a thread calls the store, thread `i` moves, or the receiver of channel `i` takes
  -- the oldest `n` events or is dropped.
  pub data Event : Type 0 where
    begin : Call → Event
    move : ℕ → Event
    receive : ℕ → ℕ → Event
    hang_up : ℕ → Event

-- The lock that a move needs.
pub data Lock : Type 0 where
  no_lock read_lock write_lock : Lock

module _ {T : Type 0} where
  -- Where a call begins: `update_value_with_expected` tests the type before it takes any lock.
  unfoldable pub begin_call : Call T → Thread T
  begin_call (insert_call id tag) = inserting id tag
  begin_call (update_value_call id value quality source_ts expected now) =
      if matches value expected
      then updating id (λ current. ok (apply_read current value quality source_ts now))
      else finished (err (type_mismatch id))
  begin_call (set_quality_call id quality now) =
      updating id (λ current. ok (set_quality current quality now))
  begin_call (try_update_call id f now) =
      updating id (λ current. f current >>= λ t. ok (touch t now))
  begin_call subscribe_call = subscribing

  abbrev pub next_lock : Thread T → Lock
  next_lock (inserting id tag) = read_lock
  next_lock (updating id change) = read_lock
  next_lock (announcing id tag) = read_lock
  next_lock (inserting_new id tag) = write_lock
  next_lock subscribing = write_lock
  next_lock _ = no_lock

  abbrev pub holds_write : Thread T → Bool
  holds_write (sending exclusive i change) = exclusive
  holds_write _ = false

  abbrev pub holds_any : Thread T → Bool
  holds_any (sending exclusive i change) = true
  holds_any _ = false

  unfoldable pub some_thread : (Thread T → Bool) → List (Thread T) → Bool
  some_thread test [] = false
  some_thread test (t ∷ ts) = test t || some_thread test ts

  abbrev pub is_free : Lock → List (Thread T) → Bool
  is_free no_lock ts = true
  is_free read_lock ts = not (some_thread holds_write ts)
  is_free write_lock ts = not (some_thread holds_any ts)

  abbrev pub on_slot : Option ℕ → (ℕ → Thread T) → Thread T → Thread T
  on_slot none found gone = gone
  on_slot (some idx) found gone = found idx

  abbrev pub on_changed : Str → ℕ → Outcome CoreError (Tag T) → Thread T
  on_changed id idx (ok tag) = storing id idx tag
  on_changed id idx (err e) = finished (err e)

  -- The part of `insert` under the write lock, up to the begin of its broadcast.
  abbrev pub insert_new : Str → Tag T → Option ℕ → Inner T → Thread T × Inner T
  insert_new id tag (some idx) s = (finished (ok tag), store idx tag s)
  insert_new id tag none s =
      (sending true 0 (record { tag_id = id; tag = tag }), push_slot id tag s)

  -- `tx.try_send(...)` to channel `i`; behind the last one the lock is released.
  abbrev pub send_next : Bool → ℕ → TagChange T → Option (Channel T) → Inner T → Thread T × Inner T
  send_next exclusive i change none s = (finished (ok change.tag), s)
  send_next exclusive i change (some c) s = (
    sending exclusive (suc i) change,
    record s { subscribers = set s.subscribers i (try_send change c) },
  )

  -- One move of a thread.
  unfoldable pub advance : Thread T → Inner T → Thread T × Inner T
  advance (inserting id tag) s =
      (on_slot (lookup id s.index) (λ idx. storing id idx tag) (inserting_new id tag), s)
  advance (inserting_new id tag) s = insert_new id tag (lookup id s.index) s
  advance (updating id change) s = (
    on_slot (lookup id s.index) (λ idx. loading id idx change) (finished (err (tag_not_found id))),
    s,
  )
  advance (loading id idx change) s = (on_changed id idx (load idx s >>= change), s)
  advance (storing id idx tag) s = (announcing id tag, store idx tag s)
  advance (announcing id tag) s = (sending false 0 (record { tag_id = id; tag = tag }), s)
  advance (sending exclusive i change) s =
      send_next exclusive i change (get_elem? s.subscribers i) s
  advance subscribing s = (subscribed, subscribe s)
  advance subscribed s = (subscribed, s)
  advance (finished r) s = (finished r, s)

  abbrev with_moved : List (Thread T) → ℕ → Thread T × Inner T → System T
  with_moved ts i (t, s) = record { inner = s; threads = set ts i t }

  -- A thread that needs a lock that is not free waits.
  abbrev pub move_thread : ℕ → Option (Thread T) → System T → System T
  move_thread i none sys = sys
  move_thread i (some t) sys =
      if is_free (next_lock t) sys.threads
      then with_moved sys.threads i (advance t sys.inner)
      else sys

  abbrev pub on_channel : ℕ → (Channel T → Channel T) → Option (Channel T) → System T → System T
  on_channel i f none sys = sys
  on_channel i f (some c) sys = record sys {
    inner = record sys.inner { subscribers = set sys.inner.subscribers i (f c) };
  }

  unfoldable pub step : Event T → System T → System T
  step (begin call) sys = record sys { threads = sys.threads ++ (begin_call call ∷ []) }
  step (move i) sys = move_thread i (get_elem? sys.threads i) sys
  step (receive i n) sys =
      on_channel i (λ c. record c { queue = drop n c.queue }) (get_elem? sys.inner.subscribers i)
        sys
  step (hang_up i) sys =
      on_channel i (λ c. record c { connected = false }) (get_elem? sys.inner.subscribers i) sys

  -- An interleaving: the events in their order.
  unfoldable pub run : List (Event T) → System T → System T
  run [] sys = sys
  run (e ∷ es) sys = run es (step e sys)
