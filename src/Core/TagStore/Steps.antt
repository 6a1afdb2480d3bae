-- ===== src/Core/TagStore/Steps.antt =====
-- What holds in every interleaving of threads (core-model/src/tag_store.rs).
use opcua_plc_bridge.Base.{
  ℕ, zero, suc, ◌≡◌, refl, Bool, false, List, [], ◌∷◌, ◌++◌, Option, none, some, Str, length, set,
  get_elem?, All, lookup, lookup-insert, str_eq_iff, Option-cases, Bool-cases, inl, inr, Outcome,
  ok, err, ◌>>=◌, arith, length-drop,
}
use opcua_plc_bridge.Core.Error.{CoreError}
use opcua_plc_bridge.Core.TagValue.{matches}
use opcua_plc_bridge.Core.Tag.{Tag}
use opcua_plc_bridge.Core.TagStore.{Inner, store, push_slot, load, subscribe}
use opcua_plc_bridge.Core.TagStore.Subscribers.{Channel, TagChange, IsBounded, try_send-IsBounded}
use opcua_plc_bridge.Core.TagStore.Invariant.{
  IsWellFormed, store-IsWellFormed, push_slot-IsWellFormed, subscribe-IsWellFormed,
}
use opcua_plc_bridge.Core.TagStore.Locks.{IsGuarded, begun-IsGuarded, advance-IsGuarded}
use opcua_plc_bridge.Core.TagStore.Threads.{
  holds_any, holds_write, Call, insert_call, update_value_call, set_quality_call, try_update_call,
  subscribe_call, Thread, inserting, inserting_new, announcing, updating, loading, storing, sending,
  subscribing, subscribed, finished, System, Event, begin, move, receive, hang_up, begin_call,
  next_lock, is_free, on_changed, insert_new, send_next, advance, move_thread, on_channel, step,
  run,
}

module _ {A : Type 0} (P : A → Type 0) where
  All-set : (xs : List A) (i : ℕ) (x : A) → All P xs → P x → All P (set xs i x)
  All-set [] i x h g = tt
  All-set (y ∷ xs) zero x h g = (g, h.1)
  All-set (y ∷ xs) (suc i) x h g = (h.0, All-set xs i x h.1 g)

  All-at : (xs : List A) (i : ℕ) (x : A) → All P xs → get_elem? xs i ≡ some x → P x
  All-at [] i x h e = cc
  All-at (y ∷ xs) zero x h e = ground arith
  All-at (y ∷ xs) (suc i) x h e = All-at xs i x h.1 e

  All-end : (xs : List A) (x : A) → All P xs → P x → All P (xs ++ (x ∷ []))
  All-end [] x h g = (g, tt)
  All-end (y ∷ xs) x h g = (h.0, All-end xs x h.1 g)

All-weaken :
    {A : Type 0} (P Q : A → Type 0) → ((x : A) → P x → Q x) → (xs : List A) → All P xs → All Q xs
All-weaken P Q f [] h = tt
All-weaken P Q f (x ∷ xs) h = (f x h.0, All-weaken P Q f xs h.1)

module _ {T : Type 0} where
  -- A handle that a thread has cloned is the slot of its id.
  abbrev pub HasSlot : Inner T → Thread T → Type 0
  HasSlot s (loading id idx change) = lookup id s.index ≡ some idx
  HasSlot s (storing id idx tag) = lookup id s.index ≡ some idx
  HasSlot s _ = Unit {0}

  -- The store is well-formed, every thread's handle is valid, and the write lock is held alone.
  pub record IsConsistent (sys : System T) : Type 0 where
    pub store : IsWellFormed sys.inner
    pub handles : All (HasSlot sys.inner) sys.threads
    pub guarded : IsGuarded sys.threads

  -- Every id of one store has the same slot in the other.
  abbrev KeepsSlots : Inner T → Inner T → Type 0
  KeepsSlots s s1 =
      (id : Str) (idx : ℕ) → lookup id s.index ≡ some idx → lookup id s1.index ≡ some idx

  kept_handle : (s s1 : Inner T) → KeepsSlots s s1 → (t : Thread T) → HasSlot s t → HasSlot s1 t
  kept_handle s s1 k (loading id idx change) h = k id idx h
  kept_handle s s1 k (storing id idx tag) h = k id idx h
  kept_handle s s1 k _ h = tt

  push_slot-KeepsSlots :
      (id : Str) (tag : Tag T) (s : Inner T)
      → lookup id s.index ≡ none
      → KeepsSlots s (push_slot id tag s)
  unfolding push_slot
  push_slot-KeepsSlots id tag s gone j idx e =
      ground (arith, str_eq_iff id j, lookup-insert id j (length s.tags) s.index)

  subscribers-IsWellFormed :
      (s : Inner T) (cs : List (Channel T))
      → IsWellFormed s
      → All IsBounded cs
      → IsWellFormed (record s { subscribers = cs })
  subscribers-IsWellFormed s cs h g = record {
    indexed = h.indexed;
    sorted = h.sorted;
    counted = h.counted;
    same_ids = h.same_ids;
    bounded = g;
  }

  -- What a move does: a well-formed store, the same slots, and a handle that is valid.
  abbrev Moved : Inner T → Thread T × Inner T → Type 0
  Moved s (t, s1) = IsWellFormed s1 × KeepsSlots s s1 × HasSlot s1 t

  insert_new-Moved :
      (id : Str) (tag : Tag T) (s : Inner T) (o : Option ℕ)
      → IsWellFormed s
      → lookup id s.index ≡ o
      → Moved s (insert_new id tag o s)
  unfolding store
  insert_new-Moved id tag s none h e =
      (push_slot-IsWellFormed id tag h e, push_slot-KeepsSlots id tag s e, tt)
  insert_new-Moved id tag s (some idx) h e =
      (unfold store in store-IsWellFormed idx tag h, λ j i f. f, tt)

  send_next-Moved :
      (exclusive : Bool) (i : ℕ) (change : TagChange T) (s : Inner T) (o : Option (Channel T))
      → IsWellFormed s
      → get_elem? s.subscribers i ≡ o
      → Moved s (send_next exclusive i change o s)
  send_next-Moved exclusive i change s none h e = (h, λ j k f. f, tt)
  send_next-Moved exclusive i change s (some c) h e = (
    subscribers-IsWellFormed s _ h (
        All-set IsBounded s.subscribers i _ h.bounded
          (try_send-IsBounded change c (All-at IsBounded s.subscribers i c h.bounded e))),
    λ j k f. f,
    tt,
  )

  changed-HasSlot :
      (s : Inner T) (id : Str) (idx : ℕ) (r : Outcome CoreError (Tag T))
      → lookup id s.index ≡ some idx
      → HasSlot s (on_changed id idx r)
  changed-HasSlot s id idx (ok tag) e = e
  changed-HasSlot s id idx (err x) e = tt

  advance-Moved :
      (t : Thread T) (s : Inner T) → IsWellFormed s → HasSlot s t → Moved s (advance t s)
  unfolding advance store subscribe
  advance-Moved (inserting id tag) s h g = elim (Option-cases (lookup id s.index)) [
    | inl gone ↦ rw gone (h, λ j k f. f, tt)
    | inr (i, found) ↦ rw found (h, λ j k f. f, found)
  ]
  advance-Moved (inserting_new id tag) s h g = insert_new-Moved id tag s (lookup id s.index) h refl
  advance-Moved (updating id change) s h g = elim (Option-cases (lookup id s.index)) [
    | inl gone ↦ rw gone (h, λ j k f. f, tt)
    | inr (i, found) ↦ rw found (h, λ j k f. f, found)
  ]
  advance-Moved (loading id idx change) s h g =
      (h, λ j k f. f, changed-HasSlot s id idx (load idx s >>= change) g)
  advance-Moved (storing id idx tag) s h g =
      (unfold store in store-IsWellFormed idx tag h, λ j k f. f, tt)
  advance-Moved (announcing id tag) s h g = (h, λ j k f. f, tt)
  advance-Moved (sending exclusive i change) s h g =
      send_next-Moved exclusive i change s (get_elem? s.subscribers i) h refl
  advance-Moved subscribing s h g = (unfold subscribe in subscribe-IsWellFormed h, λ j k f. f, tt)
  advance-Moved subscribed s h g = (h, λ j k f. f, tt)
  advance-Moved (finished r) s h g = (h, λ j k f. f, tt)

  move-IsConsistent :
      (i : ℕ) (o : Option (Thread T)) (sys : System T)
      → get_elem? sys.threads i ≡ o
      → IsConsistent sys
      → IsConsistent (move_thread i o sys)
  move-IsConsistent i none sys e h = h
  move-IsConsistent i (some t) sys e h = elim (Bool-cases (is_free (next_lock t) sys.threads)) [
    | inl free ↦
        let (store, keeps, handle) =
          advance-Moved t sys.inner h.store
            (All-at (HasSlot sys.inner) sys.threads i t h.handles e) in
        rw free (record {
          store = store;
          handles =
              All-set (HasSlot (advance t sys.inner).1) sys.threads i (advance t sys.inner).0
                (All-weaken (HasSlot sys.inner) (HasSlot (advance t sys.inner).1)
                  (kept_handle sys.inner (advance t sys.inner).1 keeps) sys.threads h.handles)
                handle;
          guarded = advance-IsGuarded sys.threads i t sys.inner e free h.guarded;
        })
    | inr busy ↦ rw busy h
  ]

  channel-IsConsistent :
      (i : ℕ) (f : Channel T → Channel T) (o : Option (Channel T)) (sys : System T)
      → get_elem? sys.inner.subscribers i ≡ o
      → ((c : Channel T) → IsBounded c → IsBounded (f c))
      → IsConsistent sys
      → IsConsistent (on_channel i f o sys)
  channel-IsConsistent i f none sys e g h = h
  channel-IsConsistent i f (some c) sys e g h = record {
    store = subscribers-IsWellFormed sys.inner _ h.store (
        All-set IsBounded sys.inner.subscribers i _ h.store.bounded
          (g c (All-at IsBounded sys.inner.subscribers i c h.store.bounded e)));
    handles =
        All-weaken (HasSlot sys.inner) _
          (kept_handle sys.inner
            (record sys.inner { subscribers = set sys.inner.subscribers i (f c) }) (λ j k e. e))
          sys.threads h.handles;
    guarded = h.guarded;
  }

  begun : (call : Call T) (s : Inner T) → HasSlot s (begin_call call)
  unfolding begin_call
  begun (insert_call id tag) s = tt
  begun (update_value_call id value quality source_ts expected now) s =
      elim (Bool-cases (matches value expected)) [ inl good ↦ rw good tt | inr bad ↦ rw bad tt ]
  begun (set_quality_call id quality now) s = tt
  begun (try_update_call id f now) s = tt
  begun subscribe_call s = tt

  begin_lockless :
      (call : Call T)
      → (holds_any (begin_call call) ≡ false) × (holds_write (begin_call call) ≡ false)
  unfolding begin_call
  begin_lockless (insert_call id tag) = (refl, refl)
  begin_lockless (update_value_call id value quality source_ts expected now) =
      elim (Bool-cases (matches value expected)) [
        | inl good ↦ rw good (refl, refl)
        | inr bad ↦ rw bad (refl, refl)
      ]
  begin_lockless (set_quality_call id quality now) = (refl, refl)
  begin_lockless (try_update_call id f now) = (refl, refl)
  begin_lockless subscribe_call = (refl, refl)

  step-IsConsistent : (e : Event T) (sys : System T) → IsConsistent sys → IsConsistent (step e sys)
  unfolding step
  step-IsConsistent (begin call) sys h = record {
    store = h.store;
    handles =
        All-end (HasSlot sys.inner) sys.threads (begin_call call) h.handles (begun call sys.inner);
    guarded =
        let (any, write) = begin_lockless call in
        begun-IsGuarded sys.threads (begin_call call) any write h.guarded;
  }
  step-IsConsistent (move i) sys h = move-IsConsistent i (get_elem? sys.threads i) sys refl h
  step-IsConsistent (receive i n) sys h =
      channel-IsConsistent i _ (get_elem? sys.inner.subscribers i) sys refl
        (λ c b. omega (arith, length-drop n c.queue, b)) h
  step-IsConsistent (hang_up i) sys h =
      channel-IsConsistent i _ (get_elem? sys.inner.subscribers i) sys refl (λ c b. b) h

  -- Whatever calls the threads make, in whatever order their accesses and the receivers' come, with
  -- broadcasts that go channel by channel: a consistent system stays consistent. Its store is
  -- well-formed: the index numbers the slots, the cached ids are those of the index, strictly sorted,
  -- and no subscriber's channel holds more than 128 events; the handle that a thread has cloned is the
  -- slot of its id; and a thread that broadcasts under the write lock is the only one that broadcasts.
  pub run-IsConsistent :
      (es : List (Event T)) (sys : System T) → IsConsistent sys → IsConsistent (run es sys)
  unfolding run
  run-IsConsistent [] sys h = h
  run-IsConsistent (e ∷ es) sys h = run-IsConsistent es (step e sys) (step-IsConsistent e sys h)
