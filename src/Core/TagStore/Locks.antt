-- ===== src/Core/TagStore/Locks.antt =====
-- Which threads hold the lock of core-model/src/tag_store.rs while they broadcast.
use opcua_plc_bridge.Base.{
  ℕ, zero, suc, ◌+◌, ◌≤◌, ◌≡◌, refl, Bool, true, false, not, List, [], ◌∷◌, ◌++◌, Option, none,
  some, set, get_elem?, lookup, Str, ◌⊎◌, inl, inr, Outcome, ok, err, ◌>>=◌, arith,
}
use opcua_plc_bridge.Core.Error.{CoreError}
use opcua_plc_bridge.Core.Tag.{Tag}
use opcua_plc_bridge.Core.TagStore.{Inner, load}
use opcua_plc_bridge.Core.TagStore.Subscribers.{Channel, TagChange}
use opcua_plc_bridge.Core.TagStore.Threads.{
  Thread, inserting, inserting_new, announcing, updating, loading, storing, sending, subscribing,
  subscribed, finished, next_lock, holds_write, holds_any, some_thread, is_free, on_slot,
  on_changed, insert_new, send_next, advance,
}

abbrev one : Bool → ℕ
one true = 1
one false = 0

module _ {T : Type 0} where
  unfoldable pub count : (Thread T → Bool) → List (Thread T) → ℕ
  count p [] = 0
  count p (t ∷ ts) = one (p t) + count p ts

  -- No thread holds the write lock, or no thread but one holds any lock.
  abbrev pub IsGuarded : List (Thread T) → Type 0
  IsGuarded ts = (count holds_write ts ≡ 0) ⊎ (count holds_any ts ≤ 1)

  count-set :
      (p : Thread T → Bool) (ts : List (Thread T)) (i : ℕ) (t u : Thread T)
      → get_elem? ts i ≡ some t
      → count p (set ts i u) + one (p t) ≡ count p ts + one (p u)
  unfolding count
  count-set p [] i t u e = cc
  count-set p (x ∷ ts) zero t u e = let same : x ≡ t = cc in rw same (omega arith)
  count-set p (x ∷ ts) (suc i) t u e = omega (arith, count-set p ts i t u e)

  count-end :
      (p : Thread T → Bool) (ts : List (Thread T)) (t : Thread T)
      → count p (ts ++ (t ∷ [])) ≡ count p ts + one (p t)
  unfolding count
  count-end p [] t = omega arith
  count-end p (x ∷ ts) t = omega (arith, count-end p ts t)

  count_free :
      (p : Thread T → Bool) (ts : List (Thread T)) → not (some_thread p ts) ≡ true → count p ts ≡ 0
  unfolding count some_thread
  count_free p [] e = refl
  count_free p (t ∷ ts) e = ground (arith, count_free p ts)

  -- A thread that joins without a lock.
  pub begun-IsGuarded :
      (ts : List (Thread T)) (t : Thread T)
      → holds_any t ≡ false
      → holds_write t ≡ false
      → IsGuarded ts
      → IsGuarded (ts ++ (t ∷ []))
  begun-IsGuarded ts t e f (inl g) = inl (rw (count-end holds_write ts t, f) (omega (arith, g)))
  begun-IsGuarded ts t e f (inr g) = inr (rw (count-end holds_any ts t, e) (omega (arith, g)))

  -- A thread that moves on and takes no lock.
  kept-IsGuarded :
      (ts : List (Thread T)) (i : ℕ) (t u : Thread T)
      → get_elem? ts i ≡ some t
      → one (holds_write u) ≤ one (holds_write t)
      → one (holds_any u) ≤ one (holds_any t)
      → IsGuarded ts
      → IsGuarded (set ts i u)
  kept-IsGuarded ts i t u e w a (inl g) =
      inl (omega (arith, count-set holds_write ts i t u e, g, w))
  kept-IsGuarded ts i t u e w a (inr g) = inr (omega (arith, count-set holds_any ts i t u e, g, a))

  slot_lockless :
      (test : Thread T → Bool) (o : Option ℕ) (found : ℕ → Thread T) (gone : Thread T)
      → ((idx : ℕ) → test (found idx) ≡ false)
      → test gone ≡ false
      → test (on_slot o found gone) ≡ false
  slot_lockless test none found gone f g = g
  slot_lockless test (some idx) found gone f g = f idx

  changed_lockless :
      (id : Str) (idx : ℕ) (r : Outcome CoreError (Tag T))
      → (holds_write (on_changed id idx r) ≡ false) × (holds_any (on_changed id idx r) ≡ false)
  changed_lockless id idx (ok tag) = (refl, refl)
  changed_lockless id idx (err e) = (refl, refl)

  -- A thread that moves without a lock before and after.
  lockless-IsGuarded :
      (ts : List (Thread T)) (i : ℕ) (t u : Thread T)
      → get_elem? ts i ≡ some t
      → holds_write u ≡ false
      → holds_any u ≡ false
      → IsGuarded ts
      → IsGuarded (set ts i u)
  lockless-IsGuarded ts i t u e w a g =
      kept-IsGuarded ts i t u e (rw w (omega arith)) (rw a (omega arith)) g

  insert_new-IsGuarded :
      (ts : List (Thread T)) (i : ℕ) (id : Str) (tag : Tag T) (o : Option ℕ) (s : Inner T)
      → get_elem? ts i ≡ some (inserting_new id tag)
      → not (some_thread holds_any ts) ≡ true
      → IsGuarded ts
      → IsGuarded (set ts i (insert_new id tag o s).0)
  insert_new-IsGuarded ts i id tag (some idx) s e free g =
      lockless-IsGuarded ts i (inserting_new id tag) _ e refl refl g
  insert_new-IsGuarded ts i id tag none s e free g = inr (
      omega (
        arith,
        count-set holds_any ts i (inserting_new id tag)
            (sending true 0 (record { tag_id = id; tag = tag })) e,
        count_free holds_any ts free,
      ))

  send_next-IsGuarded :
      (ts : List (Thread T)) (i k : ℕ) (exclusive : Bool) (change : TagChange T)
      (o : Option (Channel T)) (s : Inner T)
      → get_elem? ts i ≡ some (sending exclusive k change)
      → IsGuarded ts
      → IsGuarded (set ts i (send_next exclusive k change o s).0)
  send_next-IsGuarded ts i k exclusive change none s e g =
      lockless-IsGuarded ts i (sending exclusive k change) _ e refl refl g
  send_next-IsGuarded ts i k exclusive change (some c) s e g =
      kept-IsGuarded ts i (sending exclusive k change) _ e (omega arith) (omega arith) g

  -- A thread moves where the lock that it needs is free.
  pub advance-IsGuarded :
      (ts : List (Thread T)) (i : ℕ) (t : Thread T) (s : Inner T)
      → get_elem? ts i ≡ some t
      → is_free (next_lock t) ts ≡ true
      → IsGuarded ts
      → IsGuarded (set ts i (advance t s).0)
  unfolding advance
  advance-IsGuarded ts i (inserting id tag) s e free g =
      lockless-IsGuarded ts i (inserting id tag) _ e
        (slot_lockless holds_write (lookup id s.index) _ _ (λ idx. refl) refl)
        (slot_lockless holds_any (lookup id s.index) _ _ (λ idx. refl) refl) g
  advance-IsGuarded ts i (inserting_new id tag) s e free g =
      insert_new-IsGuarded ts i id tag (lookup id s.index) s e free g
  advance-IsGuarded ts i (updating id change) s e free g =
      lockless-IsGuarded ts i (updating id change) _ e
        (slot_lockless holds_write (lookup id s.index) _ _ (λ idx. refl) refl)
        (slot_lockless holds_any (lookup id s.index) _ _ (λ idx. refl) refl) g
  advance-IsGuarded ts i (loading id idx change) s e free g =
      let (w, a) = changed_lockless id idx (load idx s >>= change) in
      lockless-IsGuarded ts i (loading id idx change) _ e w a g
  advance-IsGuarded ts i (storing id idx tag) s e free g =
      lockless-IsGuarded ts i (storing id idx tag) _ e refl refl g
  advance-IsGuarded ts i (announcing id tag) s e free g = inl (
      omega (
        arith,
        count-set holds_write ts i (announcing id tag)
            (sending false 0 (record { tag_id = id; tag = tag })) e,
        count_free holds_write ts free,
      ))
  advance-IsGuarded ts i (sending exclusive k change) s e free g =
      send_next-IsGuarded ts i k exclusive change (get_elem? s.subscribers k) s e g
  advance-IsGuarded ts i subscribing s e free g =
      lockless-IsGuarded ts i subscribing _ e refl refl g
  advance-IsGuarded ts i subscribed s e free g = lockless-IsGuarded ts i subscribed _ e refl refl g
  advance-IsGuarded ts i (finished r) s e free g =
      lockless-IsGuarded ts i (finished r) _ e refl refl g
