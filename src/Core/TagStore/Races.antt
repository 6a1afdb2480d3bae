-- ===== src/Core/TagStore/Races.antt =====
-- Two updates of one tag that overlap (core-model/src/tag_store.rs).
use opcua_plc_bridge.Base.{
  ℕ, zero, suc, ◌+◌, ◌≡◌, refl, ◌∙◌, ap, true, false, List, [], ◌∷◌, ◌++◌, Option, none, some, Str,
  length, length-set, set, get_elem?, get_elem?_lt, get_elem?-set_self, ◌<◌, lookup, str_eq_self,
  ok, arith,
}
use opcua_plc_bridge.Core.TagValue.{TagValue, TagDataType, TagQuality, matches}
use opcua_plc_bridge.Core.Tag.{Tag, apply_read, set_quality}
use opcua_plc_bridge.Core.TagStore.{Inner, store, load}
use opcua_plc_bridge.Core.TagStore.Invariant.{IsWellFormed, store-IsWellFormed}
use opcua_plc_bridge.Core.TagStore.View.{view, view-store, slot_of}
use opcua_plc_bridge.Core.TagStore.Subscribers.{Channel, TagChange, try_send}
use opcua_plc_bridge.Core.TagStore.Threads.{
  update_value_call, set_quality_call, Thread, announcing, sending, finished, System, Event, begin,
  move, begin_call, some_thread, send_next, advance, step, run,
}

module _ {T : Type 0} where
  -- Both calls look up the slot, then both load it, then each stores its copy, the first call first.
  abbrev pub overlap :
      Str → TagValue T → TagQuality → T → TagDataType → T → TagQuality → T → List (Event T)
  overlap id v q ts expected now q2 now2 =
      begin (update_value_call id v q ts expected now)
      ∷ begin (set_quality_call id q2 now2)
      ∷ move 0
      ∷ move 1
      ∷ move 0
      ∷ move 1
      ∷ move 0
      ∷ move 1
      ∷ []

  stored_both :
      (s : Inner T) (id : Str) (idx : ℕ) (current : Tag T) (v : TagValue T) (q q2 : TagQuality)
      (ts now now2 : T) (expected : TagDataType)
      → lookup id s.index ≡ some idx
      → load idx s ≡ ok current
      → matches v expected ≡ true
      → run (overlap id v q ts expected now q2 now2) (record { inner = s; threads = [] }) ≡ record {
        inner =
            store idx (set_quality current q2 now2) (store idx (apply_read current v q ts now) s);
        threads =
            announcing id (apply_read current v q ts now)
            ∷ announcing id (set_quality current q2 now2)
            ∷ [];
      }
  unfolding run step begin_call advance some_thread
  stored_both s id idx current v q q2 ts now now2 expected e l m = rw (m, e, l) refl

  -- Thread `i` moves `n` times.
  abbrev pub moves : ℕ → ℕ → List (Event T)
  moves i zero = []
  moves i (suc n) = move i ∷ moves i n

  run-append : (es fs : List (Event T)) (sys : System T) → run (es ++ fs) sys ≡ run fs (run es sys)
  unfolding run
  run-append [] fs sys = refl
  run-append (e ∷ es) fs sys = run-append es fs (step e sys)

  set-set : (ts : List (Thread T)) (i : ℕ) (t u : Thread T) → set (set ts i t) i u ≡ set ts i u
  set-set [] i t u = refl
  set-set (x ∷ ts) zero t u = refl
  set-set (x ∷ ts) (suc i) t u = ap (λ r. x ∷ r) (set-set ts i t u)

  none_at : (cs : List (Channel T)) (k : ℕ) → length cs ≡ k → get_elem? cs k ≡ none
  none_at [] k e = refl
  none_at (c ∷ cs) zero e = absurd (omega arith)
  none_at (c ∷ cs) (suc k) e = none_at cs k (omega arith)

  -- One `try_send`, and the end of the broadcast.
  send_step :
      (k i : ℕ) (s : Inner T) (ts : List (Thread T)) (change : TagChange T) (o : Option (Channel T))
      → i < length ts
      → get_elem? s.subscribers k ≡ o
      → step (move i) (record { inner = s; threads = set ts i (sending false k change) }) ≡ record {
        inner = (send_next false k change o s).1;
        threads = set ts i (send_next false k change o s).0;
      }
  unfolding step advance
  send_step k i s ts change o h e =
      rw (get_elem?-set_self ts i (sending false k change) h)
        (rw e (rw (set-set ts i (sending false k change) (send_next false k change o s).0) refl))

  -- A broadcast to the channels from `k` on, `n` of them, with no other thread between its sends.
  sends :
      (n k i : ℕ) (s : Inner T) (ts : List (Thread T)) (change : TagChange T)
      → i < length ts
      → length s.subscribers ≡ k + n
      → (cs : List (Channel T)) × (length cs ≡ length s.subscribers)
        × (run (moves i (suc n)) (record { inner = s; threads = set ts i (sending false k change) })
            ≡ record {
              inner = record s { subscribers = cs };
              threads = set ts i (finished (ok change.tag));
            })
  unfolding run
  sends zero k i s ts change h e = (
    s.subscribers,
    refl,
    send_step k i s ts change none h (none_at s.subscribers k (omega (arith, e))),
  )
  sends (suc n) k i s ts change h e =
      let (c, there) = get_elem?_lt s.subscribers k (omega (arith, e)) in
      let cs1 : List (Channel T) = set s.subscribers k (try_send change c) in
      let (cs, kept, rest) =
        sends n (suc k) i (record s { subscribers = cs1 }) ts change h
          (omega (arith, e, length-set s.subscribers k (try_send change c))) in
      (
        cs,
        kept ∙ length-set s.subscribers k (try_send change c),
        ap (run (moves i (suc n))) (send_step k i s ts change (some c) h there) ∙ rest,
      )

  -- The two updates with their broadcasts, to `n` channels each.
  abbrev pub race :
      Str → TagValue T → TagQuality → T → TagDataType → T → TagQuality → T → ℕ → List (Event T)
  race id v q ts expected now q2 now2 n =
      overlap id v q ts expected now q2 now2 ++ (moves 0 (suc (suc n)) ++ moves 1 (suc (suc n)))

  announced_both :
      (s : Inner T) (id : Str) (a b : Tag T)
      → (cs : List (Channel T)) × (run
            (moves 0 (suc (suc (length s.subscribers)))
              ++ moves 1 (suc (suc (length s.subscribers))))
            (record { inner = s; threads = announcing id a ∷ announcing id b ∷ [] })
          ≡ record {
            inner = record s { subscribers = cs };
            threads = finished (ok a) ∷ finished (ok b) ∷ [];
          })
  unfolding run step advance some_thread
  announced_both s id a b =
      let n : ℕ = length s.subscribers in
      let (cs, kept, first) =
        sends n 0 0 s (announcing id a ∷ announcing id b ∷ []) (record { tag_id = id; tag = a })
          (omega arith) (omega arith) in
      let (ds, _, second) =
        sends n 0 1 (record s { subscribers = cs }) (finished (ok a) ∷ announcing id b ∷ [])
          (record { tag_id = id; tag = b }) (omega arith) (omega (arith, kept)) in
      (
        ds,
        run-append (moves 0 (suc (suc n))) (moves 1 (suc (suc n)))
              (record { inner = s; threads = announcing id a ∷ announcing id b ∷ [] })
            ∙ ap (run (moves 1 (suc (suc n)))) first
            ∙ second,
      )

  seen_after :
      (s : Inner T) (id : Str) (idx : ℕ) (a b : Tag T)
      → IsWellFormed s
      → lookup id s.index ≡ some idx
      → view (store idx b (store idx a s)) id ≡ some b
  seen_after s id idx a b h found = rw (
    view-store (store idx a s) id idx b id (store-IsWellFormed idx a h) (unfold store in found),
    str_eq_self id,
  )

  -- Two updates of one tag can overlap so that both report success and one is lost. In every
  -- well-formed store, for a tag that is seen and a value of the expected type, there is an
  -- interleaving (both look up and load the slot, the update of the value stores, the update of the
  -- quality stores, both broadcast) after which both calls have finished with success, the first with
  -- the new value, quality and timestamps, and a reader sees the old value and source timestamp, with the
  -- quality and the server timestamp of the second.
  pub lost_update :
      (s : Inner T) (id : Str) (current : Tag T) (v : TagValue T) (q q2 : TagQuality)
      (ts now now2 : T) (expected : TagDataType)
      → IsWellFormed s
      → view s id ≡ some current
      → matches v expected ≡ true
      → (end : System T) × (run
            (race id v q ts expected now q2 now2 (length s.subscribers))
            (record { inner = s; threads = [] })
          ≡ end)
        × (end.threads
            ≡ finished (
                ok (record {
                  value = v;
                  quality = q;
                  source_timestamp = ts;
                  server_timestamp = now;
                }))
              ∷ finished (ok (record current { quality = q2; server_timestamp = now2 }))
              ∷ [])
        × (view end.inner id ≡ some (record current { quality = q2; server_timestamp = now2 }))
  unfolding store apply_read set_quality view
  lost_update s id current v q q2 ts now now2 expected h e m =
      let (idx, found, loaded) = slot_of s id current e in
      let a : Tag T = apply_read current v q ts now in
      let b : Tag T = set_quality current q2 now2 in
      let stored = stored_both s id idx current v q q2 ts now now2 expected found loaded m in
      let n2 : ℕ = suc (suc (length s.subscribers)) in
      let (cs, done) = announced_both (store idx b (store idx a s)) id a b in
      (
        record {
          inner = record (store idx b (store idx a s)) { subscribers = cs };
          threads = finished (ok a) ∷ finished (ok b) ∷ [];
        },
        run-append (overlap id v q ts expected now q2 now2) (moves 0 n2 ++ moves 1 n2)
              (record { inner = s; threads = [] })
            ∙ ap (run (moves 0 n2 ++ moves 1 n2)) stored
            ∙ done,
        refl,
        seen_after s id idx a b h found,
      )
