-- ===== src/Modbus/Writes/Replies.antt =====
-- Which requests the writes of a cycle answer (driver/modbus/src/driver.rs).
use opcua_plc_bridge.Base.{
  ℕ, zero, suc, ◌≤◌, ◌%◌, ◌==◌, ◌≡◌, refl, sym, ap, ◌∙◌, List, [], ◌∷◌, ◌++◌, map, Str, Option,
  none, some, Bool, true, false, Outcome, is_err, ◌⊎◌, ok, err, inl, inr, if-both, min, length,
  take, drop, arith,
}
use mathlib.Core.List.{append_assoc, append-nil, map-append}
use opcua_plc_bridge.Core.WordOrder.{apply_to_bytes}
use opcua_plc_bridge.Driver.Chrono.{Chrono}
use opcua_plc_bridge.Driver.Error.{DriverError}
use opcua_plc_bridge.Driver.Words.{registers_to_bytes}
use opcua_plc_bridge.Modbus.Mapping.{ModbusMapping}
use opcua_plc_bridge.Modbus.Bus.{
  Bus, Device, Run, and_then, WriteRequest, WriteFailure, Answer, answered, exception, transport,
  timed_out, send_reply, set_quality, update_good, send_health_event, connect, take_context,
  put_back,
}
use opcua_plc_bridge.Modbus.Reads.{is_illegal}
use opcua_plc_bridge.Modbus.Writes.{
  find_mapping, is_holding, reject, on_exception, on_write, send_words, write_words,
  write_converted, write_mapped, process_write, drain_queue, drain,
}

-- The reply channel of a request, where it has one.
abbrev pub channel_of : {T : Type 0} → WriteRequest T → List ℕ
channel_of req = elim req.reply [ none ↦ [] | some c ↦ c ∷ [] ]

-- The reply channels of a list of requests, in order.
abbrev pub channels : {T : Type 0} → List (WriteRequest T) → List ℕ
channels [] = []
channels (req ∷ reqs) = channel_of req ++ channels reqs

-- The channels that have been replied on, oldest first.
abbrev pub replied : {T : Type 0} → Bus T → List ℕ
replied b = map (λ r. r.0) b.replies

module _ {T : Type 0} where
  -- From `b`, the run replied on `req`'s channel, once, where there is one, and on no other; and it
  -- took nothing from the queue.
  abbrev pub Answers : WriteRequest T → Bus T → Outcome DriverError (Unit {0}) × Bus T → Type 0
  Answers req b r = (replied r.1 ≡ replied b ++ channel_of req) × (r.1.queue ≡ b.queue)

  replied-send_reply :
      (c : Option ℕ) (res : Outcome WriteFailure (Unit {0})) (b : Bus T)
      → (replied (send_reply c res b) ≡ replied b ++ elim c [ none ↦ [] | some c ↦ c ∷ [] ])
        × ((send_reply c res b).queue ≡ b.queue)
  unfolding send_reply
  replied-send_reply none res b = (sym (append-nil (replied b)), refl)
  replied-send_reply (some c) res b = (map-append (λ r. r.0) b.replies ((c, res) ∷ []), refl)

  -- From `b`, the run took `k` requests from the front of the queue, `n` at most, and replied to
  -- these; it ended with an error, or `k` is `n` or the queue is used up.
  abbrev pub Drained : ℕ → Bus T → Outcome DriverError (Unit {0}) × Bus T → Type 0
  Drained n b r =
      (k : ℕ) × (k ≤ n)
      × (r.1.queue ≡ drop k b.queue)
      × (replied r.1 ≡ replied b ++ channels (take k b.queue))
      × ((is_err r.0 ≡ true) ⊎ (k ≡ min n (length b.queue)))

  Drained-and_then :
      (n : ℕ) (b : Bus T) (req : WriteRequest T) (rest : List (WriteRequest T))
      (r : Outcome DriverError (Unit {0}) × Bus T) (next : Run T)
      → b.queue ≡ req ∷ rest
      → Answers req (record b { queue = rest }) r
      → ((b : Bus T) → Drained n b (next b))
      → Drained (suc n) b (and_then r next)
  Drained-and_then n b req rest (err e, b1) next q (said, left) k = rw q (
    1,
    omega arith,
    left,
    said ∙ ap (λ xs. replied b ++ xs) (sym (append-nil (channel_of req))),
    inl refl,
  )
  Drained-and_then n b req rest (ok done, b1) next q (said, left) k =
      let (i, le, queue, replies, all) = k b1 in
      let queue_next : (next b1).1.queue ≡ drop i rest = queue ∙ ap (drop i) left in
      let replies_next : replied (next b1).1
          ≡ (replied b ++ channel_of req) ++ channels (take i rest) =
        replies ∙ cc (said, left) in
      rw q (
        suc i,
        omega (arith, le),
        queue_next,
        replies_next ∙ append_assoc (replied b) (channel_of req) (channels (take i rest)),
        wider all,
      )
    where
      wider :
          {i : ℕ}
          → (is_err (next b1).0 ≡ true) ⊎ (i ≡ min n (length b1.queue))
          → (is_err (next b1).0 ≡ true) ⊎ (suc i ≡ min (suc n) (length (req ∷ rest)))
      wider (inl e) = inl e
      wider (inr e) = inr (omega (arith, e ∙ ap (λ q. min n (length q)) left))

module _ {T : Type 0} (chrono : Chrono T) (clock : ℕ → T) (device : Device) where
  reject-Answers :
      (m : ModbusMapping) (req : WriteRequest T) (f : WriteFailure) (b : Bus T)
      → Answers req b (ok tt, reject chrono clock m req f b)
  unfolding reject set_quality
  reject-Answers m req f b = replied-send_reply req.reply _ _

  on_exception-Answers :
      (i : Bool) (m : ModbusMapping) (req : WriteRequest T) (emsg : Str) (b : Bus T)
      → Answers req b (on_exception chrono clock i m req emsg b)
  unfolding on_exception set_quality take_context send_health_event
  on_exception-Answers true m req emsg b = replied-send_reply req.reply _ _
  on_exception-Answers false m req emsg b = reject-Answers m req _ b

  on_write-Answers :
      (m : ModbusMapping) (req : WriteRequest T) (a : Answer (Unit {0})) (b : Bus T)
      → Answers req b (on_write chrono clock m req a b)
  unfolding on_write update_good take_context
  on_write-Answers m req (answered done) b = replied-send_reply req.reply _ _
  on_write-Answers m req (exception emsg) b = on_exception-Answers (is_illegal emsg) m req emsg b
  on_write-Answers m req (transport t) b = reject-Answers m req _ b
  on_write-Answers m req timed_out b = reject-Answers m req _ b

  write_words-Answers :
      (m : ModbusMapping) (req : WriteRequest T) (words : List ℕ) (b : Bus T)
      → Answers req b (write_words chrono clock device m req words b)
  unfolding write_words send_words put_back connect
  write_words-Answers m req words b =
      if-both (is_holding m.function) (Answers req b)
        (if-both (length (apply_to_bytes m.byte_order (registers_to_bytes words)) % 2 == 0)
          (Answers req b) (on_write-Answers m req _ _) (reject-Answers m req _ b))
        (reject-Answers m req _ b)

  write_converted-Answers :
      (m : ModbusMapping) (req : WriteRequest T) (o : Outcome DriverError (List ℕ)) (b : Bus T)
      → Answers req b (write_converted chrono clock device m req o b)
  unfolding write_converted
  write_converted-Answers m req (ok words) b = write_words-Answers m req words b
  write_converted-Answers m req (err e) b = reject-Answers m req _ b

  write_mapped-Answers :
      (om : Option ModbusMapping) (req : WriteRequest T) (b : Bus T)
      → Answers req b (write_mapped chrono clock device om req b)
  unfolding write_mapped
  write_mapped-Answers none req b = replied-send_reply req.reply _ b
  write_mapped-Answers (some m) req b =
      if-both m.writable (Answers req b) (write_converted-Answers m req _ b)
        (replied-send_reply req.reply _ b)

  Drained-drain_queue :
      (ms : List ModbusMapping) (n : ℕ) (b : Bus T) (q : List (WriteRequest T)) (next : Run T)
      → b.queue ≡ q
      → ((b : Bus T) → Drained n b (next b))
      → Drained (suc n) b (drain_queue chrono clock device ms q next b)
  unfolding drain_queue process_write
  Drained-drain_queue ms n b [] next q k =
      (0, omega arith, refl, sym (append-nil (replied b)), inr (omega (arith, ap length q)))
  Drained-drain_queue ms n b (req ∷ rest) next q k =
      Drained-and_then n b req rest _ next q
        (write_mapped-Answers (find_mapping ms req.tag_id) req (record b { queue = rest })) k

  -- The writes of a cycle take some number `k` of requests from the front of the queue, `n` at most, and
  -- reply to exactly these, each once and in their order, on the channels that they carry. Either
  -- they end the cycle with an error, or `k` is `n` or the length of the queue, whichever is less.
  pub drain_replies :
      (ms : List ModbusMapping) (n : ℕ) (b : Bus T) → Drained n b (drain chrono clock device ms n b)
  unfolding drain
  drain_replies ms zero b = (0, omega arith, refl, sym (append-nil (replied b)), inr (omega arith))
  drain_replies ms (suc n) b =
      Drained-drain_queue ms n b b.queue (drain chrono clock device ms n) refl (drain_replies ms n)
