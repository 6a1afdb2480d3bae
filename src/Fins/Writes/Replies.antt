-- ===== src/Fins/Writes/Replies.antt =====
-- Which requests the writes of a cycle answer (driver/fins/src/driver.rs).
use opcua_plc_bridge.Base.{
  ℕ, zero, suc, ◌%◌, ◌==◌, ◌≡◌, refl, sym, ap, ◌∙◌, List, [], ◌∷◌, ◌++◌, map, Str, Option, none,
  some, Outcome, ok, err, if-both, length, take, drop,
}
use mathlib.Core.List.{append_assoc, append-nil, map-append}
use opcua_plc_bridge.Core.TagValue.{TagQuality}
use opcua_plc_bridge.Core.WordOrder.{apply_to_bytes}
use opcua_plc_bridge.Driver.Chrono.{Chrono}
use opcua_plc_bridge.Driver.Error.{DriverError}
use opcua_plc_bridge.Driver.Words.{registers_to_bytes}
use opcua_plc_bridge.Modbus.Bus.{WriteRequest}
use opcua_plc_bridge.Modbus.Writes.Replies.{channel_of, channels}
use opcua_plc_bridge.Fins.Mapping.{TagMapping}
use opcua_plc_bridge.Fins.Frame.{parse_fins_response}
use opcua_plc_bridge.Fins.Link.{
  Link, Stream, next_sid, request, set_quality, update_good, send_reply,
}
use opcua_plc_bridge.Fins.Writes.{
  find_mapping, reject, on_parsed, on_answer, send_words, write_converted, write_mapped,
  process_write, drain_queue, drain,
}

-- The channels that have been replied on, oldest first.
abbrev pub replied : {T : Type 0} → Link T → List ℕ
replied b = map (λ r. r.0) b.replies

module _ {T : Type 0} where
  -- From `b`, one reply was sent, on `req`'s channel where it has one; the queue is as it was.
  abbrev pub Answers : WriteRequest T → Link T → Link T → Type 0
  Answers req b r = (replied r ≡ replied b ++ channel_of req) × (r.queue ≡ b.queue)

  -- From `b`, the first `n` requests of the queue were taken and replied to.
  abbrev pub Drained : ℕ → Link T → Link T → Type 0
  Drained n b r = (r.queue ≡ drop n b.queue) × (replied r ≡ replied b ++ channels (take n b.queue))

  replied-send_reply :
      (c : Option ℕ) (res : Outcome Str (Unit {0})) (b : Link T)
      → (replied (send_reply c res b) ≡ replied b ++ elim c [ none ↦ [] | some c ↦ c ∷ [] ])
        × ((send_reply c res b).queue ≡ b.queue)
  unfolding send_reply
  replied-send_reply none res b = (sym (append-nil (replied b)), refl)
  replied-send_reply (some c) res b = (map-append (λ r. r.0) b.replies ((c, res) ∷ []), refl)

  Drained-next :
      (n : ℕ) (b b1 : Link T) (req : WriteRequest T) (rest : List (WriteRequest T))
      (next : Link T → Link T)
      → b.queue ≡ req ∷ rest
      → Answers req (record b { queue = rest }) b1
      → ((b : Link T) → Drained n b (next b))
      → Drained (suc n) b (next b1)
  Drained-next n b b1 req rest next q (said, left) k =
      let (queue, replies) = k b1 in
      let queue_next : (next b1).queue ≡ drop n rest = queue ∙ ap (drop n) left in
      let replies_next : replied (next b1)
          ≡ (replied b ++ channel_of req) ++ channels (take n rest) =
        replies ∙ cc (said, left) in
      rw q (
        queue_next,
        replies_next ∙ append_assoc (replied b) (channel_of req) (channels (take n rest)),
      )

module _ {T : Type 0} (chrono : Chrono T) (clock : ℕ → T) where
  reject-Answers :
      (m : TagMapping) (req : WriteRequest T) (q : TagQuality) (text : Str) (b : Link T)
      → Answers req b (reject chrono clock m req q text b)
  unfolding reject set_quality
  reject-Answers m req q text b = replied-send_reply req.reply _ _

  on_parsed-Answers :
      (m : TagMapping) (req : WriteRequest T) (sid : ℕ) (r : Outcome DriverError (ℕ × ℕ × List ℕ))
      (b : Link T)
      → Answers req b (on_parsed chrono clock m req sid r b)
  unfolding on_parsed update_good
  on_parsed-Answers m req sid (err e) b = reject-Answers m req _ _ b
  on_parsed-Answers m req sid (ok (resp_sid, end_code, data_bytes)) b =
      if-both (resp_sid == sid) (Answers req b)
        (if-both (end_code == 0) (Answers req b) (replied-send_reply req.reply _ _)
          (reject-Answers m req _ _ b))
        (reject-Answers m req _ _ b)

  on_answer-Answers :
      (m : TagMapping) (req : WriteRequest T) (sid : ℕ) (r : Outcome Str (List ℕ)) (b : Link T)
      → Answers req b (on_answer chrono clock m req sid r b)
  unfolding on_answer
  on_answer-Answers m req sid (err e) b = reject-Answers m req _ _ b
  on_answer-Answers m req sid (ok payload) b =
      on_parsed-Answers m req sid (parse_fins_response payload) b

  module _ (stream : Stream) where
    write_converted-Answers :
        (m : TagMapping) (req : WriteRequest T) (o : Outcome DriverError (List ℕ)) (b : Link T)
        → Answers req b (write_converted chrono clock stream m req o b)
    unfolding write_converted send_words next_sid request
    write_converted-Answers m req (err e) b = replied-send_reply req.reply _ b
    write_converted-Answers m req (ok words) b =
        if-both (length (apply_to_bytes m.byte_order (registers_to_bytes words)) % 2 == 0)
          (Answers req b) (on_answer-Answers m req _ _ _) (replied-send_reply req.reply _ b)

    write_mapped-Answers :
        (om : Option TagMapping) (req : WriteRequest T) (b : Link T)
        → Answers req b (write_mapped chrono clock stream om req b)
    unfolding write_mapped
    write_mapped-Answers none req b = replied-send_reply req.reply _ b
    write_mapped-Answers (some m) req b =
        if-both m.writable (Answers req b) (write_converted-Answers m req _ b)
          (replied-send_reply req.reply _ b)

    Drained-drain_queue :
        (ms : List TagMapping) (n : ℕ) (b : Link T) (q : List (WriteRequest T))
        (next : Link T → Link T)
        → b.queue ≡ q
        → ((b : Link T) → Drained n b (next b))
        → Drained (suc n) b (drain_queue chrono clock stream ms q next b)
    unfolding drain_queue process_write
    Drained-drain_queue ms n b [] next q k = rw q (refl, sym (append-nil (replied b)))
    Drained-drain_queue ms n b (req ∷ rest) next q k =
        Drained-next n b _ req rest next q
          (write_mapped-Answers (find_mapping ms req.tag_id) req (record b { queue = rest })) k

    -- The writes of a FINS cycle take the first `n` requests from the queue, or all where there are
    -- fewer, and reply to exactly these, each once and in their order, on the channels that they
    -- carry, whatever the stream answers: no error ends them early.
    pub fins_drain_replies :
        (ms : List TagMapping) (n : ℕ) (b : Link T) → Drained n b (drain chrono clock stream ms n b)
    unfolding drain
    fins_drain_replies ms zero b = (refl, sym (append-nil (replied b)))
    fins_drain_replies ms (suc n) b =
        Drained-drain_queue ms n b b.queue (drain chrono clock stream ms n) refl
          (fins_drain_replies ms n)
