-- ===== src/Fins/Writes/Effects.antt =====
-- What a queued write does to the tags (driver/fins/src/driver.rs).
use opcua_plc_bridge.Base.{
  ℕ, ◌+◌, ◌*◌, ◌^◌, ◌==◌, ◌≡◌, refl, List, ◌++◌, Str, codes, Option, none, some, true, Outcome, ok,
  err, Bool-cases, inl, inr, if◌then◌else◌, lookup, length, ltb,
}
use opcua_plc_bridge.Core.TagValue.{TagValue, TagQuality, data_type}
use opcua_plc_bridge.Core.TagDefinition.{TagDefinition}
use opcua_plc_bridge.Core.Tag.{Tag}
use opcua_plc_bridge.Core.Registry.Typed.{IsTyped}
use opcua_plc_bridge.Core.Registry.Seen.{seen, Shows, set_tag_quality-Shows, update_tag_value-Shows}
use opcua_plc_bridge.Driver.Chrono.{Chrono}
use opcua_plc_bridge.Driver.Words.{ordered_words, ordered-even}
use opcua_plc_bridge.Modbus.Bus.{WriteRequest}
use opcua_plc_bridge.Fins.Mapping.{TagMapping}
use opcua_plc_bridge.Fins.Codec.{tagvalue_to_words_standard}
use opcua_plc_bridge.Fins.Frame.{byte_at, parse_fins_response}
use opcua_plc_bridge.Fins.Link.{
  Link, Stream, end_code_text, display, next_sid, set_quality, update_good, send_reply, exchange,
  request,
}
use opcua_plc_bridge.Fins.Writes.{
  find_mapping, write_frame, reject, on_parsed, on_answer, send_words, write_converted,
  write_mapped, process_write,
}

-- What the answer to a write of a session says: nothing against it, or a quality for the tag and a
-- text for the client.
abbrev pub verdict : ℕ → Outcome Str (List ℕ) → Option (TagQuality × Str)
verdict sid (err e) = some (TagQuality.comm_lost, codes "IO error: " ++ e)
verdict sid (ok payload) =
    let end_code = byte_at 12 payload * 2 ^ 8 + byte_at 13 payload in
    if ltb (length payload) 14
    then some (
      TagQuality.error (codes "parse_write_resp: Protocol error: Frame too short"),
      codes "Parse error: Protocol error: Frame too short",
    )
    else if byte_at 9 payload == sid
    then if end_code == 0
      then none
      else some (TagQuality.error (end_code_text end_code), end_code_text end_code)
    else some (TagQuality.comm_lost, codes "SID mismatch")

module _ {T : Type 0} where
  -- The tag and the replies in `r`, after a write from `b` that a verdict was given on: `t` is the tag
  -- before.
  abbrev pub Settles :
      Str → WriteRequest T → Tag T → Link T → Link T → Option (TagQuality × Str) → Type 0
  Settles id req t b r none =
      Shows r.registry id req.value TagQuality.good
      × (r.replies ≡ (send_reply req.reply (ok tt) b).replies)
  Settles id req t b r (some (q, text)) =
      Shows r.registry id t.value q × (r.replies ≡ (send_reply req.reply (err text) b).replies)

  send_reply-registry :
      (c : Option ℕ) (res : Outcome Str (Unit {0})) (b : Link T)
      → (send_reply c res b).registry ≡ b.registry
  unfolding send_reply
  send_reply-registry none res b = refl
  send_reply-registry (some c) res b = refl

  send_reply-replies :
      (c : Option ℕ) (res : Outcome Str (Unit {0})) (b b1 : Link T)
      → b.replies ≡ b1.replies
      → (send_reply c res b).replies ≡ (send_reply c res b1).replies
  unfolding send_reply
  send_reply-replies none res b b1 e = e
  send_reply-replies (some c) res b b1 e = cc

  replied-Shows :
      (c : Option ℕ) (res : Outcome Str (Unit {0})) (b : Link T) (id : Str) (v : TagValue T)
      (q : TagQuality)
      → Shows b.registry id v q
      → Shows (send_reply c res b).registry id v q
  unfolding send_reply
  replied-Shows none res b id v q s = s
  replied-Shows (some c) res b id v q s = s

  module _ (chrono : Chrono T) (clock : ℕ → T) (m : TagMapping) (req : WriteRequest T) (t : Tag T)
      (d : TagDefinition) (b0 b : Link T) (h : IsTyped b.registry)
      (found : lookup m.tag_id b.registry.definitions ≡ some d)
      (same : data_type req.value ≡ d.data_type) (s : seen b.registry m.tag_id ≡ some t)
      (r : b.replies ≡ b0.replies) where
    rejected :
        (q : TagQuality) (text : Str)
        → Settles m.tag_id req t b0 (reject chrono clock m req q text b) (some (q, text))
    unfolding reject set_quality
    rejected q text = (
      replied-Shows req.reply (err text) _ m.tag_id t.value q
          (set_tag_quality-Shows m.tag_id q _ b.registry t h.tags s),
      send_reply-replies req.reply (err text) _ b0 r,
    )

    accepted :
        Settles m.tag_id req t b0
          (send_reply req.reply (ok tt) (update_good clock m.tag_id req.value b))
          none
    unfolding update_good
    accepted = (
      replied-Shows req.reply (ok tt) _ m.tag_id req.value TagQuality.good
          (update_tag_value-Shows m.tag_id req.value TagQuality.good _ _ b.registry d h found same),
      send_reply-replies req.reply (ok tt) _ b0 r,
    )

    on_answer-Settles :
        (sid : ℕ) (a : Outcome Str (List ℕ))
        → Settles m.tag_id req t b0 (on_answer chrono clock m req sid a b) (verdict sid a)
    unfolding on_answer on_parsed parse_fins_response display
    on_answer-Settles sid (err e) = rejected TagQuality.comm_lost _
    on_answer-Settles sid (ok payload) = elim (Bool-cases (ltb (length payload) 14)) [
      | inl few ↦ rw few (rejected _ _)
      | inr enough ↦ rw enough (elim (Bool-cases (byte_at 9 payload == sid)) [
        | inr other ↦ rw other (rejected TagQuality.comm_lost _)
        | inl ours ↦
            rw ours (elim (Bool-cases (byte_at 12 payload * 2 ^ 8 + byte_at 13 payload == 0)) [
              | inl zero_code ↦ rw zero_code accepted
              | inr code ↦ rw code (rejected _ _)
            ])
      ])
    ]

  module _ (chrono : Chrono T) (clock : ℕ → T) (stream : Stream) (ms : List TagMapping) where
    -- A request on a typed registry has a writable mapping, its value has the type of the tag's
    -- definition and converts to words. Then the words are sent in the mapping's byte order under the
    -- next session id, and the answer decides. A response of that session with end code 0 gives the
    -- tag the new value with quality Good, and the reply is a success. Otherwise the tag keeps its
    -- value: it gets CommLost after an error of the stream and for another session's response, and
    -- an Error with the text for a response that is too short and for another end code, and the
    -- reply is an error with the text.
    pub fins_write-Settles :
        (req : WriteRequest T) (m : TagMapping) (words : List ℕ) (d : TagDefinition) (t : Tag T)
        (b : Link T)
        → IsTyped b.registry
        → find_mapping ms req.tag_id ≡ some m
        → m.writable ≡ true
        → tagvalue_to_words_standard chrono req.value ≡ ok words
        → lookup m.tag_id b.registry.definitions ≡ some d
        → data_type req.value ≡ d.data_type
        → seen b.registry m.tag_id ≡ some t
        → Settles m.tag_id req t b (process_write chrono clock stream ms req b) (
            verdict b.sid_counter (
              exchange stream b.calls
                (write_frame b.sid_counter m (ordered_words m.byte_order words))))
    unfolding process_write ordered_words
    fins_write-Settles req m words d t b h found writable converts defined same s =
        let frame : List ℕ = write_frame b.sid_counter m (ordered_words m.byte_order words) in
        let b2 : Link T = (request stream frame (next_sid b).1).1 in
        let path : process_write chrono clock stream ms req b
            ≡ on_answer chrono clock m req b.sid_counter (exchange stream b.calls frame) b2 =
          unfold write_mapped write_converted send_words next_sid request in
          simp (found, writable, converts, ordered-even m.byte_order words) in
        rw path (
          on_answer-Settles chrono clock m req t d b b2 (unfold request next_sid in h)
            (unfold request next_sid in defined) same (unfold request next_sid in s)
            (unfold request next_sid in refl) b.sid_counter (exchange stream b.calls frame))
