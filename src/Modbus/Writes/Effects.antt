-- ===== src/Modbus/Writes/Effects.antt =====
-- What a queued write does to the tags, and when the device is written (driver/modbus/src/driver.rs).
use opcua_plc_bridge.Base.{
  ℕ, ◌+◌, ◌≡◌, ◌≢◌, refl, ◌∙◌, List, ◌++◌, Str, codes, Option, none, some, Bool, true, false,
  Outcome, ok, err, Bool-cases, inl, inr, if◌then◌else◌, lookup,
}
use opcua_plc_bridge.Core.TagValue.{TagValue, TagQuality, data_type}
use opcua_plc_bridge.Core.TagDefinition.{TagDefinition}
use opcua_plc_bridge.Core.Tag.{Tag}
use opcua_plc_bridge.Core.Registry.Typed.{IsTyped}
use opcua_plc_bridge.Driver.Chrono.{Chrono}
use opcua_plc_bridge.Driver.Error.{DriverError, modbus, timeout}
use opcua_plc_bridge.Driver.Words.{ordered_words, ordered-even}
use opcua_plc_bridge.Modbus.Mapping.{
  ModbusFunction, ModbusMapping, coils, discrete_inputs, holding_registers, input_registers,
}
use opcua_plc_bridge.Modbus.Codec.{tagvalue_to_registers}
use opcua_plc_bridge.Modbus.Bus.{
  Bus, Device, WriteRequest, WriteFailure, Answer, answered, exception, transport, timed_out,
  send_reply, set_quality, send_health_event, connect, take_context, put_back,
}
use opcua_plc_bridge.Modbus.Bus.Seen.{seen, Shows, set_quality-Shows, update_good-Shows}
use opcua_plc_bridge.Modbus.Reads.{is_illegal}
use opcua_plc_bridge.Modbus.Writes.{
  find_mapping, is_holding, reject, on_exception, on_write, send_words, write_words,
  write_converted, write_mapped, process_write,
}

-- The value that the tag has after the device's answer, of the new one and the old one.
abbrev pub value_after {ℓ} : {A : Type ℓ} → Answer (Unit {0}) → A → A → A
value_after (answered done) new old = new
value_after _ new old = old

-- The quality that the tag has after the device's answer.
abbrev pub quality_after : Answer (Unit {0}) → TagQuality
quality_after (answered done) = TagQuality.good
quality_after (exception e) = if is_illegal e then TagQuality.config_error else TagQuality.comm_lost
quality_after (transport t) = TagQuality.comm_lost
quality_after timed_out = TagQuality.comm_lost

-- How the device's answer ends the cycle, or does not.
abbrev pub result_after : Answer (Unit {0}) → Outcome DriverError (Unit {0})
result_after (answered done) = ok tt
result_after (exception e) = if is_illegal e then ok tt else err (modbus e)
result_after (transport t) = err (modbus (codes "Transport: " ++ t))
result_after timed_out = err timeout

module _ {T : Type 0} (chrono : Chrono T) (clock : ℕ → T) where
  seen-send_reply :
      (c : Option ℕ) (res : Outcome WriteFailure (Unit {0})) (b : Bus T) (j : Str)
      → seen (send_reply c res b) j ≡ seen b j
  unfolding send_reply
  seen-send_reply none res b j = refl
  seen-send_reply (some c) res b j = refl

  replied-Shows :
      (c : Option ℕ) (res : Outcome WriteFailure (Unit {0})) (b : Bus T) (j : Str) (v : TagValue T)
      (q : TagQuality)
      → Shows b j v q
      → Shows (send_reply c res b) j v q
  replied-Shows c res b j v q (t, s, value, quality) =
      (t, seen-send_reply c res b j ∙ s, value, quality)

  module _ (m : ModbusMapping) (req : WriteRequest T) (b : Bus T) (t : Tag T)
      (h : IsTyped b.registry) where
    marked :
        (q : TagQuality) (res : Outcome WriteFailure (Unit {0}))
        → seen b m.tag_id ≡ some t
        → Shows (send_reply req.reply res (set_quality clock m.tag_id q b)) m.tag_id t.value q
    marked q res s =
        replied-Shows req.reply res _ m.tag_id t.value q
          (set_quality-Shows clock m.tag_id q b t h.tags s)

    on_exception-Shows :
        (i : Bool) (emsg : Str)
        → seen b m.tag_id ≡ some t
        → ((on_exception chrono clock i m req emsg b).0 ≡ (if i then ok tt else err (modbus emsg)))
          × Shows
              (on_exception chrono clock i m req emsg b).1
              m.tag_id
              t.value
              (if i then TagQuality.config_error else TagQuality.comm_lost)
    unfolding on_exception reject take_context send_health_event
    on_exception-Shows true emsg s = (refl, marked TagQuality.config_error _ s)
    on_exception-Shows false emsg s = (refl, marked TagQuality.comm_lost _ s)

    on_write-Shows :
        (a : Answer (Unit {0})) (d : TagDefinition)
        → lookup m.tag_id b.registry.definitions ≡ some d
        → data_type req.value ≡ d.data_type
        → seen b m.tag_id ≡ some t
        → ((on_write chrono clock m req a b).0 ≡ result_after a)
          × Shows
              (on_write chrono clock m req a b).1
              m.tag_id
              (value_after a req.value t.value)
              (quality_after a)
    unfolding on_write reject take_context
    on_write-Shows (answered done) d found same s = (
      refl,
      replied-Shows req.reply (ok tt) _ m.tag_id req.value TagQuality.good
          (update_good-Shows clock m.tag_id req.value b d h found same),
    )
    on_write-Shows (exception e) d found same s = on_exception-Shows (is_illegal e) e s
    on_write-Shows (transport x) d found same s = (refl, marked TagQuality.comm_lost _ s)
    on_write-Shows timed_out d found same s = (refl, marked TagQuality.comm_lost _ s)

  module _ (device : Device) (ms : List ModbusMapping) where
    -- A request on a typed registry has a writable mapping to holding registers, its value has the
    -- type of the tag's definition and converts to words. Then the device is called with the words in the
    -- mapping's byte order at the mapping's address, and its answer decides: the tag has the new value
    -- with quality Good after success, and else the old value, with ConfigError after an
    -- exception that names an illegal address and with CommLost after any other exception, a transport
    -- error or a timeout; these last three end the cycle with an error, the others do not.
    pub process_write-Shows :
        (req : WriteRequest T) (m : ModbusMapping) (words : List ℕ) (d : TagDefinition) (t : Tag T)
        (b : Bus T)
        → IsTyped b.registry
        → find_mapping ms req.tag_id ≡ some m
        → m.writable ≡ true
        → m.function ≡ holding_registers
        → tagvalue_to_registers chrono req.value ≡ ok words
        → lookup m.tag_id b.registry.definitions ≡ some d
        → data_type req.value ≡ d.data_type
        → seen b m.tag_id ≡ some t
        → ((process_write chrono clock device ms req b).0
            ≡ result_after (
                device.write_multiple_registers b.calls m.address
                  (ordered_words m.byte_order words)))
          × Shows
              (process_write chrono clock device ms req b).1
              m.tag_id
              (value_after
                (device.write_multiple_registers b.calls m.address
                  (ordered_words m.byte_order words))
                req.value
                t.value)
              (quality_after (
                device.write_multiple_registers b.calls m.address
                  (ordered_words m.byte_order words)))
    unfolding process_write ordered_words
    process_write-Shows req m words d t b h found writable holding converts defined same s =
        let a =
          device.write_multiple_registers b.calls m.address (ordered_words m.byte_order words) in
        let b1 : Bus T = put_back (record (connect b) { calls = b.calls + 1 }) in
        let path : process_write chrono clock device ms req b ≡ on_write chrono clock m req a b1 =
          unfold write_mapped write_converted write_words send_words in
          simp (found, writable, converts, holding, ordered-even m.byte_order words) in
        let there : seen b1 m.tag_id ≡ some t = unfold put_back connect in s in
        rw path (
          on_write-Shows m req b1 t (unfold put_back connect in h) a d
            (unfold put_back connect in defined) same there)

    is_holding-holding : (f : ModbusFunction) → is_holding f ≡ true → f ≡ holding_registers
    is_holding-holding holding_registers e = refl
    is_holding-holding coils e = cc
    is_holding-holding discrete_inputs e = cc
    is_holding-holding input_registers e = cc

    calls-send_reply :
        (c : Option ℕ) (res : Outcome WriteFailure (Unit {0})) (b : Bus T)
        → (send_reply c res b).calls ≡ b.calls
    unfolding send_reply
    calls-send_reply none res b = refl
    calls-send_reply (some c) res b = refl

    calls-reject :
        (m : ModbusMapping) (req : WriteRequest T) (f : WriteFailure) (b : Bus T)
        → (reject chrono clock m req f b).calls ≡ b.calls
    unfolding reject set_quality
    calls-reject m req f b = calls-send_reply req.reply (err f) _

    -- A queued request leads to a call of the device only if its tag has a mapping, the first of that
    -- tag being writable and to holding registers, and its value converts to words.
    pub write_permitted :
        (req : WriteRequest T) (b : Bus T)
        → (process_write chrono clock device ms req b).1.calls ≢ b.calls
        → (m : ModbusMapping) × (find_mapping ms req.tag_id ≡ some m)
          × (m.writable ≡ true)
          × (m.function ≡ holding_registers)
          × ((words : List ℕ) × (tagvalue_to_registers chrono req.value ≡ ok words))
    unfolding process_write write_mapped write_converted write_words
    write_permitted req b called = mapped (find_mapping ms req.tag_id) refl called
      where
        converted :
            (m : ModbusMapping) (o : Outcome DriverError (List ℕ))
            → (write_converted chrono clock device m req o b).1.calls ≢ b.calls
            → (m.function ≡ holding_registers) × ((words : List ℕ) × (o ≡ ok words))
        converted m (err e) called = absurd (called (calls-reject m req _ b))
        converted m (ok words) called = elim (Bool-cases (is_holding m.function)) [
          | inl holding ↦ (is_holding-holding m.function holding, (words, refl))
          | inr other ↦ absurd (called (simp other (calls-reject m req _ b)))
        ]

        mapped :
            (om : Option ModbusMapping)
            → find_mapping ms req.tag_id ≡ om
            → (write_mapped chrono clock device om req b).1.calls ≢ b.calls
            → (m : ModbusMapping) × (find_mapping ms req.tag_id ≡ some m)
              × (m.writable ≡ true)
              × (m.function ≡ holding_registers)
              × ((words : List ℕ) × (tagvalue_to_registers chrono req.value ≡ ok words))
        mapped none found called = absurd (called (calls-send_reply req.reply _ b))
        mapped (some m) found called = elim (Bool-cases m.writable) [
          | inr no_write ↦ absurd (called (simp no_write (calls-send_reply req.reply _ b)))
          | inl writable ↦
              let (holding, converts) =
                converted m (tagvalue_to_registers chrono req.value)
                  (λ same. called (simp writable same)) in
              (m, found, writable, holding, converts)
        ]
