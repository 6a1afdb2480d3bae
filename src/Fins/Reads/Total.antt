-- ===== src/Fins/Reads/Total.antt =====
-- When the loops over groups and mappings run to their end (driver/fins/src/driver.rs).
use opcua_plc_bridge.Base.{
  ◌≢◌, All, sym, subst, ℕ, ◌*◌, ◌==◌, ◌≡◌, refl, Bool, true, false, List, [], ◌∷◌, ◌++◌, Str,
  Option, Outcome, ok, err, ◌>>◌, fail_if, if-both, length, ltb,
}
use opcua_plc_bridge.Core.Error.{CoreError}
use opcua_plc_bridge.Core.TagValue.{TagValue, TagDataType}
use opcua_plc_bridge.Core.TagDefinition.{TagDefinition}
use opcua_plc_bridge.Core.Registry.{get_definition}
use opcua_plc_bridge.Driver.Chrono.{Chrono}
use opcua_plc_bridge.Driver.Error.{DriverError}
use opcua_plc_bridge.Modbus.Chunks.{Part, outside, short, slice}
use opcua_plc_bridge.Fins.Mapping.{TagMapping}
use opcua_plc_bridge.Fins.Groups.{ReadGroup}
use opcua_plc_bridge.Fins.Codec.{DecodeFailure, failed, panicked, enough, decode_value}
use opcua_plc_bridge.Fins.Frame.{parse_fins_response}
use opcua_plc_bridge.Fins.Link.{Link, Stream, next_sid, request}
use opcua_plc_bridge.Fins.Reads.{
  Flow, next, stop, unwind, part_of, and_then, each, on_decoded, on_defined, decode_and_update_tag,
  apply_part, apply_mapping, on_payload, on_parsed, on_answer, read_group,
}

abbrev pub IsCalm : Flow → Type 0
IsCalm unwind = ⊥
IsCalm _ = Unit {0}

module _ {T A : Type 0} (body : A → Link T → Flow × Link T) (P : A → Type 0) where
  -- A loop whose body never leaves it goes on behind a part of its list.
  pub each-append :
      ((x : A) (b : Link T) → P x → (body x b).0 ≡ next)
      → (pre post : List A) (b : Link T) → All P pre
      → each body (pre ++ post) b ≡ each body post (each body pre b).1
  unfolding each
  each-append k [] post b h = refl
  each-append k (x ∷ pre) post b h = rest (body x b) (k x b h.0) (λ b. each-append k pre post b h.1)
    where
      rest :
          (r : Flow × Link T)
          → r.0 ≡ next
          → ((b : Link T) → each body (pre ++ post) b ≡ each body post (each body pre b).1)
          → and_then r (each body (pre ++ post)) ≡ each body post (and_then r (each body pre)).1
      rest (next, b1) e tail = tail b1
      rest (stop, b1) e tail = cc
      rest (unwind, b1) e tail = cc

  -- A loop whose body does not panic does not.
  pub each-IsCalm :
      ((x : A) (b : Link T) → P x → IsCalm (body x b).0)
      → (xs : List A) (b : Link T) → All P xs
      → IsCalm (each body xs b).0
  unfolding each
  each-IsCalm k [] b h = tt
  each-IsCalm k (x ∷ xs) b h = rest (body x b) (k x b h.0) (λ b. each-IsCalm k xs b h.1)
    where
      rest :
          (r : Flow × Link T)
          → IsCalm r.0
          → ((b : Link T) → IsCalm (each body xs b).0)
          → IsCalm (and_then r (each body xs)).0
      rest (next, b1) e tail = tail b1
      rest (stop, b1) e tail = tt
      rest (unwind, b1) e tail = e

-- A decoding that does not panic.
abbrev pub IsSafe : {T : Type 0} → Outcome DecodeFailure (TagValue T) → Type 0
IsSafe (err panicked) = ⊥
IsSafe _ = Unit {0}

-- Only a value of type DateTime can panic.
abbrev pub IsTimeless : TagMapping → Type 0
IsTimeless m = m.data_type ≢ TagDataType.date_time

module _ {T : Type 0} (chrono : Chrono T) (clock : ℕ → T) (from_system_time : ℕ → Option T) where
  checked-IsSafe :
      (few : Bool) (e : DriverError) (v : TagValue T) → IsSafe (fail_if few (failed e) >> ok v)
  checked-IsSafe true e v = tt
  checked-IsSafe false e v = tt

  decode_value-IsSafe :
      (dt : TagDataType) (bytes : List ℕ) (off : ℕ)
      → dt ≢ TagDataType.date_time
      → IsSafe (decode_value chrono from_system_time dt bytes off)
  unfolding decode_value enough
  decode_value-IsSafe TagDataType.date_time bytes off n = absurd (n refl)
  decode_value-IsSafe TagDataType.byte_string bytes off n = tt
  decode_value-IsSafe TagDataType.string bytes off n = tt
  decode_value-IsSafe _ bytes off n = checked-IsSafe _ _ _

  on_decoded-next :
      (id : Str) (o : Outcome DecodeFailure (TagValue T)) (b : Link T)
      → IsSafe o
      → (on_decoded chrono clock from_system_time id o b).0 ≡ next
  unfolding on_decoded
  on_decoded-next id (ok v) b h = refl
  on_decoded-next id (err (failed e)) b h = refl
  on_decoded-next id (err panicked) b h = absurd h

  on_defined-next :
      (m : TagMapping) (bytes : List ℕ) (d : Outcome CoreError TagDefinition) (b : Link T)
      → IsTimeless m
      → (on_defined chrono clock from_system_time m bytes d b).0 ≡ next
  unfolding on_defined
  on_defined-next m bytes (err e) b n = refl
  on_defined-next m bytes (ok d) b n =
      on_decoded-next m.tag_id _ b (decode_value-IsSafe m.data_type _ m.bit_offset n)

  apply_part-next :
      (m : TagMapping) (p : Part) (b : Link T)
      → IsTimeless m
      → (apply_part chrono clock from_system_time m p b).0 ≡ next
  unfolding apply_part decode_and_update_tag
  apply_part-next m outside b n = refl
  apply_part-next m short b n = refl
  apply_part-next m (slice bytes) b n =
      on_defined-next m bytes (get_definition b.registry m.tag_id) b n

  pub apply_mapping-next :
      (payload : List ℕ) (g : ReadGroup) (m : TagMapping) (b : Link T)
      → IsTimeless m
      → (apply_mapping chrono clock from_system_time payload g m b).0 ≡ next
  unfolding apply_mapping
  apply_mapping-next payload g m b n = apply_part-next m (part_of payload g m) b n

  on_payload-IsCalm :
      (g : ReadGroup) (payload : List ℕ) (b : Link T)
      → All IsTimeless g.mappings
      → IsCalm (on_payload chrono clock from_system_time g payload b).0
  unfolding on_payload
  on_payload-IsCalm g payload b h =
      if-both (ltb (length payload) (g.word_count * 2)) (λ (r : Flow × Link T). IsCalm r.0) tt
        (each-IsCalm (apply_mapping chrono clock from_system_time payload g) IsTimeless
          (λ m b n. subst IsCalm (sym (apply_mapping-next payload g m b n)) tt) g.mappings b h)

  on_parsed-IsCalm :
      (g : ReadGroup) (sid : ℕ) (r : Outcome DriverError (ℕ × ℕ × List ℕ)) (b : Link T)
      → All IsTimeless g.mappings
      → IsCalm (on_parsed chrono clock from_system_time g sid r b).0
  unfolding on_parsed
  on_parsed-IsCalm g sid (err e) b h = tt
  on_parsed-IsCalm g sid (ok (resp_sid, end_code, payload)) b h =
      if-both (resp_sid == sid) (λ (r : Flow × Link T). IsCalm r.0)
        (if-both (end_code == 0) (λ (r : Flow × Link T). IsCalm r.0)
          (on_payload-IsCalm g payload b h) tt)
        tt

  on_answer-IsCalm :
      (g : ReadGroup) (sid : ℕ) (r : Outcome Str (List ℕ)) (b : Link T)
      → All IsTimeless g.mappings
      → IsCalm (on_answer chrono clock from_system_time g sid r b).0
  unfolding on_answer
  on_answer-IsCalm g sid (err e) b h = tt
  on_answer-IsCalm g sid (ok payload) b h = on_parsed-IsCalm g sid (parse_fins_response payload) b h

  pub read_group-IsCalm :
      (stream : Stream) (g : ReadGroup) (b : Link T)
      → All IsTimeless g.mappings
      → IsCalm (read_group chrono clock from_system_time stream g b).0
  unfolding read_group next_sid request
  read_group-IsCalm stream g b h = on_answer-IsCalm g _ _ _ h
