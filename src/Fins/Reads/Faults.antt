-- ===== src/Fins/Reads/Faults.antt =====
-- What a failed read does to the tags of its group (driver/fins/src/driver.rs).
use opcua_plc_bridge.Base.{
  ℕ, ◌+◌, ◌*◌, ◌^◌, ◌==◌, ◌≡◌, List, [], ◌∷◌, Str, str_eq, codes, Option, none, some, Bool, false,
  ◌||◌, Outcome, ok, err, if◌then◌else◌, length, ltb,
}
use opcua_plc_bridge.Core.TagValue.{TagQuality}
use opcua_plc_bridge.Core.Tag.{Tag}
use opcua_plc_bridge.Core.Registry.Typed.{IsTyped}
use opcua_plc_bridge.Core.Registry.Seen.{seen, Shows}
use opcua_plc_bridge.Driver.Chrono.{Chrono}
use opcua_plc_bridge.Fins.Mapping.{TagMapping}
use opcua_plc_bridge.Fins.Groups.{ReadGroup}
use opcua_plc_bridge.Fins.Frame.{byte_at}
use opcua_plc_bridge.Fins.Link.{Link, end_code_text}
use opcua_plc_bridge.Fins.Reads.{Flow, next, stop}

-- Some mapping of the list is of the tag.
abbrev pub names : Str → List TagMapping → Bool
names id [] = false
names id (m ∷ ms) = str_eq m.tag_id id || names id ms

-- What is wrong with the answer to a read of a session, if anything: how the loop over the groups goes
-- on, and the quality of the group's tags.
abbrev pub fault : ℕ → Outcome Str (List ℕ) → Option (Flow × TagQuality)
fault sid (err e) = some (stop, TagQuality.comm_lost)
fault sid (ok payload) =
    let end_code = byte_at 12 payload * 2 ^ 8 + byte_at 13 payload in
    if ltb (length payload) 14
    then some (stop, TagQuality.error (codes "parse_fins_resp: Protocol error: Frame too short"))
    else if byte_at 9 payload == sid
    then if end_code == 0 then none else some (stop, TagQuality.error (end_code_text end_code))
    else some (next, TagQuality.comm_lost)

module _ {T : Type 0} (chrono : Chrono T) (clock : ℕ → T) (from_system_time : ℕ → Option T) where
  module _ (g : ReadGroup) (b : Link T) (j : Str) (t : Tag T) (h : IsTyped b.registry)
      (s : seen b.registry j ≡ some t) where
    -- The group's tags have a quality and their values; every other tag is as it was.
    abbrev pub Marked : TagQuality → Link T → Type 0
    Marked q r = Shows r.registry j t.value (if names j g.mappings then q else t.quality)

    -- The run ends as the fault says.
    Ends : Option (Flow × TagQuality) → Flow × Link T → Type 0
    Ends none r = Unit {0}
    Ends (some (flow, q)) r = (r.0 ≡ flow) × Marked q r.1
