-- ===== src/Server/DataSource/Reads.antt =====
-- What a client reads (opcua-server/src/native.rs).
use opcua_plc_bridge.Base.{ℕ, ◌≡◌, ◌≢◌, ◌↔◌, ◌⊎◌, Option, none, some, Outcome, ok, err}
use opcua_plc_bridge.Core.TagValue.{TagValue, TagQuality, data_type}
use opcua_plc_bridge.Core.Tag.{Tag}
use opcua_plc_bridge.Server.Variant.{Ua, variant_to_tagvalue}
use opcua_plc_bridge.Server.Variant.RoundTrip.{IsKeptByUa}
use opcua_plc_bridge.Server.DataSource.{
  StatusCode, DataValue, good, uncertain_subnormal, bad_internal_error,
}

-- The status that stands for a quality: uncertain where the last value is usable, and otherwise bad,
-- as an unexpected error.
abbrev pub IsStatusOf : TagQuality → StatusCode → Type 0
IsStatusOf q s =
    ((s ≡ good) ↔ ((q ≡ TagQuality.good) ⊎ (q ≡ TagQuality.initializing)))
    × ((s ≡ uncertain_subnormal) ↔ ((q ≡ TagQuality.stale) ⊎ (q ≡ TagQuality.substitute)))
    × (s ≢ bad_internal_error)

module _ {T S D B : Type 0} (ua : Ua T S D B) (epoch : D) where
  -- A text, or a time, that the libraries have no value for.
  abbrev pub IsRefusedByUa : TagValue T → Type 0
  IsRefusedByUa (TagValue.string s) = ua.string_new s ≡ none
  IsRefusedByUa (TagValue.date_time t) =
      (ua.timestamp_nanos_opt t ≡ none)
      ⊎ ((nanos : ℕ) × (ua.timestamp_nanos_opt t ≡ some nanos)
          × (ua.try_from_unix_timestamp_nanos nanos ≡ none))
  IsRefusedByUa _ = ⊥

  abbrev pub IsHandled : TagValue T → Type 0
  IsHandled v = IsKeptByUa ua v ⊎ IsRefusedByUa v

  -- The libraries keep or refuse the value and the times of a tag.
  abbrev pub AreHandled : Option (Tag T) → Type 0
  AreHandled none = Unit {0}
  AreHandled (some t) =
      IsHandled t.value
      × IsHandled (TagValue.date_time t.source_timestamp)
      × IsHandled (TagValue.date_time t.server_timestamp)

  -- The time itself, or the epoch for one that the libraries refuse.
  abbrev pub IsTimeOf : T → D → Type 0
  IsTimeOf t d =
      (ua.from_timestamp_nanos (ua.as_unix_timestamp_nanos d) ≡ t)
      ⊎ (IsRefusedByUa (TagValue.date_time t) × (d ≡ epoch))

  -- What the answer to a read says of the tag that is seen, if any.
  abbrev pub IsAnswer : Option (Tag T) → Outcome StatusCode (DataValue S D B) → Type 0
  IsAnswer none (ok dv) = ⊥
  IsAnswer none (err e) = e ≡ bad_internal_error
  IsAnswer (some t) (ok dv) =
      (variant_to_tagvalue ua dv.variant (data_type t.value) ≡ ok t.value)
      × IsStatusOf t.quality dv.status
      × IsTimeOf t.source_timestamp dv.source_timestamp
      × IsTimeOf t.server_timestamp dv.server_timestamp
  IsAnswer (some t) (err e) = (e ≡ bad_internal_error) × IsRefusedByUa t.value
