-- ===== src/Tests/Server.antt =====
-- The theorems on opcua-server/src at concrete data.
use opcua_plc_bridge.Base.{ℕ, ◌≡◌, refl, List, Str, codes, str_eq, some, ok, lookup}
use opcua_plc_bridge.Core.TagValue.{TagValue, TagQuality, data_type}
use opcua_plc_bridge.Core.Tag.{Tag}
use opcua_plc_bridge.Server.Variant.{Ua, Variant, tagvalue_to_variant, variant_to_tagvalue}
use opcua_plc_bridge.Server.Variant.RoundTrip.{variant_round_trip}
use opcua_plc_bridge.Tests.Data.{temp, temp_definition, registry}

-- A library whose types are the model's own.
abbrev ua : Ua ℕ Str ℕ (List ℕ)
ua = record {
  string_new = some;
  as_str = some;
  try_from_unix_timestamp_nanos = some;
  as_unix_timestamp_nanos = λ n. n;
  byte_string_new = λ b. b;
  as_bytes = some;
  timestamp_nanos_opt = some;
  from_timestamp_nanos = λ n. n;
}

abbrev hello : TagValue ℕ
hello = TagValue.string (codes "hello")

variant_round_trip_example :
    (x : Variant Str ℕ (List ℕ)) × (tagvalue_to_variant ua hello ≡ some x)
    × (variant_to_tagvalue ua x (data_type hello) ≡ ok hello)
variant_round_trip_example = variant_round_trip ua hello (codes "hello", refl, refl)

temp_defined : lookup temp registry.definitions ≡ some temp_definition
unfolding lookup str_eq
temp_defined = refl

abbrev initial : Tag ℕ
initial = record {
  value = TagValue.uint16 0;
  quality = TagQuality.initializing;
  source_timestamp = 3;
  server_timestamp = 3;
}
