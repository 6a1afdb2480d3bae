-- ===== src/Tests/FinsCycle.antt =====
-- The theorems on the cycle of driver/fins/src/driver.rs at concrete data.
use opcua_plc_bridge.Fins.Areas.{by_area}
use opcua_plc_bridge.Base.{
  ℕ, ◌-◌, ◌*◌, ◌==◌, ◌≡◌, ◌≢◌, refl, List, [], ◌∷◌, ◌++◌, codes, str_eq, some, true, false, ok, err,
  lookup, arith, take, drop, if◌then◌else◌, inl, All,
}
use opcua_plc_bridge.Core.TagValue.{TagValue, TagDataType, TagQuality, data_type}
use opcua_plc_bridge.Core.Tag.{Tag}
use opcua_plc_bridge.Core.WordOrder.{WordOrder, apply_to_bytes}
use opcua_plc_bridge.Core.Registry.Typed.{IsTyped}
use opcua_plc_bridge.Core.Registry.Seen.{seen, Shows, IsTyped-seen}
use opcua_plc_bridge.Driver.Sorting.{sort_by_key, AllPairs}
use opcua_plc_bridge.Driver.Words.{ordered_words}
use opcua_plc_bridge.Modbus.Bus.{WriteRequest}
use opcua_plc_bridge.Modbus.Codec.{word_at}
use opcua_plc_bridge.Fins.Mapping.{TagMapping}
use opcua_plc_bridge.Fins.Areas.Entries.{with_area}
use opcua_plc_bridge.Fins.Codec.{enough, tagvalue_to_words_standard, decode_value}
use opcua_plc_bridge.Fins.Cycle.{run_read_cycle}
use opcua_plc_bridge.Fins.Cycle.Ends.{fins_cycle_ok}
use opcua_plc_bridge.Fins.Cycle.Keeps.{fins_cycle-IsTyped}
use opcua_plc_bridge.Fins.Frame.{byte_at, parse_fins_response}
use opcua_plc_bridge.Fins.Groups.{ReadGroup, read_groups_of}
use opcua_plc_bridge.Fins.Groups.Complete.{Found, read_groups_cover}
use opcua_plc_bridge.Fins.Link.{Link, Stream, exchange}
use opcua_plc_bridge.Fins.Reads.{read_frame, read_group}
use opcua_plc_bridge.Fins.Reads.Seen.{fins_group_read}
use opcua_plc_bridge.Fins.Validate.{
  check_neighbours, check_areas, check_mapping, check_mappings, validate,
}
use opcua_plc_bridge.Fins.Validate.Disjoint.{IsAcceptable, Disjoint, fins_validate_sound}
use opcua_plc_bridge.Fins.Writes.{drain, find_mapping, write_frame, process_write}
use opcua_plc_bridge.Fins.Writes.Effects.{Settles, verdict, fins_write-Settles}
use opcua_plc_bridge.Fins.Writes.Replies.{Drained, fins_drain_replies}
use opcua_plc_bridge.Tests.Data.{
  chrono, clock, temp, speed, temp_definition, registry, registry-IsTyped,
}

abbrev temp_words : TagMapping
temp_words = record {
  tag_id = temp;
  area = 0x82;
  address = 100;
  bit_offset = 0;
  word_count = 1;
  writable = true;
  byte_order = WordOrder.abcd;
  data_type = TagDataType.uint16;
}

abbrev speed_words : TagMapping
speed_words = record temp_words {
  tag_id = speed;
  address = 101;
  word_count = 2;
  byte_order = WordOrder.cdab;
  data_type = TagDataType.uint32;
}

abbrev mappings : List TagMapping
mappings = speed_words ∷ temp_words ∷ []

abbrev group : ReadGroup
group = record {
  area = 0x82;
  start_address = 100;
  word_count = 3;
  mappings = temp_words ∷ speed_words ∷ [];
}

abbrev nine : TagValue ℕ
nine = TagValue.uint16 9

abbrev wish : WriteRequest ℕ
wish = record { tag_id = temp; value = nine; reply = some 1 }

-- A driver that is not connected, with one queued write.
abbrev link : Link ℕ
link = record {
  registry = registry;
  ticks = 10;
  calls = 0;
  connected = false;
  sid_counter = 1;
  queue = wish ∷ [];
  replies = [];
}

abbrev words : List ℕ
words = 0 ∷ 5 ∷ 0 ∷ 5 ∷ 0 ∷ 5 ∷ []

-- The response of session 1 with three words, and its FINS/TCP header.
abbrev response_frame : List ℕ
response_frame = 0xc0 ∷ 0 ∷ 2 ∷ 0 ∷ 0 ∷ 0 ∷ 0 ∷ 0 ∷ 0 ∷ 1 ∷ 1 ∷ 1 ∷ 0 ∷ 0 ∷ words

abbrev stream : Stream
stream = record {
  write_all = λ n bytes. ok tt;
  read_exact =
      λ n size. if size == 8 then ok (codes "FINS" ++ (0 ∷ 0 ∷ 0 ∷ 20 ∷ [])) else ok response_frame;
}

-- A stream that was closed.
abbrev dead : Stream
dead = record {
  write_all = λ n bytes. err (codes "Broken pipe");
  read_exact = λ n size. err (codes "Broken pipe");
}

fins_cycle-IsTyped_example :
    IsTyped (run_read_cycle chrono clock some stream (group ∷ []) mappings link).1.registry
fins_cycle-IsTyped_example =
    fins_cycle-IsTyped chrono clock some stream (group ∷ []) mappings link registry-IsTyped

uint16_no_time : TagDataType.uint16 ≢ TagDataType.date_time
uint16_no_time e = cc

uint32_no_time : TagDataType.uint32 ≢ TagDataType.date_time
uint32_no_time e = cc

fins_cycle_ok_example :
    (run_read_cycle chrono clock some dead (group ∷ []) mappings link).0 ≡ some (ok tt)
fins_cycle_ok_example =
    fins_cycle_ok chrono clock some dead (group ∷ []) mappings link
      ((uint16_no_time, (uint32_no_time, tt)), tt)

fins_drain_replies_example : Drained 64 link (drain chrono clock dead mappings 64 link)
fins_drain_replies_example = fins_drain_replies chrono clock dead mappings 64 link

temp_defined : lookup temp registry.definitions ≡ some temp_definition
unfolding lookup str_eq
temp_defined = refl

abbrev temp_tag : Tag ℕ
temp_tag = (IsTyped-seen registry temp temp_definition registry-IsTyped temp_defined).0

temp-seen : seen registry temp ≡ some temp_tag
temp-seen = (IsTyped-seen registry temp temp_definition registry-IsTyped temp_defined).1

temp_found : find_mapping mappings temp ≡ some temp_words
unfolding find_mapping str_eq
temp_found = refl

nine_words : tagvalue_to_words_standard chrono nine ≡ ok (9 ∷ [])
unfolding tagvalue_to_words_standard
nine_words = refl

nine_type : data_type nine ≡ TagDataType.uint16
unfolding data_type
nine_type = refl

fins_write-Settles_example :
    Settles temp wish temp_tag link (process_write chrono clock stream mappings wish link) (
      verdict 1
        (exchange stream 0 (write_frame 1 temp_words (ordered_words WordOrder.abcd (9 ∷ [])))))
fins_write-Settles_example =
    fins_write-Settles chrono clock stream mappings wish temp_words (9 ∷ []) temp_definition
      temp_tag link registry-IsTyped temp_found refl nine_words temp_defined nine_type temp-seen

answered : exchange stream 0 (read_frame 1 group) ≡ ok response_frame
unfolding exchange byte_at
answered = refl

parsed : parse_fins_response response_frame ≡ ok (1, 0, words)
unfolding parse_fins_response
parsed = refl

decoded :
    decode_value chrono some TagDataType.uint16
      (apply_to_bytes WordOrder.abcd (take (1 * 2) (drop ((100 - 100) * 2) words)))
      0
    ≡ ok (TagValue.uint16 5)
unfolding decode_value word_at apply_to_bytes enough
decoded = refl

apart : str_eq speed temp ≡ false
unfolding str_eq
apart = refl

fins_group_read_example :
    Shows
      (read_group chrono clock some stream group link).1.registry
      temp
      (TagValue.uint16 5)
      TagQuality.good
fins_group_read_example =
    fins_group_read chrono clock some stream group [] (speed_words ∷ []) temp_words response_frame
      words link temp_definition (TagValue.uint16 5) registry-IsTyped answered parsed (omega arith)
      refl
      (record {
        filled = omega arith;
        from_start = omega arith;
        to_end = omega arith;
        bounded = omega arith;
      })
      temp_defined refl decoded tt (apart, tt)

valid : validate mappings ≡ ok tt
unfolding validate check_mappings check_mapping check_areas by_area check_neighbours sort_by_key
valid = refl

fins_validate_sound_example :
    All IsAcceptable mappings × AllPairs Disjoint (with_area 0x82 mappings)
fins_validate_sound_example =
    fins_validate_sound mappings 0x82 ((omega arith, omega arith), ((omega arith, omega arith), tt))
      valid

read_groups_cover_example : Found speed_words 102 (read_groups_of 2 mappings)
read_groups_cover_example =
    read_groups_cover 2 (omega arith) (omega arith) mappings speed_words 102
      ((omega arith, omega arith), ((omega arith, omega arith), tt)) (inl refl) (omega arith)
      (omega arith)
