-- ===== src/Tests/Driver.antt =====
-- The theorems on driver/modbus/src at concrete data.
use opcua_plc_bridge.Base.{
  contains, str_eq, ℕ, ◌-◌, ◌≡◌, ◌≢◌, refl, true, false, not, List, [], ◌∷◌, ◌++◌, Str, codes, some,
  ok, err, is_err, lookup, take, drop, arith,
}
use opcua_plc_bridge.Core.TagValue.{TagValue, TagDataType, TagQuality, data_type}
use opcua_plc_bridge.Core.WordOrder.{WordOrder, apply_to_bytes}
use opcua_plc_bridge.Core.Tag.{Tag}
use opcua_plc_bridge.Core.Registry.Typed.{IsTyped}
use opcua_plc_bridge.Driver.Words.{registers_to_bytes, ordered_words}
use opcua_plc_bridge.Modbus.Mapping.{ModbusFunction, ModbusMapping, coils, holding_registers}
use opcua_plc_bridge.Modbus.Codec.{word_at, tagvalue_to_registers, decode_bytes_to_tagvalue}
use opcua_plc_bridge.Modbus.Chunks.{Chunk}
use opcua_plc_bridge.Modbus.Bus.{
  put_back, update_good, send_reply, Bus, Device, answered, transport, timed_out, WriteRequest,
}
use opcua_plc_bridge.Core.Registry.Seen.{IsTyped-seen}
use opcua_plc_bridge.Modbus.Bus.Seen.{seen, Shows}
use opcua_plc_bridge.Modbus.Reads.{classify, ignored, read_chunk, read_one, read_all, apply_members}
use opcua_plc_bridge.Modbus.Reads.Seen.{register_read}
use opcua_plc_bridge.Modbus.Reads.Faults
use opcua_plc_bridge.Modbus.Reads.Faults.{names, failed_read}
use opcua_plc_bridge.Modbus.Reads.Silent.{ignored_reads}
use opcua_plc_bridge.Modbus.Writes.{
  on_write, send_words, write_words, write_converted, write_mapped, find_mapping, process_write,
  drain,
}
use opcua_plc_bridge.Modbus.Writes.Replies.{Drained, drain_replies}
use opcua_plc_bridge.Modbus.Writes.Effects.{
  value_after, quality_after, result_after, process_write-Shows, write_permitted,
}
use opcua_plc_bridge.Modbus.Cycle.{run_read_cycle}
use opcua_plc_bridge.Modbus.Cycle.Keeps.{run_read_cycle-IsTyped}
use opcua_plc_bridge.Modbus.Cycle.Context.{run_read_cycle_context}
use opcua_plc_bridge.Tests.Data.{
  mappings, temp_chunk, chrono, clock, temp, temp_definition, registry, registry-IsTyped,
  temp_mapping, speed_mapping,
}

abbrev order : List ModbusFunction
order = holding_registers ∷ []

abbrev nine : TagValue ℕ
nine = TagValue.uint16 9

abbrev request : WriteRequest ℕ
request = record { tag_id = temp; value = nine; reply = some 1 }

-- A driver that is not connected, with one queued write.
abbrev bus : Bus ℕ
bus = record {
  registry = registry;
  ticks = 10;
  calls = 0;
  connected = false;
  queue = request ∷ [];
  replies = [];
  health = [];
}

-- A device that reads 5 from three registers and takes every write.
abbrev device : Device
device = record {
  read_registers = λ n f start qty. answered (5 ∷ 5 ∷ 5 ∷ []);
  read_bits = λ n f start qty. answered (true ∷ false ∷ []);
  write_multiple_registers = λ n start words. answered tt;
}

-- A device that does not answer.
abbrev dead : Device
dead = record {
  read_registers = λ n f start qty. timed_out;
  read_bits = λ n f start qty. timed_out;
  write_multiple_registers = λ n start words. timed_out;
}

-- A device behind a connection that is broken.
abbrev broken : Device
broken = record {
  read_registers = λ n f start qty. transport (codes "Broken pipe");
  read_bits = λ n f start qty. transport (codes "Broken pipe");
  write_multiple_registers = λ n start words. transport (codes "Broken pipe");
}

run_read_cycle-IsTyped_example :
    IsTyped (run_read_cycle chrono clock device order mappings bus).1.registry
run_read_cycle-IsTyped_example =
    run_read_cycle-IsTyped chrono clock device order mappings bus registry-IsTyped

run_read_cycle_context_example :
    (run_read_cycle chrono clock dead order mappings bus).1.connected
    ≡ not (is_err (run_read_cycle chrono clock dead order mappings bus).0)
run_read_cycle_context_example = run_read_cycle_context chrono clock dead order mappings bus

drain_replies_example : Drained 64 bus (drain chrono clock device mappings 64 bus)
drain_replies_example = drain_replies chrono clock device mappings 64 bus

temp_defined : lookup temp registry.definitions ≡ some temp_definition
unfolding lookup str_eq
temp_defined = refl

temp_decoded :
    decode_bytes_to_tagvalue chrono TagDataType.uint16
      (apply_to_bytes WordOrder.abcd
        (registers_to_bytes (take 1 (drop (100 - 100) (5 ∷ 5 ∷ 5 ∷ [])))))
      0
    ≡ ok (TagValue.uint16 5)
unfolding decode_bytes_to_tagvalue word_at apply_to_bytes registers_to_bytes
temp_decoded = refl

register_read_example :
    Shows
      (apply_members chrono clock
        (registers_to_bytes (5 ∷ 5 ∷ 5 ∷ []))
        temp_chunk
        ((speed_mapping ∷ []) ++ (temp_mapping ∷ []))
        bus)
      temp
      (TagValue.uint16 5)
      TagQuality.good
register_read_example =
    register_read chrono clock temp_chunk (speed_mapping ∷ []) [] temp_mapping (5 ∷ 5 ∷ 5 ∷ []) bus
      temp_definition (TagValue.uint16 5) registry-IsTyped temp_defined refl
      (omega arith, omega arith) refl (omega arith) (omega arith) temp_decoded tt

dead_read : read_chunk dead 0 holding_registers temp_chunk ≡ err (codes "Timeout")
dead_read = unfold read_chunk in refl

abbrev temp_tag : Tag ℕ
temp_tag = (IsTyped-seen bus.registry temp temp_definition registry-IsTyped temp_defined).0

temp-seen : seen bus temp ≡ some temp_tag
temp-seen = (IsTyped-seen bus.registry temp temp_definition registry-IsTyped temp_defined).1

failed_read_example :
    ((read_one chrono clock dead holding_registers mappings temp_chunk bus).0
      ≡ Faults.result_after (classify (codes "Timeout")) (codes "Timeout"))
    × Shows
        (read_one chrono clock dead holding_registers mappings temp_chunk bus).1
        temp
        temp_tag.value
        (Faults.quality_after (classify (codes "Timeout")) (names temp mappings) temp_tag.quality)
failed_read_example =
    failed_read chrono clock dead holding_registers mappings temp_chunk bus (codes "Timeout") temp
      temp_tag registry-IsTyped dead_read temp-seen

broken_reads :
    (n : ℕ) (f : ModbusFunction) (c : Chunk)
    → (text : Str) × (read_chunk broken n f c ≡ err text) × (classify text ≡ ignored)
unfolding read_chunk classify contains str_eq
broken_reads n coils c = (codes "Transport: Broken pipe", refl, refl)
broken_reads n _ c = (codes "Transport: Broken pipe", refl, refl)

ignored_reads_example :
    ((read_all chrono clock broken order mappings bus).0 ≡ ok tt)
    × ((read_all chrono clock broken order mappings bus).1.registry ≡ registry)
    × ((read_all chrono clock broken order mappings bus).1.connected ≡ true)
ignored_reads_example = ignored_reads chrono clock broken order mappings bus broken_reads

request_mapped : find_mapping mappings temp ≡ some temp_mapping
unfolding find_mapping str_eq
request_mapped = refl

request_converts : tagvalue_to_registers chrono nine ≡ ok (9 ∷ [])
request_converts = unfold tagvalue_to_registers in refl

request_typed : data_type nine ≡ TagDataType.uint16
request_typed = unfold data_type in refl

process_write-Shows_example :
    ((process_write chrono clock broken mappings request bus).0
      ≡ result_after
          (broken.write_multiple_registers 0 100 (ordered_words WordOrder.abcd (9 ∷ []))))
    × Shows
        (process_write chrono clock broken mappings request bus).1
        temp
        (value_after
          (broken.write_multiple_registers 0 100 (ordered_words WordOrder.abcd (9 ∷ [])))
          nine
          temp_tag.value)
        (quality_after
          (broken.write_multiple_registers 0 100 (ordered_words WordOrder.abcd (9 ∷ []))))
process_write-Shows_example =
    process_write-Shows chrono clock broken mappings request temp_mapping (9 ∷ []) temp_definition
      temp_tag bus registry-IsTyped request_mapped refl refl request_converts temp_defined
      request_typed temp-seen

request_calls : (process_write chrono clock device mappings request bus).1.calls ≡ 1
unfolding process_write write_mapped find_mapping str_eq write_converted tagvalue_to_registers
    write_words apply_to_bytes registers_to_bytes send_words on_write send_reply update_good
    put_back
request_calls = refl

request_called : (process_write chrono clock device mappings request bus).1.calls ≢ 0
request_called e = absurd (omega (arith, request_calls, e))

write_permitted_example :
    (m : ModbusMapping) × (find_mapping mappings temp ≡ some m)
    × (m.writable ≡ true)
    × (m.function ≡ holding_registers)
    × ((words : List ℕ) × (tagvalue_to_registers chrono nine ≡ ok words))
write_permitted_example = write_permitted chrono clock device mappings request bus request_called
