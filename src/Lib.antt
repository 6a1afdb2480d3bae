-- ===== src/Lib.antt =====
-- Verification library of opcua-plc-bridge: a bridge between PLCs and OPC UA clients, written in Rust.
--
-- The program. core-model holds the tags: a definition (configuration) and a runtime tag (value,
-- quality, timestamps) per id, in a registry that every other part shares. A protocol driver runs
-- cycles: it takes queued writes, sends them to the device and replies to their senders, then
-- reads the device and updates the registry. The runtime starts the drivers from a configuration,
-- and opcua-server serves the registry to clients and passes their writes on to the drivers.
--
-- What models what.
--   Base: shared helpers. Str is Rust's str as its bytes, Outcome is Result, lookup and insert are
--     a HashMap as an association list.
--   Core.TagValue, Core.WordOrder: core-model/src/tag_value.rs. A signed integer or a float is its bit
--     pattern, a time is of a type T that stands for chrono's DateTime<Utc>.
--   Core.Tag, Core.TagDefinition, Core.Error: the files of core-model/src with these names.
--   Core.TagStore: core-model/src/tag_store.rs. A slot is its index; Subscribers holds the bounded
--     channels of events. View gives what a reader sees as a map from ids to tags. Threads has threads that
--     call the store: each moves by one atomic access, takes the read or the write lock where it is free,
--     and broadcasts channel by channel; Steps, Locks and Races are about their interleavings.
--   Core.DefinitionStore, Core.Registry: core-model/src/tag_definition_store.rs and registry.rs.
--   Driver: what the drivers share, driver/common/src/lib.rs, the conversions of words and bytes and, in
--     Driver.Sorting, Vec::sort_by_key. Driver.Chrono lists the operations of the crate chrono, which
--     are parameters.
--   Modbus: driver/modbus/src. Mapping is mapping.rs; the rest is driver.rs: Codec
--     (decode_bytes_to_tagvalue, tagvalue_to_registers), Validate (ProtocolDriver::validate), Groups and
--     Chunks (the plan of a read), Bus (the driver's state), Reads and Writes (the parts of
--     run_read_cycle_impl), Cycle (the whole of it).
--   Fins: driver/fins/src. Mapping is mapping.rs; the rest is driver.rs: Frame has the bytes of requests and
--     responses (wrap_fins_tcp, build_fins_frame, build_memory_read, build_memory_write,
--     parse_fins_response), Codec the conversions of values (tagvalue_to_words_standard, the match of
--     decode_and_update_tag), Areas the mappings of each area, Groups and Split the ranges and requests
--     that FinsDriver::new plans, Validate ProtocolDriver::validate, Link the driver's state, Reads and
--     Writes the parts of run_read_cycle_impl, Cycle the whole of it.
--   Runtime: runtime/src. Tags is tags.rs, from a configured tag to its definition and mappings, with Text
--     for the operations on strings it uses; Config is config.rs, WriteHandler write_handler.rs; Definitions
--     is the loop of main.rs that makes all definitions, Drivers the set-up of drivers and routes there, Poller the backoff and check_stale_tags of
--     runtime_driver.rs, with Tag::is_stale of core-model/src/tag.rs.
--   Server: opcua-server/src. Config and Error are config.rs and error.rs; of native.rs, Variant has the
--     conversions between tag values and variants and DataSource the reads and writes of clients.
--   Tests: the theorems at concrete data.
--
-- How state and outside code appear. An operation takes the state and returns the new one; an early
-- return is an Outcome beside the state. Each reading of the clock is an argument or an entry of a
-- function clock, by its number. The Modbus client is a record Device that answers the n-th call with a
-- reply, an exception, a transport error or a timeout; the TCP stream of the FINS driver is a record
-- Stream of the same kind. What another task answers (that a queue took a request, a confirmation, a
-- timeout that passes first) is an argument of the operation that waits for it. The types of open62541
-- and their conversions are a record Ua. Reply channels are numbers, and the replies and health events
-- of a driver are lists.
--
-- Bounds. u16 and u32 arithmetic keeps its wrap-around, % 2 ^ 16 or % 2 ^ 32, or its saturation. The
-- rounds of a chunked read run on the group's quantity as fuel, and each takes one of it at least, so it
-- is enough; the splitting of a FINS range runs on fuel too, and is none where it has not ended. The
-- writes of a cycle are at most 64 rounds, as in the code.
--
-- What is not modelled. start_native_server, which builds the address space by calls of
-- open62541, and the life cycle of its threads; the tasks of main.rs and of the poller; the
-- reading of configuration files; serialisation, logging and the texts of messages, but for those that
-- the code itself looks into; submit_write, whose body is a channel and a timer; how long anything takes. Connecting is retried in a loop until it succeeds,
-- so the model connects in one step and never sees it fail. The order in which a HashMap of
-- functions is walked is a parameter of a read, and fixed in the validation, where it decides only
-- which of several overlaps is reported.
pub mod Base
pub mod Core
pub mod Driver
pub mod Modbus
pub mod Fins
pub mod Server
pub mod Runtime
pub mod Tests
