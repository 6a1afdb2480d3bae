-- ===== src/Modbus.antt =====
-- driver/modbus: the Modbus/TCP driver.
pub mod Mapping
pub mod Codec
pub mod Validate
pub mod Groups
pub mod Chunks
pub mod Bus
pub mod Reads
pub mod Writes
pub mod Cycle
