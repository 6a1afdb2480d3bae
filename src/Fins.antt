-- ===== src/Fins.antt =====
-- driver/fins: the FINS/TCP driver.
pub mod Mapping
pub mod Frame
pub mod Areas
pub mod Split
pub mod Codec
pub mod Link
pub mod Writes
pub mod Validate
pub mod Groups
pub mod Reads
pub mod Cycle
