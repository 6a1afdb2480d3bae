-- ===== src/Driver.antt =====
-- What the protocol drivers share: driver/common, the words and bytes of a register buffer, and
-- what they use of the standard library and of chrono.
pub mod Words
pub mod Sorting
pub mod Utf8
pub mod Chrono
pub mod Error
