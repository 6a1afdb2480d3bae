-- ===== src/Runtime.antt =====
-- runtime: the program that wires the configuration, the drivers and the server together.
pub mod Text
pub mod Config
pub mod Tags
pub mod Definitions
pub mod WriteHandler
pub mod Poller
pub mod Drivers
