-- ===== src/Server.antt =====
-- opcua-server: the OPC UA server, as far as it is not open62541's.
pub mod Config
pub mod Error
pub mod Variant
pub mod DataSource
