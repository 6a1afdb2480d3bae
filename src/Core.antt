-- ===== src/Core.antt =====
-- core-model: tag values, word orders, tags, definitions, the runtime store and the registry.
pub mod TagValue
pub mod WordOrder
pub mod Tag
pub mod Error
pub mod TagStore
pub mod TagDefinition
pub mod DefinitionStore
pub mod Registry
