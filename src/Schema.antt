-- ===== src/Schema.antt =====
-- The data model of the workflow engine, crates/har-workflow-schema/src: JSON values, node outputs,
-- nodes with their retry configuration, and runs.
pub mod Json
pub mod Output
pub mod Node
pub mod Run
