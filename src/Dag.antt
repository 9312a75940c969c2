-- ===== src/Dag.antt =====
-- The DAG executor, crates/har-dag-executor/src/dag_executor.rs: trigger rules, topological layers,
-- retries, and the run of a workflow over its layers.
pub mod Trigger
pub mod Retry
pub mod Layers
pub mod Gate
pub mod Session
pub mod Run
pub mod Refs
