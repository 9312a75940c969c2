-- ===== src/RunStore.antt =====
-- The SQL run store, crates/har-db/src/workflows.rs. `Table` is what a statement does to the rows,
-- `Transitions` the writing methods, `Queries` the reading ones, `Deletion` the clean-up; the other
-- children prove what the methods promise together.
pub mod Table
pub mod Transitions
pub mod Queries
pub mod Deletion
pub mod History
pub mod Lifecycle
pub mod Matching
pub mod Resumption
pub mod Locking
pub mod Cleanup
