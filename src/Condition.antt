-- ===== src/Condition.antt =====
-- The `when:` conditions, crates/har-dag-executor/src/condition_evaluator.rs: `Split` cuts an
-- expression at its connectives, `Number` reads numbers as JavaScript does, `Atom` evaluates one
-- comparison and `Evaluate` the whole expression; the other children prove what they promise.
pub mod Split
pub mod Number
pub mod Atom
pub mod Evaluate
pub mod Pieces
pub mod Truth
pub mod Prefix
pub mod Total
