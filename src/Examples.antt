-- ===== src/Examples.antt =====
-- Tests of the definitions and instances of the theorems on concrete values.
mod Samples
mod Store
mod Conditions
mod Executor
mod Models
mod Isolation
mod Scripts
mod Copies
