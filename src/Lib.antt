-- ===== src/Lib.antt =====
-- A model of the workflow engine of har: the store of workflow runs, the DAG executor that reads and
-- writes it, the resolution of model references and of isolated worktrees, and the schema types they
-- share.
--
-- A workflow is a list of nodes with dependencies. The executor sorts them into layers, runs the
-- nodes of a layer together, records each node's output, and asks the store between layers whether
-- the run is still running. A node first passes its gates: an output of an earlier run, its trigger
-- rule, and its `when:` condition, which reads earlier outputs through output references. At the end
-- the executor completes or fails the run in the store, unless its status has changed.
--
-- The files, and the code they model (paths from the repository's root):
--
-- - Prelude: names shared by all modules; texts are lists of character codes, a HashMap is an
--   association list.
-- - Schema/Json, Schema/Output, Schema/Run, Schema/Node: the types of
--   crates/har-workflow-schema/src/{workflow_run,dag_node,retry_schema}.rs, one record or data type
--   each with the source's fields and variants. A node's base keeps the fields that the modelled code
--   reads.
-- - RunStore/Table, RunStore/Transitions, RunStore/Queries, RunStore/Deletion: `SqlWorkflowStore` of
--   crates/har-db/src/workflows.rs. A table is a list of runs; each method is a function of the same
--   name from the time, the engine's fault, its arguments and the table to a result and a table.
--   RunStore/History runs sequences of calls; RunStore/Lifecycle, Resumption, Locking and Cleanup hold
--   their theorems.
-- - OutputRef: crates/har-dag-executor/src/output_ref.rs.
-- - Condition/Split, Number, Atom, Evaluate: crates/har-dag-executor/src/condition_evaluator.rs, and
--   Condition/Total its answer without fuel.
-- - Errors, Messages: `classify_error` and `safe_send_message` of
--   crates/har-dag-executor/src/executor_shared.rs.
-- - Dag/Trigger, Dag/Layers, Dag/Retry, Dag/Gate, Dag/Session, Dag/Refs, Dag/Run, Dag/Run/Ending: the functions
--   and the parts of `execute_dag_workflow` in crates/har-dag-executor/src/dag_executor.rs. The modules
--   below them hold their theorems; those of Dag/Layers follow a round of the layering in steps, and
--   Dag/Run/Whole joins the layers to the run.
-- - Models/Build, Models/Resolve, Models/Effort, Models/Order: `build_ai_profile`, `resolve_model_spec`
--   and `route_preset_effort` of crates/har-dag-executor/src/model_validation.rs. Layering, Validity,
--   Tiers, Fallback and Known beside them hold the theorems.
-- - Isolation, Isolation/Failures: the types and the errors of crates/har-isolation/src/{types,lib,errors}.rs.
--   Isolation/Calls is the interface to the store, the provider and crates/har-git: an operation's
--   answer may depend on every call before it, and each call is logged with its answer. Checks, Reuse,
--   Create, Fresh and Resolve are the helpers and the stages of `IsolationResolver::resolve` in
--   crates/har-isolation/src/resolver.rs, as computations that log and may fail. Isolation/Contract says
--   in terms of the log what a resolution has to rest on, Ensures has the rules to show it, and the
--   modules Stages, Searches, Writes, Provision, Explicit, Promise, Kept and Precedence the proofs.
-- - Isolation/Copy: the copying of configured files in crates/har-isolation/src/worktree_copy.rs, with
--   paths as lists of components on Unix. Isolation/Copy/Location follows where a path
--   leads, and Isolation/Copy/Guard is about the guard on paths.
-- - Examples: tests and instances on concrete values.
--
-- Bounds and fuel. Splitting a condition takes as much fuel as the text is long, and the layers one
-- more than there are nodes. Counters of the executor are natural numbers; the counter of unknown
-- errors wraps at 32 bits, the power of two of a retry delay wraps and the delay saturates at 64 bits,
-- as in a release build of the source. Times are
-- milliseconds, and a configured delay is in microseconds so that fractions of a millisecond are kept.
--
-- Parameters. serde_json's reader and printer, the matches of the regular expressions, floats,
-- `str::to_lowercase`, the SQL engine's JSON merge and its `datetime`, and what the platform and the
-- store answer are arguments, as are the answers of git, of the isolation store and of its provider. The executor of one node is an argument of the layer loop.
--
-- Not modelled: events, logs, telemetry and cost; the executors of the single node kinds; creating a
-- run and listing runs; reading workflow files; the worktree provider and the calls of git; the AI
-- providers, the command line and the server.
pub mod Prelude
pub mod Schema
pub mod RunStore
pub mod OutputRef
pub mod Condition
pub mod Errors
pub mod Isolation
pub mod Messages
pub mod Models
pub mod Dag
pub mod Examples
