-- ===== src/Dag/Session.antt =====
-- The sessions of an AI node, crates/har-dag-executor/src/dag_executor.rs: which session a node
-- resumes, what the store remembers after it, and its output. What the store and the provider answer
-- are arguments.
pub mod Isolation
use harness_agent_rs.Prelude.{
  Bool, true, false, not, ◌&&◌, ◌||◌, Option, none, some, [], Text, if◌then◌else◌, Result, ok, err,
}
use harness_agent_rs.Schema.Output.{NodeOutput, Payload}
use harness_agent_rs.Schema.Node.{DagNode, base, ContextMode, fresh, shared}
use harness_agent_rs.Dag.Retry.{NodeExecutionResult, ExecutionState}

-- `matches!(context, Some(ContextMode::Fresh))`.
unfoldable pub bypasses_persistence : Option ContextMode → Bool
bypasses_persistence (some fresh) = true
bypasses_persistence (some shared) = false
bypasses_persistence none = false

abbrev unwrap_or : Option Bool → Bool → Bool
unwrap_or none d = d
unwrap_or (some b) d = b

-- `effective_persist && !bypasses_persistence`.
unfoldable pub persists : DagNode → Bool → Bool
unfolding bypasses_persistence base
persists n persist_sessions =
    unwrap_or (base n).persist_session persist_sessions
    && not (bypasses_persistence (base n).context)

-- The session of the layers before, unless the node starts afresh.
unfoldable pub threaded : Bool → DagNode → Option Text → Option Text
unfolding bypasses_persistence base
threaded is_parallel_layer n last =
    if is_parallel_layer || bypasses_persistence (base n).context then none else last

-- A persisted session replaces the threaded one; a missing one or an error of the store does not.
unfoldable pub looked_up : Result Text (Option Text) → Option Text → Option Text
looked_up (ok (some sid)) own = some sid
looked_up (ok none) own = own
looked_up (err e) own = own

unfoldable pub with_scope :
    Option Text → (Text → Result Text (Option Text)) → Option Text → Option Text
unfolding looked_up
with_scope none lookup own = own
with_scope (some scope_key) lookup own = looked_up (lookup scope_key) own

-- An error: the node asks for a persisted session, and its provider cannot resume one.
pub data Unsupported : Type 0 where
  session_resume_unsupported : Unsupported

unfoldable pub resume_session :
    Bool
    → DagNode
    → Bool
    → Bool
    → Option Text
    → (Text → Result Text (Option Text))
    → Option Text
    → Result Unsupported (Option Text)
unfolding threaded persists with_scope
resume_session is_parallel_layer n persist_sessions session_resume scope_key lookup last =
    let own = threaded is_parallel_layer n last in
    if not (persists n persist_sessions)
    then ok own
    else if not session_resume
    then err session_resume_unsupported
    else ok (with_scope scope_key lookup own)

-- What the executor asks of the store after a node.
pub data SessionWrite : Type 0 where
  no_write : SessionWrite
  upsert : Text → Text → SessionWrite
  delete : Text → SessionWrite

unfoldable pub write_for : Text → NodeExecutionResult → SessionWrite
write_for scope_key r = elim r.state [
  | ExecutionState.failed ↦ no_write
  | ExecutionState.completed ↦ elim r.session_id [
    | some sid ↦ upsert scope_key sid
    | none ↦ delete scope_key
  ]
]

unfoldable pub persist_session : DagNode → Bool → Option Text → NodeExecutionResult → SessionWrite
unfolding persists write_for
persist_session n persist_sessions none r = no_write
persist_session n persist_sessions (some scope_key) r =
    if persists n persist_sessions then write_for scope_key r else no_write

abbrev unwrap_or_default : Option Text → Text
unwrap_or_default none = []
unwrap_or_default (some t) = t

abbrev payload_of : NodeExecutionResult → Payload
payload_of r = record {
  output = r.output;
  session_id = r.session_id;
  structured_output = r.structured_output;
  declared_fields = r.declared_fields;
}

-- The output of a node, from the last of its attempts.
unfoldable pub output_of : NodeExecutionResult → NodeOutput
output_of r = elim r.state [
  | ExecutionState.completed ↦ NodeOutput.completed (payload_of r)
  | ExecutionState.failed ↦ NodeOutput.failed (unwrap_or_default r.error) (payload_of r)
]
