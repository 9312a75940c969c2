-- ===== src/Schema/Output.antt =====
-- `NodeState` and `NodeOutput` of crates/har-workflow-schema/src/workflow_run.rs.
use mathlib.Core.List.{List}
use harness_agent_rs.Prelude.{Text, Bool, true, false, Option, none, [], ◌≡◌, refl}
use harness_agent_rs.Schema.Json.{Json}

pub data NodeState : Type 0 where
  pending running completed failed skipped : NodeState

pub NodeState-discrete : Discrete NodeState
NodeState-discrete = hlevel

-- The fields that `Completed`, `Running` and `Failed` share.
pub record Payload : Type 0 where
  pub output : Text
  pub session_id : Option Text
  pub structured_output : Option Json
  pub declared_fields : Option (List Text)

pub data NodeOutput : Type 0 where
  completed : Payload → NodeOutput
  running : Payload → NodeOutput
  failed : Text → Payload → NodeOutput
  pending : Text → NodeOutput
  skipped : Text → NodeOutput

-- A payload that has only its text.
abbrev pub plain : Text → Payload
plain t = record { output = t; session_id = none; structured_output = none; declared_fields = none }

unfoldable pub state : NodeOutput → NodeState
state (NodeOutput.completed _) = NodeState.completed
state (NodeOutput.running _) = NodeState.running
state (NodeOutput.failed _ _) = NodeState.failed
state (NodeOutput.pending _) = NodeState.pending
state (NodeOutput.skipped _) = NodeState.skipped

unfoldable pub output : NodeOutput → Text
output (NodeOutput.completed p) = p.output
output (NodeOutput.running p) = p.output
output (NodeOutput.failed _ p) = p.output
output (NodeOutput.pending t) = t
output (NodeOutput.skipped t) = t

unfoldable pub is_completed : NodeOutput → Bool
is_completed (NodeOutput.completed _) = true
is_completed _ = false

unfoldable pub is_terminal : NodeOutput → Bool
is_terminal (NodeOutput.completed _) = true
is_terminal (NodeOutput.failed _ _) = true
is_terminal (NodeOutput.skipped _) = true
is_terminal _ = false

-- The witness that every state has an output.
unfoldable pub assert_node_output_covers_node_state : NodeState → NodeOutput
assert_node_output_covers_node_state NodeState.completed = NodeOutput.completed (plain [])
assert_node_output_covers_node_state NodeState.running = NodeOutput.running (plain [])
assert_node_output_covers_node_state NodeState.failed = NodeOutput.failed [] (plain [])
assert_node_output_covers_node_state NodeState.pending = NodeOutput.pending []
assert_node_output_covers_node_state NodeState.skipped = NodeOutput.skipped []

-- Every node state is the state of the output that is built for it.
pub state-covers : (s : NodeState) → state (assert_node_output_covers_node_state s) ≡ s
unfolding state assert_node_output_covers_node_state
state-covers NodeState.pending = refl
state-covers _ = refl
