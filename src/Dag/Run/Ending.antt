-- ===== src/Dag/Run/Ending.antt =====
-- How a run ends once its layers are done, crates/har-dag-executor/src/dag_executor.rs: the counts of
-- its outputs, the last look at its status, and the output that is handed to a parent.
use harness_agent_rs.Prelude.{
  Result, ok, ◌>>=◌, ℕ, ◌+◌, ◌==◌, Bool, true, false, not, Option, none, some, List, [], ◌∷◌, Text,
  text_eq, Dict, get, any, length, is_empty, trim, if◌then◌else◌,
}
use harness_agent_rs.Schema.Output.{NodeOutput, NodeState, state}
use harness_agent_rs.Schema.Node.{DagNode, id, depends_on}
use harness_agent_rs.Condition.Total.{Readers}
use harness_agent_rs.Dag.Layers.{Panic, build_topological_layers}
use harness_agent_rs.Dag.Run.{run_workflow, StatusRead, stop_detected, Run, stopped, finished}

pub record NodeCounts : Type 0 where
  pub completed : ℕ
  pub failed : ℕ
  pub skipped : ℕ
  pub total : ℕ

abbrev has_state : NodeState → NodeOutput → Bool
has_state s o = elim (state o) [
  | NodeState.completed ↦ elim s [ NodeState.completed ↦ true | _ ↦ false ]
  | NodeState.failed ↦ elim s [ NodeState.failed ↦ true | _ ↦ false ]
  | NodeState.skipped ↦ elim s [ NodeState.skipped ↦ true | _ ↦ false ]
  | _ ↦ false
]

-- The counters of the loop over the outputs.
unfoldable pub count : NodeState → Dict NodeOutput → ℕ
unfolding state
count s [] = 0
count s ((k, o) ∷ m) = (if has_state s o then 1 else 0) + count s m

unfoldable pub node_counts : List DagNode → Dict NodeOutput → NodeCounts
unfolding count
node_counts nodes m = record {
  completed = count NodeState.completed m;
  failed = count NodeState.failed m;
  skipped = count NodeState.skipped m;
  total = length nodes;
}

-- `skip_if_status_changed`: the same test as between layers.
unfoldable pub skip_if_status_changed : StatusRead → Bool
unfolding stop_detected
skip_if_status_changed r = stop_detected r

abbrev error_of : NodeOutput → Text
error_of (NodeOutput.failed e _) = e
error_of _ = []

-- The failed nodes and their errors.
unfoldable pub failed_nodes : Dict NodeOutput → List (Text × Text)
unfolding state
failed_nodes [] = []
failed_nodes ((k, o) ∷ m) =
    if has_state NodeState.failed o then (k, error_of o) ∷ failed_nodes m else failed_nodes m

-- `all_deps.contains(id)`.
unfoldable pub is_depended_on : List DagNode → Text → Bool
unfolding depends_on
is_depended_on nodes k = any (λ n. any (λ d. text_eq d k) (depends_on n)) nodes

abbrev full_output : Option NodeOutput → Option Text
full_output (some (NodeOutput.completed p)) =
    if is_empty (trim p.output) then none else some p.output
full_output _ = none

-- The first node that nothing depends on and that has completed with some text.
unfoldable pub terminal_output : List DagNode → List DagNode → Dict NodeOutput → Option Text
unfolding is_depended_on get id
terminal_output nodes [] m = none
terminal_output nodes (n ∷ ns) m =
    let later = terminal_output nodes ns m in
    if is_depended_on nodes (id n)
    then later
    else elim (full_output (get (id n) m)) [ some t ↦ some t | none ↦ later ]

-- The run is left as it is, fails with the failed nodes and the number of skipped ones, or completes
-- with its counts and its output.
pub data Ending : Type 0 where
  left_alone : Ending
  no_successful_node : List (Text × Text) → ℕ → Ending
  completed_with_failures : List (Text × Text) → Ending
  completes : NodeCounts → Option Text → Ending

unfoldable pub conclude : List DagNode → Dict NodeOutput → StatusRead → Ending
unfolding skip_if_status_changed node_counts failed_nodes terminal_output
conclude nodes m status =
    let counts = node_counts nodes m in
    if counts.completed == 0
    then (if skip_if_status_changed status
        then left_alone
        else no_successful_node (failed_nodes m) counts.skipped)
    else if not (counts.failed == 0)
    then (if skip_if_status_changed status
        then left_alone
        else completed_with_failures (failed_nodes m))
    else if skip_if_status_changed status
    then left_alone
    else completes counts (terminal_output nodes nodes m)

unfoldable pub ending : List DagNode → StatusRead → Run → Ending
unfolding conclude
ending nodes status (stopped p) = left_alone
ending nodes status (finished p) = conclude nodes p.node_outputs status

-- The whole of `execute_dag_workflow`: `status` is what the store answers at the end.
module _ (readers : Readers) (prior : Dict Text)
    (execute : DagNode → Dict NodeOutput → Bool → Option Text → Option NodeOutput)
    (status_after : ℕ → StatusRead) (status : StatusRead) where
  unfoldable pub execute_dag_workflow : List DagNode → Result Panic Ending
  unfolding build_topological_layers run_workflow ending
  execute_dag_workflow nodes = build_topological_layers nodes >>= λ layers.
      ok (ending nodes status (run_workflow readers prior execute status_after nodes layers))
