-- ===== src/Dag/Run.antt =====
-- The layers of `execute_dag_workflow`, crates/har-dag-executor/src/dag_executor.rs: the outputs of an
-- earlier run, the tasks of a layer, their results, and the stop between layers. A node's executor is
-- the parameter `execute`, of the node, the outputs it sees, whether its layer is parallel and the
-- session before it; `none` is a task that panics. `status_after` is what the store answers after
-- each layer. The tasks of a layer read the same snapshot, so that their order does not matter; their
-- results are collected in the order of the layer.
pub mod Stopping
pub mod Ending
pub mod Outcome
pub mod Blocking
pub mod Supply
pub mod Whole
use harness_agent_rs.Prelude.{
  ℕ, suc, ◌+◌, Bool, true, false, not, ◌&&◌, Option, none, some, List, [], ◌∷◌, Text, text_eq, Dict,
  get, insert, any, length, map, ltb, if◌then◌else◌, Result, ok, err,
}
use harness_agent_rs.Schema.Output.{NodeOutput, Payload, plain, completed}
use harness_agent_rs.Schema.Node.{DagNode, DagNodeBase, base, id}
use harness_agent_rs.Schema.Run.{WorkflowRunStatus, running, status_eq}
use harness_agent_rs.Condition.Total.{Readers}
use harness_agent_rs.Dag.Gate.{Gate, settled, pass, gate, is_always_run}

-- What `get_workflow_run_status` answers: an error, no run, or the status of the run.
abbrev pub StatusRead : Type 0
StatusRead = Result Text (Option WorkflowRunStatus)

pub record Progress : Type 0 where
  pub node_outputs : Dict NodeOutput
  pub last_sequential_session_id : Option Text

-- `always_run_ids.contains(nid)`.
unfoldable pub is_reset : List DagNode → Text → Bool
unfolding is_always_run id
is_reset nodes k = any (λ n. is_always_run n && text_eq (id n) k) nodes

-- The outputs of an earlier run, but for the nodes that always run.
unfoldable pub prepopulate : List DagNode → Dict Text → Dict NodeOutput → Dict NodeOutput
unfolding is_reset insert
prepopulate nodes [] m = m
prepopulate nodes ((k, o) ∷ prior) m =
    if is_reset nodes k
    then prepopulate nodes prior m
    else prepopulate nodes prior (insert k (completed (plain o)) m)

abbrev session_of : NodeOutput → Option Text → Option Text
session_of (NodeOutput.completed p) last = elim p.session_id [ some sid ↦ some sid | none ↦ last ]
session_of _ last = last

-- One result of a layer; a task that panicked leaves no output.
unfoldable pub collect : Bool → Text → Option NodeOutput → Progress → Progress
unfolding insert
collect is_parallel_layer k none p = p
collect is_parallel_layer k (some o) p = record {
  node_outputs = insert k o p.node_outputs;
  last_sequential_session_id =
      if is_parallel_layer
      then p.last_sequential_session_id
      else session_of o p.last_sequential_session_id;
}

unfoldable pub collect_all : Bool → List (Text × Option NodeOutput) → Progress → Progress
unfolding collect
collect_all is_parallel_layer [] p = p
collect_all is_parallel_layer ((k, o) ∷ rs) p =
    collect_all is_parallel_layer rs (collect is_parallel_layer k o p)

-- A parallel layer forgets the session.
unfoldable pub enter_layer : Bool → Progress → Progress
enter_layer false p = p
enter_layer true p = record { node_outputs = p.node_outputs; last_sequential_session_id = none }

-- The run is no longer running: another status, or the run is gone. An error of the store goes on.
unfoldable pub stop_detected : StatusRead → Bool
unfolding status_eq
stop_detected (ok (some s)) = not (status_eq s running)
stop_detected (ok none) = true
stop_detected (err e) = false

pub data Run : Type 0 where
  stopped : Progress → Run
  finished : Progress → Run

module _ (readers : Readers) (prior : Dict Text)
    (execute : DagNode → Dict NodeOutput → Bool → Option Text → Option NodeOutput) where
  unfoldable pub run_node : Bool → Progress → DagNode → Option NodeOutput
  unfolding gate
  run_node is_parallel_layer p n = elim (gate readers prior n p.node_outputs) [
    | settled reason o ↦ some o
    | pass outputs ↦ execute n outputs is_parallel_layer p.last_sequential_session_id
  ]

  unfoldable pub results : Bool → Progress → List DagNode → List (Text × Option NodeOutput)
  unfolding run_node id
  results is_parallel_layer p [] = []
  results is_parallel_layer p (n ∷ ns) =
      (id n, run_node is_parallel_layer p n) ∷ results is_parallel_layer p ns

  unfoldable pub run_layer : List DagNode → Progress → Progress
  unfolding results collect_all enter_layer
  run_layer layer p =
      let is_parallel_layer = ltb 1 (length layer) in
      let p' = enter_layer is_parallel_layer p in
      collect_all is_parallel_layer (results is_parallel_layer p' layer) p'

  module _ (status_after : ℕ → StatusRead) where
    -- The layers from number `i` on.
    unfoldable pub run_layers : ℕ → List (List DagNode) → Progress → Run
    unfolding run_layer stop_detected
    run_layers i [] p = finished p
    run_layers i (layer ∷ layers) p =
        let rest = run_layers (suc i) layers (run_layer layer p) in
        if stop_detected (status_after i) then stopped (run_layer layer p) else rest

    -- The loop, from the outputs of an earlier run.
    unfoldable pub run_workflow : List DagNode → List (List DagNode) → Run
    unfolding run_layers prepopulate
    run_workflow nodes layers =
        run_layers 0 layers
          (record { node_outputs = prepopulate nodes prior []; last_sequential_session_id = none })
