-- ===== src/Dag/Run/Whole.antt =====
-- A workflow from its nodes to its outputs, crates/har-dag-executor/src/dag_executor.rs: the layers and
-- the run of the layers together.
use harness_agent_rs.Prelude.{
  ◌≡◌, sym, subst, ℕ, suc, Bool, true, Option, none, List, [], ◌∷◌, Text, Dict, All, All-map, ok,
}
use harness_agent_rs.Schema.Output.{NodeOutput}
use harness_agent_rs.Schema.Node.{DagNode, id}
use harness_agent_rs.Condition.Total.{Readers}
use harness_agent_rs.Dag.Layers.{build_topological_layers}
use harness_agent_rs.Dag.Layers.Degrees.{has}
use harness_agent_rs.Dag.Layers.Order.{placed, Fresh}
use harness_agent_rs.Dag.Layers.Correct.{build_topological_layers-Ordered}
use harness_agent_rs.Dag.Layers.Complete.{placed_all, layers_hold_all}
use harness_agent_rs.Dag.Run.{
  StatusRead, Progress, run_layer, run_layers, run_workflow, prepopulate,
}
use harness_agent_rs.Dag.Run.Stopping.{outputs_of, is_finished, Quiet, finished_iff}
use harness_agent_rs.Dag.Run.Supply.{
  Recorded, AllRecorded, Tireless, Supplied, goes_on, layers-Supplied, run_layer-AllRecorded,
}

module _ (readers : Readers) (prior : Dict Text)
    (execute : DagNode → Dict NodeOutput → Bool → Option Text → Option NodeOutput)
    (status_after : ℕ → StatusRead) where
  layers-AllRecorded :
      Tireless readers prior execute
      → (ls : List (List DagNode)) (seen : List Text) (i : ℕ) (p : Progress)
      → Quiet status_after i ls
      → AllRecorded seen p.node_outputs
      → AllRecorded
          (placed_all ls seen)
          (outputs_of (run_layers readers prior execute status_after i ls p))
  unfolding run_layers
  layers-AllRecorded t [] seen i p q a = a
  layers-AllRecorded t (l ∷ ls) seen i p q a =
      subst (λ x. AllRecorded (placed_all ls (placed l seen)) (outputs_of x))
        (sym (goes_on readers prior execute status_after l ls i p q.0))
        (layers-AllRecorded t ls (placed l seen) (suc i) (run_layer readers prior execute l p) q.1
          (run_layer-AllRecorded readers prior execute t l p seen a))

  nothing-AllRecorded : (m : Dict NodeOutput) → AllRecorded [] m
  unfolding has
  nothing-AllRecorded m k h = cc

  -- The progress at the start of a run.
  abbrev pub start : List DagNode → Progress
  start nodes = record {
    node_outputs = prepopulate nodes prior [];
    last_sequential_session_id = none;
  }

  -- If the nodes have different ids and layers, no task panics, and the store never says that the run
  -- has stopped, then the run gets to the end of its layers, each node runs when all its dependencies
  -- are on record with the outputs that they have in the end, and every node has an output then.
  pub run_workflow-Supplied :
      (nodes : List DagNode) (ls : List (List DagNode))
      → Fresh [] nodes
      → build_topological_layers nodes ≡ ok ls
      → Tireless readers prior execute
      → Quiet status_after 0 ls
      → (is_finished (run_workflow readers prior execute status_after nodes ls) ≡ true)
        × Supplied readers prior execute
            (outputs_of (run_workflow readers prior execute status_after nodes ls))
            ls
            (start nodes)
        × All
            (λ n.
              Recorded
                (id n)
                (outputs_of (run_workflow readers prior execute status_after nodes ls)))
            nodes
  unfolding run_workflow
  run_workflow-Supplied nodes ls f h t q =
      let o = build_topological_layers-Ordered nodes ls f h in
      let none_yet = nothing-AllRecorded (start nodes).node_outputs in
      let recorded = layers-AllRecorded t ls [] 0 (start nodes) q none_yet in
      (
        (finished_iff readers prior execute status_after ls 0 (start nodes)).1 q,
        layers-Supplied readers prior execute status_after t ls [] 0 (start nodes) o.0 q none_yet,
        All-map (λ n. has (placed_all ls []) (id n) ≡ true)
            (λ n.
              Recorded (id n)
                (outputs_of (run_layers readers prior execute status_after 0 ls (start nodes))))
            (λ n e. recorded (id n) e) nodes (layers_hold_all nodes ls f h),
      )
