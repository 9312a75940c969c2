-- ===== src/Dag/Run/Outcome.antt =====
-- When a run completes and what it hands on, crates/har-dag-executor/src/dag_executor.rs.
use harness_agent_rs.Prelude.{
  ◌==◌, true, false, Option, some, List, [], ◌∷◌, Text, Dict, get, arith, ◌≡◌, ◌≢◌, refl, ◌↔◌, ◌⊎◌,
  is_empty, trim,
}
use harness_agent_rs.Schema.Output.{NodeOutput, NodeState, state}
use harness_agent_rs.Schema.Node.{DagNode, id}
use harness_agent_rs.Dag.Run.{StatusRead, stop_detected, Run, stopped, finished, Progress}
use harness_agent_rs.Dag.Run.Ending.{
  count, node_counts, NodeCounts, skip_if_status_changed, is_depended_on, terminal_output,
  left_alone, completes, conclude, ending,
}

-- Some node, or no node, is on record in the state.
abbrev pub SomeIn : NodeState → Dict NodeOutput → Type 0
SomeIn s [] = ⊥
SomeIn s ((k, o) ∷ m) = (state o ≡ s) ⊎ SomeIn s m

abbrev pub NoneIn : NodeState → Dict NodeOutput → Type 0
NoneIn s [] = Unit
NoneIn s ((k, o) ∷ m) = (state o ≢ s) × NoneIn s m

completed-none :
    (m : Dict NodeOutput)
    → ((count NodeState.completed m == 0) ≡ false) ↔ SomeIn NodeState.completed m
unfolding count state
completed-none [] = (λ h. cc, λ h. absurd h)
completed-none ((k, o) ∷ m) =
    (λ h. ground (arith, completed-none m), λ h. ground (arith, completed-none m))

failed-none :
    (m : Dict NodeOutput) → ((count NodeState.failed m == 0) ≡ true) ↔ NoneIn NodeState.failed m
unfolding count state
failed-none [] = (λ h. tt, λ h. refl)
failed-none ((k, o) ∷ m) = (λ h. ground (arith, failed-none m), λ h. ground (arith, failed-none m))

-- A run that got through its layers completes exactly if some node completed, none failed and its
-- status has not changed; then it completes with the counts of its outputs and its terminal output.
pub completes_iff :
    (nodes : List DagNode) (m : Dict NodeOutput) (r : StatusRead) (c : NodeCounts) (t : Option Text)
    → (conclude nodes m r ≡ completes c t) ↔ (
        SomeIn NodeState.completed m
        × NoneIn NodeState.failed m
        × (stop_detected r ≡ false)
        × (node_counts nodes m ≡ c)
        × (terminal_output nodes nodes m ≡ t))
unfolding conclude skip_if_status_changed node_counts
completes_iff nodes m r c t =
    let a = completed-none m in
    let b = failed-none m in (λ h. ground (arith, a, b), λ h. ground (arith, a, b))

-- A run whose status has changed, or that stopped between two layers, is left as it is: it is
-- neither completed nor failed.
pub changed_left_alone :
    (nodes : List DagNode) (r : StatusRead) (w : Run)
    → ((p : Progress) → w ≡ finished p → stop_detected r ≡ true)
    → ending nodes r w ≡ left_alone
unfolding ending conclude skip_if_status_changed
changed_left_alone nodes r (stopped p) h = refl
changed_left_alone nodes r (finished p) h = rw (h p refl) ground arith

abbrev pub Ends : Option NodeOutput → Text → Type 0
Ends (some (NodeOutput.completed p)) t = (p.output ≡ t) × (is_empty (trim t) ≡ false)
Ends _ t = ⊥

-- A node that nothing depends on and that has completed with the text, which is not blank.
abbrev pub Hands : List DagNode → Dict NodeOutput → Text → List DagNode → Type 0
Hands nodes m t [] = ⊥
Hands nodes m t (n ∷ ns) =
    ((is_depended_on nodes (id n) ≡ false) × Ends (get (id n) m) t) ⊎ Hands nodes m t ns

terminal_output-Hands :
    (nodes ns : List DagNode) (m : Dict NodeOutput) (t : Text)
    → terminal_output nodes ns m ≡ some t
    → Hands nodes m t ns
unfolding terminal_output
terminal_output-Hands nodes [] m t h = ground arith
terminal_output-Hands nodes (n ∷ ns) m t h = ground (arith, terminal_output-Hands nodes ns m t)

-- A run that completes with an output has a node on which no other node depends and which completed
-- with exactly that output, and the output is not blank.
pub handed_output :
    (nodes : List DagNode) (m : Dict NodeOutput) (r : StatusRead) (c : NodeCounts) (t : Text)
    → conclude nodes m r ≡ completes c (some t)
    → Hands nodes m t nodes
handed_output nodes m r c t h =
    let (a, b, d, e, f) = (completes_iff nodes m r c (some t)).0 h in
    terminal_output-Hands nodes nodes m t f
