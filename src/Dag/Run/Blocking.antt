-- ===== src/Dag/Run/Blocking.antt =====
-- What a dependency that did not complete does to a node, and what a node of an earlier run does,
-- crates/har-dag-executor/src/dag_executor.rs.
use harness_agent_rs.Prelude.{
  ◌≡◌, ◌≢◌, refl, sym, subst, inl, inr, Bool, false, Option, none, some, List, [], ◌∷◌, Text, Dict,
  get, arith, All,
}
use harness_agent_rs.Schema.Output.{NodeOutput, NodeState, skipped, plain, completed}
use harness_agent_rs.Schema.Node.{DagNode, base, id, depends_on, TriggerRule, all_success}
use harness_agent_rs.Condition.Total.{Readers}
use harness_agent_rs.Dag.Trigger.{TriggerResult, run, skip, check_trigger_rule, rule_of}
use harness_agent_rs.Dag.Trigger.Meaning.{recorded, Is, Triggers, Some, check_trigger_rule_iff}
use harness_agent_rs.Dag.Gate.{gate, gate_with, trigger_gate, is_always_run}
use harness_agent_rs.Dag.Run.{Progress, run_node}

not_run : (r : TriggerResult) → r ≢ run → r ≡ skip
not_run run h = absurd (h refl)
not_run skip h = refl

All-Some :
    (o : Dict NodeOutput) (d : Text) (ds : List Text) (s : NodeState)
    → Some (λ x. x ≡ d) ds
    → All (Is s o) ds
    → recorded (get d o) ≡ s
All-Some o d [] s h a = absurd h
All-Some o d (x ∷ xs) s (inl e) (a, rest) = rw (sym e) a
All-Some o d (x ∷ xs) s (inr h) (a, rest) = All-Some o d xs s h rest

success_only :
    (r : TriggerRule) (ds : List Text) (o : Dict NodeOutput)
    → r ≡ all_success
    → Triggers r ds o
    → All (Is NodeState.completed o) ds
success_only all_success ds o h t = t
success_only _ ds o h t = ground arith

blocked :
    (n : DagNode) (o : Dict NodeOutput) (d : Text)
    → rule_of (base n).trigger_rule ≡ all_success
    → Some (λ x. x ≡ d) (depends_on n)
    → recorded (get d o) ≢ NodeState.completed
    → check_trigger_rule n o ≢ run
blocked n o d h i j r = elim ((check_trigger_rule_iff n o).0 r) [
  | inl e ↦ subst (Some (λ x. x ≡ d)) e i
  | inr t ↦ j (
      All-Some o d (depends_on n) NodeState.completed i
        (success_only (rule_of (base n).trigger_rule) (depends_on n) o h t))
]

module _ (readers : Readers) (prior : Dict Text)
    (execute : DagNode → Dict NodeOutput → Bool → Option Text → Option NodeOutput) where
  -- A node with the rule `all_success` and no output of an earlier run is skipped, and its executor
  -- is not called, when one of its dependencies is on record in another state than completed, or is
  -- not on record.
  pub blocked_skips :
      (b : Bool) (p : Progress) (n : DagNode) (d : Text)
      → get (id n) prior ≡ none
      → rule_of (base n).trigger_rule ≡ all_success
      → Some (λ x. x ≡ d) (depends_on n)
      → recorded (get d p.node_outputs) ≢ NodeState.completed
      → run_node readers prior execute b p n ≡ some (skipped [])
  unfolding run_node gate gate_with trigger_gate
  blocked_skips b p n d e h i j =
      let s = not_run (check_trigger_rule n p.node_outputs) (blocked n p.node_outputs d h i j) in
      ground (arith, e, s)

  -- A node with an output of an earlier run that is not marked `always_run` completes with that
  -- output, whatever its dependencies, and its executor is not called.
  pub prior_reused :
      (b : Bool) (p : Progress) (n : DagNode) (o : Text)
      → get (id n) prior ≡ some o
      → is_always_run n ≡ false
      → run_node readers prior execute b p n ≡ some (completed (plain o))
  unfolding run_node gate gate_with
  prior_reused b p n o e h = ground (arith, e, h)
