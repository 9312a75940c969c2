-- ===== src/Dag/Gate.antt =====
-- The gates of a node task in `execute_dag_workflow`, crates/har-dag-executor/src/dag_executor.rs: a
-- node completed by an earlier run, the trigger rule, and the `when:` condition. The child modules
-- say which nodes pass and why the others do not.
pub mod Passing
pub mod Settling
use harness_agent_rs.Prelude.{
  ◌==◌, Bool, true, false, Option, none, some, List, [], ◌∷◌, Text, Dict, get, insert,
  if◌then◌else◌, Result, ok, err,
}
use harness_agent_rs.Schema.Output.{NodeOutput, Payload, plain, completed, skipped}
use harness_agent_rs.Schema.Node.{DagNode, DagNodeBase, base, id}
use harness_agent_rs.Dag.Trigger.{TriggerResult, run, skip, check_trigger_rule}
use harness_agent_rs.Condition.Atom.{EvaluationResult}
use harness_agent_rs.Condition.Evaluate.{Verdict}
use harness_agent_rs.Condition.Total.{Readers, verdict}

-- The `reason` of a `node_skipped` event.
pub data SkipReason : Type 0 where
  prior_success trigger_rule when_condition_parse_error when_condition : SkipReason

-- A node is settled without being executed, or goes on to its executor with the outputs it sees.
pub data Gate : Type 0 where
  settled : SkipReason → NodeOutput → Gate
  pass : Dict NodeOutput → Gate

-- `== Some(true)`.
unfoldable pub is_always_run : DagNode → Bool
unfolding base
is_always_run n = elim (base n).always_run [ some true ↦ true | _ ↦ false ]

-- `entry(nid).or_insert_with(…)`.
unfoldable pub or_insert : Text → NodeOutput → Dict NodeOutput → Dict NodeOutput
unfolding get insert
or_insert k v m = elim (get k m) [ none ↦ insert k v m | some w ↦ m ]

-- The outputs of earlier layers, with the node's own earlier output.
unfoldable pub all_outputs : Option Text → Text → Dict NodeOutput → Dict NodeOutput
unfolding or_insert
all_outputs none k snapshot = snapshot
all_outputs (some prior) k snapshot = or_insert k (completed (plain prior)) snapshot

-- An error of the evaluation skips the node, as does a condition that is not understood.
unfoldable pub when_gate : Verdict → Dict NodeOutput → Gate
when_gate (err e) outputs = settled when_condition_parse_error (skipped [])
when_gate (ok r) outputs =
    if r.parsed
    then (if r.result then pass outputs else settled when_condition (skipped []))
    else settled when_condition_parse_error (skipped [])

module _ (readers : Readers) where
  unfoldable pub condition_gate : Option Text → Dict NodeOutput → Gate
  unfolding when_gate
  condition_gate none outputs = pass outputs
  condition_gate (some expr) outputs = when_gate (verdict readers expr outputs) outputs

  unfoldable pub trigger_gate : DagNode → Dict NodeOutput → Gate
  unfolding check_trigger_rule condition_gate base
  trigger_gate n outputs = elim (check_trigger_rule n outputs) [
    | skip ↦ settled trigger_rule (skipped [])
    | run ↦ condition_gate (base n).when outputs
  ]

  unfoldable pub gate_with : Option Text → DagNode → Dict NodeOutput → Gate
  unfolding trigger_gate all_outputs is_always_run id
  gate_with none n snapshot = trigger_gate n snapshot
  gate_with (some prior) n snapshot =
      if is_always_run n
      then trigger_gate n (all_outputs (some prior) (id n) snapshot)
      else settled prior_success (completed (plain prior))

  -- `prior` holds the outputs of an earlier run, `snapshot` those of earlier layers.
  unfoldable pub gate : Dict Text → DagNode → Dict NodeOutput → Gate
  unfolding gate_with get id
  gate prior n snapshot = gate_with (get (id n) prior) n snapshot
