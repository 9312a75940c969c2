-- ===== src/Dag/Trigger.antt =====
-- `check_trigger_rule` of crates/har-dag-executor/src/dag_executor.rs: whether a node runs, given
-- what its upstream nodes came to. The child module says when.
pub mod Meaning
use harness_agent_rs.Prelude.{
  Text, text, Bool, true, false, not, ◌&&◌, ◌||◌, Option, none, some, List, [], ◌∷◌, ◌++◌, map, any,
  all, is_empty, get, Dict, if◌then◌else◌,
}
use harness_agent_rs.Schema.Output.{NodeState, NodeOutput, Payload, plain, state, is_completed}
use harness_agent_rs.Schema.Node.{
  DagNode, DagNodeBase, TriggerRule, all_success, one_success, none_failed_min_one_success,
  all_done, base, depends_on,
}

pub data TriggerResult : Type 0 where
  run skip : TriggerResult

unfoldable pub as_str : TriggerResult → Text
as_str run = text "run"
as_str skip = text "skip"

-- `matches!(u.state(), NodeState::Failed)`.
unfoldable pub is_failed : NodeState → Bool
is_failed NodeState.failed = true
is_failed _ = false

-- `s != Pending && s != Running`.
unfoldable pub is_settled : NodeState → Bool
is_settled NodeState.pending = false
is_settled NodeState.running = false
is_settled _ = true

-- An upstream that is missing counts as failed.
unfoldable pub or_missing : Text → Option NodeOutput → NodeOutput
or_missing id (some o) = o
or_missing id none =
    NodeOutput.failed (text "upstream '" ++ id ++ text "' missing from outputs") (plain [])

unfoldable pub upstreams : List Text → Dict NodeOutput → List NodeOutput
unfolding or_missing get
upstreams [] outputs = []
upstreams (d ∷ ds) outputs = or_missing d (get d outputs) ∷ upstreams ds outputs

abbrev run_if : Bool → TriggerResult
run_if true = run
run_if false = skip

unfoldable pub apply_rule : TriggerRule → List NodeOutput → TriggerResult
unfolding is_completed is_failed is_settled state
apply_rule all_success us = run_if (all is_completed us)
apply_rule one_success us = run_if (any is_completed us)
apply_rule none_failed_min_one_success us =
    run_if (not (any (λ u. is_failed (state u)) us) && any is_completed us)
apply_rule all_done us = run_if (all (λ u. is_settled (state u)) us)

-- `unwrap_or(TriggerRule::AllSuccess)`.
unfoldable pub rule_of : Option TriggerRule → TriggerRule
rule_of none = all_success
rule_of (some r) = r

unfoldable pub check_trigger_rule : DagNode → Dict NodeOutput → TriggerResult
unfolding base depends_on rule_of upstreams apply_rule is_empty
check_trigger_rule node outputs =
    if is_empty (depends_on node)
    then run
    else apply_rule (rule_of (base node).trigger_rule) (upstreams (depends_on node) outputs)
