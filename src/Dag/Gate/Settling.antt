-- ===== src/Dag/Gate/Settling.antt =====
-- Which nodes are settled without reaching their executor, and why,
-- crates/har-dag-executor/src/dag_executor.rs.
use harness_agent_rs.Prelude.{
  ◌≡◌, ◌≢◌, ◌⊎◌, true, false, Option, none, some, [], Text, Dict, ok, err,
}
use harness_agent_rs.Schema.Output.{NodeOutput, plain, completed, skipped}
use harness_agent_rs.Schema.Node.{DagNode, base, id}
use harness_agent_rs.OutputRef.{OutputRefError}
use harness_agent_rs.Dag.Trigger.{run, skip, check_trigger_rule}
use harness_agent_rs.Condition.Atom.{EvaluationResult}
use harness_agent_rs.Condition.Total.{Readers, verdict}
use harness_agent_rs.Dag.Gate.{
  SkipReason, prior_success, trigger_rule, when_condition, when_condition_parse_error,
}
use harness_agent_rs.Dag.Gate.Passing.{MayRun, Sees}

module _ (readers : Readers) where
  -- A condition that is understood and false, and one whose evaluation ends in an error or that is not
  -- understood.
  abbrev pub Refuses : Option Text → Dict NodeOutput → Type 0
  Refuses none o = ⊥
  Refuses (some expr) o =
      (r : EvaluationResult) × (verdict readers expr o ≡ ok r)
      × (r.parsed ≡ true)
      × (r.result ≡ false)

  abbrev pub Unreadable : Option Text → Dict NodeOutput → Type 0
  Unreadable none o = ⊥
  Unreadable (some expr) o =
      ((e : OutputRefError) × (verdict readers expr o ≡ err e))
      ⊎ ((r : EvaluationResult) × (verdict readers expr o ≡ ok r) × (r.parsed ≡ false))

  abbrev pub Blames : SkipReason → Option Text → Dict NodeOutput → Type 0
  Blames when_condition w o = Refuses w o
  Blames when_condition_parse_error w o = Unreadable w o
  Blames _ w o = ⊥

  -- What stands for a reason to skip a node that may run.
  abbrev pub Unmet : SkipReason → DagNode → Dict NodeOutput → Type 0
  Unmet prior_success n o = ⊥
  Unmet trigger_rule n o = check_trigger_rule n o ≡ skip
  Unmet when_condition n o = (check_trigger_rule n o ≡ run) × Refuses (base n).when o
  Unmet when_condition_parse_error n o = (check_trigger_rule n o ≡ run) × Unreadable (base n).when o

  -- Why a node is settled without being executed, and as what.
  abbrev pub Settles : Option Text → DagNode → Dict NodeOutput → SkipReason → NodeOutput → Type 0
  Settles p n o s out =
      ((prior : Text) × (p ≡ some prior)
        × ((base n).always_run ≢ some true)
        × (s ≡ prior_success)
        × (out ≡ completed (plain prior)))
      ⊎ (MayRun p n
          × (out ≡ skipped [])
          × ((o' : Dict NodeOutput) × Sees p (id n) o o' × Unmet s n o'))
