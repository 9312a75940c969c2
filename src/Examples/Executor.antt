-- ===== src/Examples/Executor.antt =====
-- The executor on concrete nodes, crates/har-dag-executor/src/dag_executor.rs.
use harness_agent_rs.Prelude.{
  arith, total, ◌≢◌, Result, ok, ℕ, ◌≡◌, refl, ◌↔◌, ◌⊎◌, inl, ◌≤◌, Bool, true, false, Option, none,
  some, List, [], ◌∷◌, Text, text, is_empty, trim, text_eq, Dict, get, ok, err,
}
use harness_agent_rs.Schema.Output.{NodeOutput, NodeState, plain, completed, failed, skipped, state}
use harness_agent_rs.Schema.Run.{running}
use harness_agent_rs.Schema.Node.{DagNode, base, id, depends_on, StepRetryConfig, validate}
use harness_agent_rs.Condition.Total.{verdict}
use harness_agent_rs.Dag.Trigger.{run, check_trigger_rule, rule_of}
use harness_agent_rs.Dag.Trigger.Meaning.{Triggers, check_trigger_rule_iff}
use harness_agent_rs.Dag.Gate.{gate, pass, settled, when_condition_parse_error}
use harness_agent_rs.Dag.Gate.Passing.{MayRun, Sees, Holds, gate_iff}
use harness_agent_rs.Dag.Retry.{effective, NodeExecutionResult, not_executed, execute_with_retries}
use harness_agent_rs.Dag.Retry.Bounds.{
  Ends, delays_from, slept_in_all, execute_with_retries_lem, accepted_config_bounds,
}
use harness_agent_rs.Schema.Node.{fresh, prompt}
use harness_agent_rs.Dag.Layers.{runtime_cycle, out_of_fuel, build_topological_layers}
use harness_agent_rs.Dag.Layers.Degrees.{has}
use harness_agent_rs.Dag.Layers.Order.{Ordered}
use harness_agent_rs.Dag.Layers.Correct.{build_topological_layers-Ordered}
use harness_agent_rs.Dag.Layers.Start.{build_topological_layers_total}
use harness_agent_rs.Dag.Session.{persists, resume_session, persist_session, no_write}
use harness_agent_rs.Dag.Session.Isolation.{fresh_isolated, parallel_resumes_persisted}
use harness_agent_rs.Dag.Run.{StatusRead, Progress, stop_detected, run_node}
use harness_agent_rs.Dag.Run.Blocking.{blocked_skips}
use harness_agent_rs.Dag.Run.Ending.{NodeCounts, completes, conclude, node_counts, terminal_output}
use harness_agent_rs.Dag.Run.Outcome.{SomeIn, NoneIn, Hands, completes_iff, handed_output}
use harness_agent_rs.Examples.Samples.{node_with, first_node, second_node, third_node, toy_readers}

abbrev first_done : Dict NodeOutput
first_done = (text "a", completed (plain (text "x"))) ∷ []

abbrev first_failed : Dict NodeOutput
first_failed = (text "a", failed (text "boom") (plain [])) ∷ []

abbrev both_done : Dict NodeOutput
both_done = (text "a", completed (plain (text "x"))) ∷ (text "b", completed (plain (text "y"))) ∷ []

abbrev nodes : List DagNode
nodes = first_node ∷ second_node ∷ []

abbrev no_prior : Dict Text
no_prior = []

abbrev echo : DagNode → Dict NodeOutput → Bool → Option Text → Option NodeOutput
echo n outputs is_parallel_layer session = some (completed (plain (base n).id))

abbrev start : Progress
start = record { node_outputs = []; last_sequential_session_id = some (text "s") }

abbrev after_failure : Progress
after_failure = record { node_outputs = first_failed; last_sequential_session_id = none }

abbrev still_running : ℕ → StatusRead
still_running i = ok (some running)

abbrev gone : ℕ → StatusRead
gone i = ok none

check_trigger_rule_iff_example :
    (check_trigger_rule second_node first_done ≡ run)
    ↔ ((depends_on second_node ≡ []) ⊎ Triggers (rule_of none) (depends_on second_node) first_done)
unfolding base
check_trigger_rule_iff_example = check_trigger_rule_iff second_node first_done

gate_iff_example : (gate toy_readers no_prior second_node first_done ≡ pass first_done) ↔ (
    MayRun (get (id second_node) no_prior) second_node
    × Sees (get (id second_node) no_prior) (id second_node) first_done first_done
    × (check_trigger_rule second_node first_done ≡ run)
    × Holds toy_readers none first_done)
unfolding base
gate_iff_example = gate_iff toy_readers no_prior second_node first_done first_done

-- A condition with a reference that is not found skips its node.
odd_is_skipped :
    gate toy_readers no_prior third_node first_done
    ≡ settled when_condition_parse_error (skipped [])
unfolding gate text_eq verdict
odd_is_skipped = refl

abbrev two_completed : NodeCounts
two_completed = record { completed = 2; failed = 0; skipped = 0; total = 2 }

completes_iff_example :
    (conclude nodes both_done (ok (some running)) ≡ completes two_completed (some (text "y"))) ↔ (
      SomeIn NodeState.completed both_done
      × NoneIn NodeState.failed both_done
      × (stop_detected (ok (some running)) ≡ false)
      × (node_counts nodes both_done ≡ two_completed)
      × (terminal_output nodes nodes both_done ≡ some (text "y")))
completes_iff_example =
    completes_iff nodes both_done (ok (some running)) two_completed (some (text "y"))

handed_output_example : Hands nodes both_done (text "y") nodes
unfolding conclude text_eq is_empty trim
handed_output_example =
    handed_output nodes both_done (ok (some running)) two_completed (text "y") refl

abbrev lower : Text → Text
lower t = t

abbrev timing_out : ℕ → NodeExecutionResult
timing_out i = record not_executed { error = some (text "timeout") }

abbrev twice : StepRetryConfig
twice = record { max_attempts = 2; delay_us = some 2000000; on_error = none }

execute_test : (execute_with_retries lower (effective (some twice)) timing_out).1 ≡ 2000 ∷ 4000 ∷ []
unfolding execute_with_retries effective
execute_test = refl

execute_with_retries_lem_example :
    Ends lower
      (effective (some twice))
      timing_out
      0
      (execute_with_retries lower (effective (some twice)) timing_out)
unfolding effective
execute_with_retries_lem_example =
    execute_with_retries_lem lower (effective (some twice)) timing_out (omega arith)

accepted_config_bounds_example :
    (k : ℕ) × (k ≤ 5)
    × ((execute_with_retries lower (effective (some twice)) timing_out).0 ≡ timing_out k)
    × ((execute_with_retries lower (effective (some twice)) timing_out).1
        ≡ delays_from (effective (some twice)) 0 k)
    × (slept_in_all (execute_with_retries lower (effective (some twice)) timing_out).1 ≤ 1860000)
unfolding validate
accepted_config_bounds_example = accepted_config_bounds lower twice timing_out refl

layers_test :
    build_topological_layers (second_node ∷ first_node ∷ [])
    ≡ ok ((first_node ∷ []) ∷ (second_node ∷ []) ∷ [])
unfolding build_topological_layers text_eq id
layers_test = refl

build_topological_layers-Ordered_example :
    Ordered [] ((first_node ∷ []) ∷ (second_node ∷ []) ∷ [])
    × (2 ≤ total ((first_node ∷ []) ∷ (second_node ∷ []) ∷ []))
unfolding build_topological_layers text_eq id has
build_topological_layers-Ordered_example =
    build_topological_layers-Ordered (second_node ∷ first_node ∷ [])
      ((first_node ∷ []) ∷ (second_node ∷ []) ∷ []) (refl, (refl, tt), (refl, tt, tt)) refl

abbrev looping : List DagNode
looping = node_with (text "a") (text "b" ∷ []) none ∷ second_node ∷ []

cycle_test : build_topological_layers looping ≡ err runtime_cycle
unfolding build_topological_layers text_eq id
cycle_test = refl

build_topological_layers_total_example : build_topological_layers looping ≢ err out_of_fuel
build_topological_layers_total_example = build_topological_layers_total looping

blocked_skips_example :
    run_node toy_readers no_prior echo false after_failure second_node ≡ some (skipped [])
unfolding get rule_of text_eq state base depends_on
blocked_skips_example =
    blocked_skips toy_readers no_prior echo false after_failure second_node (text "a") refl refl
      (inl refl) (λ h. cc)

abbrev fresh_node : DagNode
fresh_node = prompt (record (base first_node) { context = some fresh }) (text "start over")

abbrev persistent_node : DagNode
persistent_node = prompt (record (base first_node) { persist_session = some true }) (text "go on")

abbrev stored : Text → Result Text (Option Text)
stored scope_key = ok (some (text "kept"))

fresh_isolated_example :
    (resume_session false fresh_node true true (some (text "c1")) stored (some (text "s"))
      ≡ ok none)
    × (persist_session fresh_node true (some (text "c1")) not_executed ≡ no_write)
unfolding base
fresh_isolated_example =
    fresh_isolated fresh_node false true true (some (text "c1")) stored (some (text "s"))
      not_executed refl

parallel_resumes_persisted_example :
    (persists persistent_node false ≡ true)
    × (true ≡ true)
    × (k : Text) × (some (text "c1") ≡ some k)
    × (stored k ≡ ok (some (text "kept")))
unfolding resume_session base
parallel_resumes_persisted_example =
    parallel_resumes_persisted persistent_node false true (some (text "c1")) stored
      (some (text "s")) (text "kept") refl
