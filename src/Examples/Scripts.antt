-- ===== src/Examples/Scripts.antt =====
-- Whole runs and scripts on concrete nodes, crates/har-dag-executor/src/dag_executor.rs.
use harness_agent_rs.Prelude.{
  ◌≡◌, refl, ℕ, Text, text, text_eq, Bool, true, Option, none, some, List, [], ◌∷◌, ◌++◌, Dict, All,
  ok,
}
use harness_agent_rs.Schema.Output.{NodeOutput, plain, completed}
use harness_agent_rs.Schema.Node.{DagNode, id}
use harness_agent_rs.Schema.Run.{running}
use harness_agent_rs.Dag.Layers.{build_topological_layers}
use harness_agent_rs.Dag.Layers.Degrees.{has}
use harness_agent_rs.Dag.Run.{StatusRead, stop_detected, run_workflow}
use harness_agent_rs.Dag.Run.Stopping.{outputs_of, is_finished}
use harness_agent_rs.Dag.Run.Supply.{Recorded, Supplied, Tireless}
use harness_agent_rs.Dag.Run.Whole.{start, run_workflow-Supplied}
use harness_agent_rs.Schema.Json.{Json}
use harness_agent_rs.Dag.Refs.{shell_quote, shell_quote_or_file, substitute_ref}
use harness_agent_rs.Dag.Refs.Shell.{read_word, outside, shell_quote-read}
use harness_agent_rs.Dag.Refs.Quoting.{
  Carries, shell_quote_or_file-Carries, Agrees, script_matches_prompt,
}
use harness_agent_rs.Examples.Samples.{first_node, second_node, toy_readers}

abbrev nodes : List DagNode
nodes = second_node ∷ first_node ∷ []

abbrev layers : List (List DagNode)
layers = (first_node ∷ []) ∷ (second_node ∷ []) ∷ []

abbrev prior : Dict Text
prior = []

abbrev echo : DagNode → Dict NodeOutput → Bool → Option Text → Option NodeOutput
echo n outputs b s = some (completed (plain (text "done")))

abbrev always_running : ℕ → StatusRead
always_running i = ok (some running)

echoes : Tireless toy_readers prior echo
unfolding Tireless
echoes n outputs b s = (completed (plain (text "done")), refl)

run_workflow-Supplied_example :
    (is_finished (run_workflow toy_readers prior echo always_running nodes layers) ≡ true)
    × Supplied toy_readers prior echo
        (outputs_of (run_workflow toy_readers prior echo always_running nodes layers))
        layers
        (start toy_readers prior echo always_running nodes)
    × All
        (λ n.
          Recorded
            (id n)
            (outputs_of (run_workflow toy_readers prior echo always_running nodes layers)))
        nodes
unfolding build_topological_layers text_eq id has stop_detected
run_workflow-Supplied_example =
    run_workflow-Supplied toy_readers prior echo always_running nodes layers
      (refl, (refl, tt), (refl, tt, tt)) refl echoes (refl, (refl, tt))

quoted : shell_quote (text "it's") ≡ text "'it'\\''s'"
unfolding shell_quote
quoted = refl

shell_quote-read_example :
    read_word outside (shell_quote (text "'; rm -rf /") ++ text "''") ≡ some (text "'; rm -rf /")
unfolding read_word
shell_quote-read_example = shell_quote-read (text "'; rm -rf /") (text "''")

abbrev no_json : Text → Option Json
no_json t = none

abbrev no_fence : Text → Option (Option Text)
no_fence t = none

abbrev printed : Json → Text
printed v = text "{}"

abbrev writable : Text → Text → Bool
writable p v = true

shell_quote_or_file-Carries_example :
    Carries no_json no_fence printed writable
      (shell_quote_or_file no_json no_fence printed writable
        (text "it's")
        (text "a")
        none
        (some (text "/tmp")))
      (text "it's")
shell_quote_or_file-Carries_example =
    shell_quote_or_file-Carries no_json no_fence printed writable (text "it's") (text "a") none
      (some (text "/tmp"))

abbrev outputs : Dict NodeOutput
outputs = (text "a", completed (plain (text "it's"))) ∷ []

script_matches_prompt_example :
    Agrees no_json no_fence printed writable outputs
      (text "a")
      none
      (substitute_ref no_json no_fence printed writable outputs true (text "a") none none)
      (substitute_ref no_json no_fence printed writable outputs Bool.false (text "a") none none)
script_matches_prompt_example =
    script_matches_prompt no_json no_fence printed writable outputs (text "a") none
