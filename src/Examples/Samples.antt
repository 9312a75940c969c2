-- ===== src/Examples/Samples.antt =====
-- Values for the tests: runs, outputs, nodes, and simple stand-ins for what comes from other libraries.
use harness_agent_rs.Prelude.{
  ℕ, Bool, true, false, Option, none, some, List, [], ◌∷◌, Text, text, text_eq, if◌then◌else◌,
}
use harness_agent_rs.Schema.Json.{Json, Fields, end, field, string}
use harness_agent_rs.Schema.Run.{WorkflowRunStatus}
use harness_agent_rs.Schema.Node.{DagNode, prompt}
use harness_agent_rs.Condition.Number.{Floats}
use harness_agent_rs.Condition.Atom.{Captures}
use harness_agent_rs.Condition.Total.{Readers}
use harness_agent_rs.RunStore.Table.{Run}

abbrev pub run_at : Text → WorkflowRunStatus → ℕ → Option ℕ → Run
run_at k s started finished = record {
  id = k;
  workflow_name = text "build";
  conversation_id = text "c1";
  parent_conversation_id = none;
  codebase_id = none;
  status = s;
  user_message = text "go";
  metadata = end;
  started_at = started;
  completed_at = finished;
  last_activity_at = none;
  working_path = some (text "/w");
  user_id = none;
}

abbrev pub done : Run
done = run_at (text "done") WorkflowRunStatus.completed 10 (some 20)

abbrev pub active : Run
active = run_at (text "active") WorkflowRunStatus.running 30 none

abbrev pub held : Run
held = run_at (text "held") WorkflowRunStatus.paused 40 none

abbrev pub node_with : Text → List Text → Option Text → DagNode
node_with k deps w =
    prompt
      (record {
        id = k;
        depends_on = deps;
        when = w;
        trigger_rule = none;
        model = none;
        provider = none;
        context = none;
        retry = none;
        always_run = none;
        persist_session = none;
        output_type = none;
      })
      (text "do it")

abbrev pub first_node : DagNode
first_node = node_with (text "a") [] none

abbrev pub second_node : DagNode
second_node = node_with (text "b") (text "a" ∷ []) none

abbrev pub third_node : DagNode
third_node = node_with (text "c") [] (some (text "odd"))

-- Booleans in place of floats; the text `1` is the one number.
abbrev pub toy_floats : Floats
toy_floats = record {
  F64 = Bool;
  nan = false;
  infinity = false;
  neg_infinity = false;
  parse = λ t. if text_eq t (text "1") then some true else none;
  is_finite = λ b. b;
  lt = λ a b. false;
  le = λ a b. true;
}

-- The only atom that is understood reads the field `k` of the node `a`.
abbrev pub toy_captures : Text → Option Captures
toy_captures t =
    if text_eq t (text "odd")
    then some (record {
      node_id = some (text "a");
      segment1 = some (text "k");
      segment2 = none;
      operator = some (text "==");
      quoted_value = some (text "x");
      unquoted_value = none;
    })
    else none

abbrev pub toy_from_str : Text → Option Json
toy_from_str t =
    if text_eq t (text "{k:x}")
    then some (Json.object (field (text "k") (string (text "x")) end))
    else none

abbrev pub toy_fence : Text → Option (Option Text)
toy_fence t = none

abbrev pub toy_readers : Readers
toy_readers = record {
  from_str = toy_from_str;
  json_text = λ v. [];
  fence = toy_fence;
  captures = toy_captures;
  floats = toy_floats;
}

abbrev pub keep_first : Fields → Fields → Fields
keep_first a b = a
