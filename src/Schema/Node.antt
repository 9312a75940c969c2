-- ===== src/Schema/Node.antt =====
-- `TriggerRule`, `StepRetryConfig`, `DagNodeBase` and `DagNode`: crates/har-workflow-schema/src/
-- dag_node.rs and retry_schema.rs. Of `DagNodeBase` the record keeps the fields that scheduling,
-- gating, retries and sessions read; the provider options (hooks, sandbox, agents, budgets and the
-- like) and the timeouts are passed to code that is not modelled, and are left out.
use harness_agent_rs.Prelude.{
  ℕ, ◌≤◌, ◌≡◌, ◌↔◌, Bool, true, false, not, ◌&&◌, ◌||◌, Option, none, some, List, [], ◌∷◌, ◌++◌,
  arith, Text, text, text_eq, is_empty, starts_with, contains, ltb, leb, if◌then◌else◌,
}

pub data TriggerRule : Type 0 where
  all_success one_success none_failed_min_one_success all_done : TriggerRule

unfoldable pub is_trigger_rule : Text → Bool
is_trigger_rule value =
    text_eq value (text "all_success")
    || text_eq value (text "one_success")
    || text_eq value (text "none_failed_min_one_success")
    || text_eq value (text "all_done")

pub data OnError : Type 0 where
  transient all : OnError

-- `delay_us` is the source's `delay_ms`, a float of milliseconds, in whole microseconds.
pub record StepRetryConfig : Type 0 where
  pub max_attempts : ℕ
  pub delay_us : Option ℕ
  pub on_error : Option OnError

pub data StepRetryValidationError : Type 0 where
  max_attempts_out_of_range delay_ms_out_of_range : StepRetryValidationError

-- The bounds test of a delay that is given.
unfoldable pub delay_error : Option ℕ → List StepRetryValidationError
delay_error none = []
delay_error (some d) = if leb 1000000 d && leb d 60000000 then [] else delay_ms_out_of_range ∷ []

-- `StepRetryConfig::validate`: all the errors, in order.
unfoldable pub validate : StepRetryConfig → List StepRetryValidationError
unfolding delay_error
validate c =
    (if ltb c.max_attempts 1 || ltb 5 c.max_attempts then max_attempts_out_of_range ∷ [] else [])
    ++ delay_error c.delay_us

pub data ContextMode : Type 0 where
  fresh shared : ContextMode

pub record DagNodeBase : Type 0 where
  pub id : Text
  pub depends_on : List Text
  pub when : Option Text
  pub trigger_rule : Option TriggerRule
  pub model : Option Text
  pub provider : Option Text
  pub context : Option ContextMode
  pub retry : Option StepRetryConfig
  pub always_run : Option Bool
  pub persist_session : Option Bool
  pub output_type : Option Text

pub data ScriptRuntime : Type 0 where
  bun uv : ScriptRuntime

pub record ApprovalOnReject : Type 0 where
  pub prompt : Text
  pub max_attempts : Option ℕ

pub record ApprovalConfig : Type 0 where
  pub message : Text
  pub capture_response : Option Bool
  pub on_reject : Option ApprovalOnReject

pub data DagNode : Type 0 where
  command : DagNodeBase → Text → DagNode
  prompt : DagNodeBase → Text → DagNode
  bash : DagNodeBase → Text → DagNode
  script : DagNodeBase → Text → ScriptRuntime → DagNode
  loop : DagNodeBase → DagNode
  approval : DagNodeBase → ApprovalConfig → DagNode
  cancel : DagNodeBase → Text → DagNode

unfoldable pub base : DagNode → DagNodeBase
base (command b _) = b
base (prompt b _) = b
base (bash b _) = b
base (script b _ _) = b
base (loop b) = b
base (approval b _) = b
base (cancel b _) = b

unfoldable pub id : DagNode → Text
unfolding base
id n = (base n).id

unfoldable pub depends_on : DagNode → List Text
unfolding base
depends_on n = (base n).depends_on

unfoldable pub is_bash_node : DagNode → Bool
is_bash_node (bash _ _) = true
is_bash_node _ = false

unfoldable pub is_loop_node : DagNode → Bool
is_loop_node (loop _) = true
is_loop_node _ = false

unfoldable pub is_approval_node : DagNode → Bool
is_approval_node (approval _ _) = true
is_approval_node _ = false

unfoldable pub is_cancel_node : DagNode → Bool
is_cancel_node (cancel _ _) = true
is_cancel_node _ = false

unfoldable pub is_script_node : DagNode → Bool
is_script_node (script _ _ _) = true
is_script_node _ = false

unfoldable pub is_persistable_node : DagNode → Bool
unfolding is_bash_node is_loop_node is_approval_node is_cancel_node is_script_node
is_persistable_node n =
    not (is_loop_node n)
    && not (is_approval_node n)
    && not (is_cancel_node n)
    && not (is_script_node n)
    && not (is_bash_node n)

unfoldable pub is_valid_command_name : Text → Bool
is_valid_command_name name =
    if is_empty name || starts_with name (text ".")
    then false
    else if contains name (text "/") || contains name (text "\\") || contains name (text "..")
    then false
    else true

-- A configuration is accepted exactly if it allows 1 to 5 attempts and its delay, if it has one, is
-- from 1 to 60 seconds.
pub validate_iff :
    (m d : ℕ) (e : Option OnError)
    → (validate (record { max_attempts = m; delay_us = some d; on_error = e }) ≡ [])
      ↔ ((1 ≤ m) × (m ≤ 5) × (1000000 ≤ d) × (d ≤ 60000000))
unfolding validate
validate_iff m d e = (λ h. ground arith, λ h. ground arith)
