-- ===== src/Dag/Retry.antt =====
-- The retries of an AI node, crates/har-dag-executor/src/dag_executor.rs:
-- `get_effective_node_retry_config` and the attempt loop of the node task. One attempt is the
-- parameter `execute`, a function of its number; what is slept between attempts is recorded. The
-- child modules bound them.
pub mod Delays
pub mod Bounds
use harness_agent_rs.Prelude.{
  ℕ, zero, suc, ◌+◌, ◌-◌, ◌*◌, ◌/◌, ◌%◌, ◌^◌, ◌==◌, min, Bool, true, false, not, ◌&&◌, ◌||◌, Option,
  none, some, List, [], ◌∷◌, Text, text, leb, if◌then◌else◌,
}
use harness_agent_rs.Schema.Json.{Json}
use harness_agent_rs.Schema.Node.{
  OnError, transient, all, StepRetryConfig, DagNode, DagNodeBase, base,
}
use harness_agent_rs.Errors.{ErrorType, fatal, unknown, classify_error}

abbrev pub default_node_max_retries : ℕ
default_node_max_retries = 2

abbrev pub default_node_retry_delay_ms : ℕ
default_node_retry_delay_ms = 3000

-- The effective configuration; the delay is in milliseconds.
pub record RetryConfig : Type 0 where
  pub max_retries : ℕ
  pub delay_ms : ℕ
  pub on_error : OnError

-- `v as u64` drops the fraction of a millisecond.
unfoldable pub delay_or_default : Option ℕ → ℕ
delay_or_default none = default_node_retry_delay_ms
delay_or_default (some us) = us / 1000

unfoldable pub on_error_or_default : Option OnError → OnError
on_error_or_default none = transient
on_error_or_default (some e) = e

unfoldable pub effective : Option StepRetryConfig → RetryConfig
unfolding delay_or_default on_error_or_default
effective none = record {
  max_retries = default_node_max_retries;
  delay_ms = default_node_retry_delay_ms;
  on_error = transient;
}
effective (some r) = record {
  max_retries = r.max_attempts;
  delay_ms = delay_or_default r.delay_us;
  on_error = on_error_or_default r.on_error;
}

unfoldable pub get_effective_node_retry_config : DagNode → RetryConfig
unfolding effective base
get_effective_node_retry_config node = effective (base node).retry

-- `NodeState` of the executor, and the result of one execution.
pub data ExecutionState : Type 0 where
  completed failed : ExecutionState

pub record NodeExecutionResult : Type 0 where
  pub state : ExecutionState
  pub output : Text
  pub structured_output : Option Json
  pub session_id : Option Text
  pub error : Option Text
  pub declared_fields : Option (List Text)

unfoldable pub is_failed : ExecutionState → Bool
is_failed failed = true
is_failed completed = false

abbrev is_fatal_type : ErrorType → Bool
is_fatal_type fatal = true
is_fatal_type _ = false

abbrev is_transient_type : ErrorType → Bool
is_transient_type ErrorType.transient = true
is_transient_type _ = false

abbrev u64_max : ℕ
u64_max = 2 ^ 64 - 1

-- `u64::saturating_mul`.
unfoldable pub saturating_mul : ℕ → ℕ → ℕ
saturating_mul a b = min (a * b) u64_max

-- `2u64.pow(attempt)` wraps, as in a release build; a debug build stops from attempt 64 on.
unfoldable pub delay_of : RetryConfig → ℕ → ℕ
unfolding saturating_mul
delay_of c attempt = saturating_mul c.delay_ms (2 ^ attempt % 2 ^ 64)

-- The result before the first attempt.
abbrev pub not_executed : NodeExecutionResult
not_executed = record {
  state = failed;
  output = [];
  structured_output = none;
  session_id = none;
  error = some (text "Node did not execute");
  declared_fields = none;
}

abbrev pub slept : ℕ → NodeExecutionResult × List ℕ → NodeExecutionResult × List ℕ
slept d p = (p.0, d ∷ p.1)

module _ (to_lowercase : Text → Text) where
  unfoldable pub is_transient_node_error : Text → Bool
  unfolding classify_error
  is_transient_node_error e = is_transient_type (classify_error to_lowercase e)

  unfoldable pub is_fatal : Option Text → Bool
  unfolding classify_error
  is_fatal none = false
  is_fatal (some e) = is_fatal_type (classify_error to_lowercase e)

  unfoldable pub is_transient : Option Text → Bool
  unfolding is_transient_node_error
  is_transient none = false
  is_transient (some e) = is_transient_node_error e

  unfoldable pub should_retry : OnError → Option Text → Bool
  unfolding is_fatal is_transient
  should_retry all e = not (is_fatal e)
  should_retry transient e = not (is_fatal e) && is_transient e

  -- The loop `for attempt in 0..=max_retries`, with `left` rounds left: the last result, and the
  -- delays that were slept.
  module _ (config : RetryConfig) (execute : ℕ → NodeExecutionResult) where
    unfoldable pub attempts : ℕ → ℕ → NodeExecutionResult → NodeExecutionResult × List ℕ
    unfolding should_retry delay_of is_failed
    attempts zero attempt last = (last, [])
    attempts (suc left) attempt last =
        let r = execute attempt in
        let next =
          slept (delay_of config attempt) (attempts left (attempt + 1) (execute attempt)) in
        if not (is_failed r.state)
        then (r, [])
        else if not (should_retry config.on_error r.error) || leb config.max_retries attempt
        then (r, [])
        else next

    unfoldable pub execute_with_retries : NodeExecutionResult × List ℕ
    unfolding attempts
    execute_with_retries = attempts (suc config.max_retries) 0 not_executed
