-- ===== src/Schema/Run.antt =====
-- `WorkflowRunStatus`, its terminal and resumable lists, and `WorkflowRun`:
-- crates/har-workflow-schema/src/workflow_run.rs. A timestamp is a number, later times larger;
-- run metadata are a type that the store is generic over.
use harness_agent_rs.Prelude.{ℕ, Bool, true, false, Option, List, [], ◌∷◌, Text, any}

pub data WorkflowRunStatus : Type 0 where
  pending running completed failed cancelled paused : WorkflowRunStatus

pub WorkflowRunStatus-discrete : Discrete WorkflowRunStatus
WorkflowRunStatus-discrete = hlevel

-- The derived `PartialEq`.
unfoldable pub status_eq : WorkflowRunStatus → WorkflowRunStatus → Bool
status_eq WorkflowRunStatus.pending WorkflowRunStatus.pending = true
status_eq WorkflowRunStatus.running WorkflowRunStatus.running = true
status_eq WorkflowRunStatus.completed WorkflowRunStatus.completed = true
status_eq WorkflowRunStatus.failed WorkflowRunStatus.failed = true
status_eq WorkflowRunStatus.cancelled WorkflowRunStatus.cancelled = true
status_eq WorkflowRunStatus.paused WorkflowRunStatus.paused = true
status_eq _ _ = false

abbrev pub terminal_workflow_statuses : List WorkflowRunStatus
terminal_workflow_statuses =
    WorkflowRunStatus.completed ∷ WorkflowRunStatus.failed ∷ WorkflowRunStatus.cancelled ∷ []

abbrev pub resumable_workflow_statuses : List WorkflowRunStatus
resumable_workflow_statuses = WorkflowRunStatus.failed ∷ WorkflowRunStatus.paused ∷ []

-- `slice::contains`, SQL's `IN`.
unfoldable pub is_one_of : WorkflowRunStatus → List WorkflowRunStatus → Bool
unfolding status_eq
is_one_of s l = any (status_eq s) l

pub record WorkflowRun (M : Type 0) : Type 0 where
  pub id : Text
  pub workflow_name : Text
  pub conversation_id : Text
  pub parent_conversation_id : Option Text
  pub codebase_id : Option Text
  pub status : WorkflowRunStatus
  pub user_message : Text
  pub metadata : M
  pub started_at : ℕ
  pub completed_at : Option ℕ
  pub last_activity_at : Option ℕ
  pub working_path : Option Text
  pub user_id : Option Text
