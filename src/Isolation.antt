-- ===== src/Isolation.antt =====
-- The isolation of a run in a git worktree, crates/har-isolation/src: the types of types.rs and the
-- error of lib.rs. The child modules classify errors, give the calls to the store, to git and to the
-- provider, and resolve a request. A date is a number; an error of git is the text that it prints.
pub mod Failures
pub mod Copy
pub mod Calls
pub mod Checks
pub mod Reuse
pub mod Create
pub mod Fresh
pub mod Resolve
pub mod Precedence
pub mod Kept
pub mod Explicit
pub mod Promise
pub mod Provision
pub mod Writes
pub mod Searches
pub mod Stages
pub mod Contract
pub mod Ensures
use harness_agent_rs.Prelude.{ℕ, Text, text, ◌++◌, Bool, Option, List}
use harness_agent_rs.Schema.Json.{Fields}

pub data IsolationError : Type 0 where
  blocked_by git io json invalid_status other : Text → IsolationError

-- `Display` of the error.
unfoldable pub to_string : IsolationError → Text
to_string (blocked_by m) = text "Isolation blocked: " ++ m
to_string (git m) = text "Git error: " ++ m
to_string (io m) = text "IO error: " ++ m
to_string (json m) = text "JSON error: " ++ m
to_string (invalid_status m) = text "Invalid status value: " ++ m
to_string (other m) = m

pub data IsolationProviderType : Type 0 where
  worktree container vm remote : IsolationProviderType

pub data IsolationWorkflowType : Type 0 where
  issue pr review thread task : IsolationWorkflowType

pub data EnvironmentStatus : Type 0 where
  active destroyed : EnvironmentStatus

pub record GitIdentity : Type 0 where
  pub email : Text
  pub name : Option Text

pub record IsolationRequestBase : Type 0 where
  pub codebase_id : Text
  pub codebase_name : Option Text
  pub canonical_repo_path : Text
  pub description : Option Text
  pub git_identity : Option GitIdentity

pub data IsolationRequest : Type 0 where
  issue_request review_request thread_request : IsolationRequestBase → Text → IsolationRequest
  pr_request : IsolationRequestBase → Text → Text → Option Text → Bool → IsolationRequest
  task_request : IsolationRequestBase → Text → Option Text → IsolationRequest

-- What a provider gives; its metadata and creation date are not read by the resolver.
pub record WorktreeEnvironment : Type 0 where
  pub id : Text
  pub working_path : Text
  pub status : EnvironmentStatus
  pub warnings : Option (List Text)
  pub provider : Text
  pub branch_name : Text

pub record DestroyOptions : Type 0 where
  pub force : Option Bool
  pub branch_name : Option Text
  pub canonical_repo_path : Option Text
  pub delete_remote_branch : Option Bool

pub record IsolationHints : Type 0 where
  pub workflow_type : Option IsolationWorkflowType
  pub workflow_id : Option Text
  pub pr_branch : Option Text
  pub pr_sha : Option Text
  pub is_fork_pr : Option Bool
  pub pr_fetch_failed : Option Bool
  pub from_branch : Option Text
  pub base_branch : Option Text
  pub linked_issues : Option (List ℕ)
  pub linked_prs : Option (List ℕ)
  pub suggested_branch : Option Text

pub record IsolationEnvironmentRow : Type 0 where
  pub id : Text
  pub codebase_id : Text
  pub workflow_type : IsolationWorkflowType
  pub workflow_id : Text
  pub provider : IsolationProviderType
  pub working_path : Text
  pub branch_name : Text
  pub status : EnvironmentStatus
  pub created_at : ℕ
  pub created_by_platform : Option Text
  pub created_by_user_id : Option Text
  pub metadata : Fields

pub record CreateEnvironmentParams : Type 0 where
  pub codebase_id : Text
  pub workflow_type : IsolationWorkflowType
  pub workflow_id : Text
  pub provider : Option IsolationProviderType
  pub working_path : Text
  pub branch_name : Text
  pub created_by_platform : Option Text
  pub created_by_user_id : Option Text
  pub metadata : Option Fields

pub record CodebaseSummary : Type 0 where
  pub id : Text
  pub default_cwd : Text
  pub name : Text

pub record ResolveRequest : Type 0 where
  pub existing_env_id : Option Text
  pub codebase : Option CodebaseSummary
  pub hints : Option IsolationHints
  pub platform_type : Text
  pub user_id : Option Text
  pub git_identity : Option GitIdentity

pub data ResolutionMethod : Type 0 where
  existing workflow_reuse : ResolutionMethod
  linked_issue_reuse : ℕ → ResolutionMethod
  branch_adoption : Text → ResolutionMethod
  created : Option ℕ → ResolutionMethod

pub record ResolvedPayload : Type 0 where
  pub env : IsolationEnvironmentRow
  pub cwd : Text
  pub method : ResolutionMethod
  pub warnings : Option (List Text)

-- `IsolationResolution`; its variant `None` is `no_isolation`.
pub data IsolationResolution : Type 0 where
  resolved : ResolvedPayload → IsolationResolution
  stale_cleaned : Text → IsolationResolution
  no_isolation : Text → IsolationResolution
  blocked : Text → Text → IsolationResolution
