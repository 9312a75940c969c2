-- ===== src/Isolation/Create.antt =====
-- The stages of crates/har-isolation/src/resolver.rs that write a row: the adoption of the worktree of
-- a pull request's branch, and the creation of a worktree.
use harness_agent_rs.Prelude.{
  ℕ, Text, text, ltb, Bool, true, false, Option, none, some, is_empty, if◌then◌else◌, Result, ok,
  err,
}
use harness_agent_rs.Schema.Json.{Fields, end, field, bool, string}
use harness_agent_rs.Isolation.{
  IsolationError, other, worktree, IsolationWorkflowType, issue, pr, review, thread, task,
  GitIdentity, IsolationRequestBase, IsolationRequest, issue_request, review_request,
  thread_request, pr_request, task_request, WorktreeEnvironment, DestroyOptions, IsolationHints,
  IsolationEnvironmentRow, CreateEnvironmentParams, CodebaseSummary, branch_adoption,
  IsolationResolution, resolved,
}
use harness_agent_rs.Isolation.Calls.{Run, give, ◌>>>◌, asked, Outside, branch_searched, recorded}
use harness_agent_rs.Isolation.Checks.{
  to_repo_path, to_branch_name, as_other, as_git, on_disk, assert_worktree_ownership,
}

-- The identity's address, if it is not empty.
unfoldable pub user_of : Option GitIdentity → Option Text
unfolding is_empty
user_of none = none
user_of (some i) = if is_empty i.email then none else some i.email

-- `{ adopted: true, adopted_from: 'skill' }`.
abbrev pub adoption_metadata : Fields
adoption_metadata =
    field (text "adopted") (bool true) (field (text "adopted_from") (string (text "skill")) end)

unfoldable pub adoption_params :
    CodebaseSummary
    → IsolationWorkflowType
    → Text
    → Option GitIdentity
    → Text
    → Text
    → CreateEnvironmentParams
unfolding user_of
adoption_params c t w i path branch = record {
  codebase_id = c.id;
  workflow_type = t;
  workflow_id = w;
  provider = some worktree;
  working_path = path;
  branch_name = branch;
  created_by_platform = none;
  created_by_user_id = user_of i;
  metadata = some adoption_metadata;
}

unfoldable pub creation_params :
    CodebaseSummary
    → IsolationWorkflowType
    → Text
    → Option GitIdentity
    → Text
    → WorktreeEnvironment
    → CreateEnvironmentParams
unfolding user_of
creation_params c t w i platform e = record {
  codebase_id = c.id;
  workflow_type = t;
  workflow_id = w;
  provider = some worktree;
  working_path = e.working_path;
  branch_name = e.branch_name;
  created_by_platform = some platform;
  created_by_user_id = user_of i;
  metadata = none;
}

abbrev from_branch_of : Option IsolationHints → Option Text
from_branch_of none = none
from_branch_of (some h) = h.from_branch

abbrev or_no : Option Bool → Bool
or_no none = false
or_no (some b) = b

unfoldable pub pr_isolation_request :
    IsolationRequestBase
    → Text
    → IsolationHints
    → Option Text
    → Result IsolationError IsolationRequest
pr_isolation_request base w h none = err (other (text "PR isolation request missing prBranch hint"))
pr_isolation_request base w h (some branch) =
    ok (pr_request base w branch h.pr_sha (or_no h.is_fork_pr))

unfoldable pub build_isolation_request :
    IsolationRequestBase
    → IsolationWorkflowType
    → Text
    → Option IsolationHints
    → Result IsolationError IsolationRequest
unfolding pr_isolation_request
build_isolation_request base issue w hints = ok (issue_request base w)
build_isolation_request base review w hints = ok (review_request base w)
build_isolation_request base thread w hints = ok (thread_request base w)
build_isolation_request base task w hints = ok (task_request base w (from_branch_of hints))
build_isolation_request base pr w none =
    err (other (text "PR isolation request requires hints (prBranch, isForkPR)"))
build_isolation_request base pr w (some h) = pr_isolation_request base w h h.pr_branch

-- `if auto_cleaned_count > 0 { Some(auto_cleaned_count) } else { None }`.
abbrev pub positive : ℕ → Option ℕ
positive n = if ltb 0 n then some n else none

unfoldable pub request_base : CodebaseSummary → Text → Option GitIdentity → IsolationRequestBase
request_base c repo i = record {
  codebase_id = c.id;
  codebase_name = some c.name;
  canonical_repo_path = repo;
  description = none;
  git_identity = i;
}

unfoldable pub orphan_options : WorktreeEnvironment → Text → DestroyOptions
orphan_options e repo = record {
  force = some true;
  branch_name = some e.branch_name;
  canonical_repo_path = some repo;
  delete_remote_branch = none;
}

unfoldable pub adopted : Text → Text → IsolationEnvironmentRow → IsolationResolution
adopted branch path row =
    resolved (record { env = row; cwd = path; method = branch_adoption branch; warnings = none })

module _ (o : Outside) where
  unfoldable pub record_adoption :
      CodebaseSummary
      → IsolationWorkflowType
      → Text
      → Option GitIdentity
      → Text
      → Text
      → Run (Option IsolationResolution)
  unfolding adoption_params adopted
  record_adoption c t w i branch path =
      asked (λ l. o.create_row l (adoption_params c t w i path branch))
        (recorded (adoption_params c t w i path branch))
      >>> give
      >>> λ row. give (ok (some (adopted branch path row)))

  unfoldable pub adopt :
      CodebaseSummary
      → Text
      → IsolationWorkflowType
      → Text
      → Option GitIdentity
      → Text
      → Text
      → Run (Option IsolationResolution)
  unfolding on_disk assert_worktree_ownership record_adoption
  adopt c repo t w i branch path = on_disk o path >>> λ e.
      if e
      then (assert_worktree_ownership o repo path >>> λ d. record_adoption c t w i branch path)
      else give (ok none)

  unfoldable pub adopt_branch :
      CodebaseSummary
      → Text
      → IsolationWorkflowType
      → Text
      → Option GitIdentity
      → Text
      → Run (Option IsolationResolution)
  unfolding to_repo_path to_branch_name adopt
  adopt_branch c repo t w i branch = give (as_other (to_repo_path repo)) >>> λ r.
      give (as_other (to_branch_name branch)) >>> λ b.
      asked (λ l. o.find_worktree_by_branch l r b) (branch_searched r b) >>> λ a.
      give (as_git a) >>> λ found. elim found [
        | none ↦ give (ok none)
        | some path ↦ adopt c repo t w i branch path
      ]

  unfoldable pub try_branch_adoption :
      CodebaseSummary
      → Text
      → IsolationHints
      → IsolationWorkflowType
      → Text
      → Option GitIdentity
      → Run (Option IsolationResolution)
  unfolding adopt_branch
  try_branch_adoption c repo h t w i = elim h.pr_branch [
    | none ↦ give (ok none)
    | some branch ↦ adopt_branch c repo t w i branch
  ]
