-- ===== src/Examples/Isolation.antt =====
-- The isolation resolver on a concrete store and repository, crates/har-isolation/src/resolver.rs.
use harness_agent_rs.Prelude.{
  ◌≡◌, refl, Text, text, text_eq, Bool, true, false, Option, none, some, List, [], ◌∷◌, All,
  is_empty, ok, err, if◌then◌else◌,
}
use harness_agent_rs.Schema.Json.{end}
use harness_agent_rs.Isolation.{
  other, worktree, issue, active, IsolationHints, IsolationEnvironmentRow, WorktreeEnvironment,
  CodebaseSummary, ResolveRequest, stale_cleaned, workflow_reuse,
}
use harness_agent_rs.Isolation.Calls.{done, Outside}
use harness_agent_rs.Isolation.Reuse.{reused, decimal}
use harness_agent_rs.Isolation.Resolve.{resolve}
use harness_agent_rs.Isolation.Ensures.{Ensures}
use harness_agent_rs.Isolation.Contract.{Promise, Marks, Accounted}
use harness_agent_rs.Isolation.Kept.{resolve-Promise, explicit_only_reads, resolve-Accounted}
use harness_agent_rs.Isolation.Precedence.{IsReusable, workflow_first}

abbrev row : IsolationEnvironmentRow
row = record {
  id = text "env-1";
  codebase_id = text "cb";
  workflow_type = issue;
  workflow_id = text "42";
  provider = worktree;
  working_path = text "/wt/42";
  branch_name = text "issue-42";
  status = active;
  created_at = 0;
  created_by_platform = none;
  created_by_user_id = none;
  metadata = end;
}

abbrev made : WorktreeEnvironment
made = record {
  id = text "/wt/43";
  working_path = text "/wt/43";
  status = active;
  warnings = none;
  provider = text "worktree";
  branch_name = text "issue-43";
}

-- The store knows one row; its worktree is on disk as `here` says, and no new row can be written.
abbrev world : Bool → Outside
world here = record {
  get_by_id = λ l i. ok (if text_eq i (text "env-1") then some row else none);
  find_active_by_workflow = λ l c t w. ok (if text_eq w (text "42") then some row else none);
  create_row = λ l p. err (other (text "disk full"));
  update_status = λ l i s. ok done;
  worktree_exists = λ l p. ok here;
  verify_worktree_ownership = λ l p r. ok done;
  find_worktree_by_branch = λ l r b. ok none;
  is_ancestor_of = λ l p a. ok true;
  get_canonical_repo_path = λ l p. ok p;
  provision = λ l q. ok made;
  destroy = λ l p d. ok done;
  cleanup = none;
  to_lowercase = λ t. t;
}

abbrev codebase : CodebaseSummary
codebase = record { id = text "cb"; default_cwd = text "/repo"; name = text "repo" }

abbrev hints : Text → IsolationHints
hints w = record {
  workflow_type = some issue;
  workflow_id = some w;
  pr_branch = none;
  pr_sha = none;
  is_fork_pr = none;
  pr_fetch_failed = none;
  from_branch = none;
  base_branch = none;
  linked_issues = some (42 ∷ []);
  linked_prs = none;
  suggested_branch = none;
}

abbrev request : Option Text → Text → ResolveRequest
request id w = record {
  existing_env_id = id;
  codebase = some codebase;
  hints = some (hints w);
  platform_type = text "web";
  user_id = none;
  git_identity = none;
}

printed : decimal 1204 ≡ text "1204"
unfolding decimal
printed = refl

-- The worktree of the explicit row is gone: the row is marked.
stale :
    (resolve (world false) (request (some (text "env-1")) (text "42")) []).0
    ≡ ok (stale_cleaned (text "env-1"))
unfolding resolve text_eq
stale = refl

-- The row of a new worktree cannot be written: the worktree is removed.
removed :
    (resolve (world false) (request none (text "43")) []).0
    ≡ err (other (text "Failed to persist isolation environment record: disk full"))
unfolding resolve text_eq decimal
removed = refl

resolve-Promise_example :
    Ensures (resolve (world false) (request none (text "43"))) (Promise (request none (text "43")))
resolve-Promise_example = resolve-Promise (world false) (request none (text "43"))

explicit_only_reads_example :
    Ensures
      (resolve (world false) (request (some (text "env-1")) (text "42")))
      (λ r new. All (Marks (text "env-1")) new)
explicit_only_reads_example =
    explicit_only_reads (world false) (request (some (text "env-1")) (text "42")) (text "env-1")
      refl

resolve-Accounted_example :
    Ensures (resolve (world false) (request none (text "43"))) (λ r new. Accounted new)
resolve-Accounted_example = resolve-Accounted (world false) (request none (text "43"))

reusable : IsReusable (world true) (request none (text "42")) codebase (text "/repo") row []
unfolding IsReusable is_empty text_eq
reusable = (refl, refl, refl, refl, refl)

workflow_first_example :
    (ws : Option (List Text)) × ((resolve (world true) (request none (text "42")) []).0
      ≡ ok (reused row workflow_reuse ws))
unfolding is_empty
workflow_first_example =
    workflow_first (world true) (request none (text "42")) codebase (text "/repo") row [] refl refl
      refl refl reusable
