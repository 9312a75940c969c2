-- ===== src/Isolation/Resolve.antt =====
-- `resolve` of crates/har-isolation/src/resolver.rs: the stages in their order, and the constructor of
-- the resolver. The child modules say what a resolution rests on.
use harness_agent_rs.Prelude.{
  ℕ, Text, text, ◌++◌, ◌==◌, ◌||◌, not, Option, none, some, [], is_empty, contains, if◌then◌else◌,
  Result, ok, err,
}
use harness_agent_rs.Isolation.{
  IsolationError, other, IsolationWorkflowType, thread, IsolationHints, CodebaseSummary,
  ResolveRequest, IsolationResolution, stale_cleaned, no_isolation, blocked,
}
use harness_agent_rs.Isolation.Calls.{Run, give, ◌>>>◌, asked, Outside, canonical_asked}
use harness_agent_rs.Isolation.Reuse.{
  check_existing, find_reusable_environment, find_linked_issue_environment, or_next,
}
use harness_agent_rs.Isolation.Create.{try_branch_adoption}
use harness_agent_rs.Isolation.Fresh.{create_new_environment}

-- `DEFAULT_STALE_THRESHOLD_DAYS`.
abbrev pub default_stale_threshold_days : ℕ
default_stale_threshold_days = 14

pub record IsolationResolver : Type 0 where
  pub outside : Outside
  pub stale_threshold_days : ℕ

abbrev or_default_days : Option ℕ → ℕ
or_default_days none = default_stale_threshold_days
or_default_days (some n) = n

-- `IsolationResolver::new`.
unfoldable pub new : Outside → Option ℕ → Result IsolationError IsolationResolver
new o days =
    if or_default_days days == 0
    then err (other (text "staleThresholdDays must be > 0"))
    else ok (record { outside = o; stale_threshold_days = or_default_days days })

abbrev pub workflow_type_of : Option IsolationHints → IsolationWorkflowType
workflow_type_of none = thread
workflow_type_of (some h) = elim h.workflow_type [ none ↦ thread | some t ↦ t ]

abbrev pub workflow_id_of : Option IsolationHints → Text
workflow_id_of none = []
workflow_id_of (some h) = elim h.workflow_id [ none ↦ [] | some w ↦ w ]

abbrev pub not_valid : CodebaseSummary → Text
not_valid c =
    text "**Error:** The workspace path `"
    ++ c.default_cwd
    ++ text "` is not a valid git repository. "
    ++ text "Please check the codebase configuration."

module _ (o : Outside) where
  unfoldable pub stage_existing : Text → Option IsolationHints → Run IsolationResolution
  unfolding check_existing
  stage_existing id hints = check_existing o id hints >>> λ r. elim r [
    | some found ↦ give (ok found)
    | none ↦ give (ok (stale_cleaned id))
  ]

  -- Stages 3 to 5. A stage without its hint gives nothing.
  unfoldable pub stage_workflow :
      ResolveRequest → CodebaseSummary → Text → Run (Option IsolationResolution)
  unfolding is_empty find_reusable_environment
  stage_workflow q c repo =
      if not (is_empty (workflow_id_of q.hints))
      then find_reusable_environment o c repo (workflow_type_of q.hints) (workflow_id_of q.hints)
          q.hints
      else give (ok none)

  unfoldable pub stage_linked :
      ResolveRequest → CodebaseSummary → Text → Run (Option IsolationResolution)
  unfolding find_linked_issue_environment
  stage_linked q c repo = elim q.hints [
    | none ↦ give (ok none)
    | some h ↦ find_linked_issue_environment o c repo h
  ]

  unfoldable pub stage_adoption :
      ResolveRequest → CodebaseSummary → Text → Run (Option IsolationResolution)
  unfolding try_branch_adoption
  stage_adoption q c repo = elim q.hints [
    | none ↦ give (ok none)
    | some h ↦
        try_branch_adoption o c repo h (workflow_type_of q.hints) (workflow_id_of q.hints)
          q.git_identity
  ]

  unfoldable pub stages : ResolveRequest → CodebaseSummary → Text → Run IsolationResolution
  unfolding stage_workflow stage_linked stage_adoption create_new_environment
  stages q c repo =
      or_next (stage_workflow q c repo) (or_next (stage_linked q c repo) (stage_adoption q c repo))
      >>> λ r. elim r [
        | some found ↦ give (ok found)
        | none ↦
            create_new_environment o c repo (workflow_type_of q.hints) (workflow_id_of q.hints)
              q.hints q.platform_type q.git_identity
      ]

  unfoldable pub not_a_repository :
      CodebaseSummary → Text → Result IsolationError IsolationResolution
  unfolding contains
  not_a_repository c e =
      if contains (o.to_lowercase e) (text "not a git repository")
        || contains (o.to_lowercase e) (text "no such file or directory")
      then ok (blocked (text "creation_failed") (not_valid c))
      else err (other e)

  unfoldable pub stage_codebase : ResolveRequest → CodebaseSummary → Run IsolationResolution
  unfolding stages not_a_repository
  stage_codebase q c =
      asked (λ l. o.get_canonical_repo_path l c.default_cwd) (canonical_asked c.default_cwd)
      >>> λ r. elim r [ err e ↦ give (not_a_repository c e) | ok repo ↦ stages q c repo ]

  unfoldable pub resolve : ResolveRequest → Run IsolationResolution
  unfolding stage_existing stage_codebase
  resolve q = elim q.existing_env_id [
    | some id ↦ stage_existing id q.hints
    | none ↦ elim q.codebase [
      | none ↦ give (ok (no_isolation (text "/workspace")))
      | some c ↦ stage_codebase q c
    ]
  ]
