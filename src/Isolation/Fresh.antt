-- ===== src/Isolation/Fresh.antt =====
-- `create_new_environment` of crates/har-isolation/src/resolver.rs: cleanup, the provider, the row, and
-- the removal of a worktree whose row could not be written.
use harness_agent_rs.Prelude.{
  ℕ, Text, text, ◌++◌, Option, none, some, if◌then◌else◌, Result, ok, err,
}
use harness_agent_rs.Isolation.{
  IsolationError, other, to_string, IsolationWorkflowType, GitIdentity, IsolationRequest,
  WorktreeEnvironment, IsolationHints, IsolationEnvironmentRow, CodebaseSummary, created,
  IsolationResolution, resolved, blocked,
}
use harness_agent_rs.Isolation.Failures.{classify_isolation_error, is_known_isolation_error}
use harness_agent_rs.Isolation.Calls.{
  Run, give, ◌>>>◌, asked, Outside, recorded, provisioned, torn_down, cleaned,
}
use harness_agent_rs.Isolation.Create.{
  creation_params, build_isolation_request, request_base, orphan_options, positive,
}

module _ (o : Outside) where
  -- The number of environments that the cleanup removed.
  unfoldable pub make_room : Text → Run ℕ
  make_room c = elim o.cleanup [ none ↦ give (ok 0) | some f ↦ asked (λ l. f l c) (cleaned c) ]

  unfoldable pub creation_failed : IsolationError → Result IsolationError IsolationResolution
  unfolding is_known_isolation_error classify_isolation_error to_string
  creation_failed e =
      if is_known_isolation_error o.to_lowercase (to_string e) none
      then ok (
          blocked (text "creation_failed")
            (classify_isolation_error o.to_lowercase (to_string e) none))
      else err e

  -- A worktree without a row: it is removed, and the failure of the store is what is reported.
  unfoldable pub abandon : Text → WorktreeEnvironment → IsolationError → Run IsolationResolution
  unfolding orphan_options to_string
  abandon repo env e =
      asked (λ l. o.destroy l env.working_path (orphan_options env repo))
        (torn_down env.working_path (orphan_options env repo))
      >>> λ r.
          give
            (err (other (text "Failed to persist isolation environment record: " ++ to_string e)))

  -- With the row, or without it.
  unfoldable pub registered :
      Text
      → ℕ
      → WorktreeEnvironment
      → Result IsolationError IsolationEnvironmentRow
      → Run IsolationResolution
  unfolding abandon
  registered repo n env (err e) = abandon repo env e
  registered repo n env (ok row) = give (
      ok (
        resolved (record {
          env = row;
          cwd = env.working_path;
          method = created (positive n);
          warnings = env.warnings;
        })))

  unfoldable pub persist :
      CodebaseSummary
      → Text
      → IsolationWorkflowType
      → Text
      → Text
      → Option GitIdentity
      → ℕ
      → WorktreeEnvironment
      → Run IsolationResolution
  unfolding creation_params registered
  persist c repo t w platform i n env =
      asked (λ l. o.create_row l (creation_params c t w i platform env))
        (recorded (creation_params c t w i platform env))
      >>> λ r. registered repo n env r

  -- With the worktree, or without it.
  unfoldable pub provided :
      CodebaseSummary
      → Text
      → IsolationWorkflowType
      → Text
      → Text
      → Option GitIdentity
      → ℕ
      → Result IsolationError WorktreeEnvironment
      → Run IsolationResolution
  unfolding creation_failed persist
  provided c repo t w platform i n (err e) = give (creation_failed e)
  provided c repo t w platform i n (ok env) = persist c repo t w platform i n env

  unfoldable pub provide :
      CodebaseSummary
      → Text
      → IsolationWorkflowType
      → Text
      → Text
      → Option GitIdentity
      → ℕ
      → IsolationRequest
      → Run IsolationResolution
  unfolding provided
  provide c repo t w platform i n request =
      asked (λ l. o.provision l request) (provisioned request) >>> λ r.
      provided c repo t w platform i n r

  unfoldable pub create_new_environment :
      CodebaseSummary
      → Text
      → IsolationWorkflowType
      → Text
      → Option IsolationHints
      → Text
      → Option GitIdentity
      → Run IsolationResolution
  unfolding make_room request_base build_isolation_request provide
  create_new_environment c repo t w hints platform i = make_room c.id >>> λ n.
      give (build_isolation_request (request_base c repo i) t w hints) >>> λ request.
      provide c repo t w platform i n request
