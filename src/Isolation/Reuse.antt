-- ===== src/Isolation/Reuse.antt =====
-- The stages of crates/har-isolation/src/resolver.rs that take an environment that is there: the
-- explicit one, that of the workflow, that of a linked issue.
use harness_agent_rs.Prelude.{
  ℕ, zero, suc, ◌+◌, ◌/◌, ◌%◌, ltb, ◌++◌, Text, Option, none, some, List, [], ◌∷◌, if◌then◌else◌,
  ok,
}
use harness_agent_rs.Isolation.{
  IsolationWorkflowType, issue, IsolationHints, IsolationEnvironmentRow, CodebaseSummary,
  ResolutionMethod, existing, workflow_reuse, linked_issue_reuse, IsolationResolution, resolved,
}
use harness_agent_rs.Isolation.Calls.{Run, give, ◌>>>◌, asked, Outside, fetched, searched}
use harness_agent_rs.Isolation.Checks.{
  on_disk, assert_worktree_ownership, base_branch_of, collect_base_branch_warnings,
  mark_destroyed_best_effort,
}

-- `if warnings.is_empty() { None } else { Some(warnings) }`.
abbrev pub some_warnings : List Text → Option (List Text)
some_warnings [] = none
some_warnings (w ∷ ws) = some (w ∷ ws)

-- The payload of a row that is used where it is.
unfoldable pub reused :
    IsolationEnvironmentRow → ResolutionMethod → Option (List Text) → IsolationResolution
reused row how ws =
    resolved (record { env = row; cwd = row.working_path; method = how; warnings = ws })

-- `u32::to_string`, which has at most ten digits.
unfoldable pub digits : ℕ → ℕ → Text
digits zero n = []
digits (suc fuel) n =
    let rest = digits fuel (n / 10) in
    if ltb n 10 then (0x30 + n) ∷ [] else rest ++ (0x30 + n % 10) ∷ []

unfoldable pub decimal : ℕ → Text
unfolding digits
decimal n = digits 10 n

-- A stage that gives nothing is followed by the next one.
abbrev pub or_next :
    Run (Option IsolationResolution)
    → Run (Option IsolationResolution)
    → Run (Option IsolationResolution)
or_next m k = m >>> λ r. elim r [ some found ↦ give (ok (some found)) | none ↦ k ]

module _ (o : Outside) where
  -- A stale row is marked, and the stage gives nothing.
  unfoldable pub give_up : Text → Run (Option IsolationResolution)
  unfolding mark_destroyed_best_effort
  give_up id = mark_destroyed_best_effort o id >>> λ d. give (ok none)

  unfoldable pub reuse_with_warnings :
      IsolationEnvironmentRow
      → ResolutionMethod
      → Option IsolationHints
      → Run (Option IsolationResolution)
  unfolding collect_base_branch_warnings reused
  reuse_with_warnings row how hints =
      collect_base_branch_warnings o row.branch_name row.working_path (base_branch_of o hints)
      >>> λ ws. give (ok (some (reused row how (some_warnings ws))))

  unfoldable pub check_row :
      Text → Option IsolationHints → IsolationEnvironmentRow → Run (Option IsolationResolution)
  unfolding on_disk reuse_with_warnings give_up
  check_row id hints row = on_disk o row.working_path >>> λ e.
      if e then reuse_with_warnings row existing hints else give_up id

  unfoldable pub check_existing : Text → Option IsolationHints → Run (Option IsolationResolution)
  unfolding check_row
  check_existing id hints = asked (λ l. o.get_by_id l id) (fetched id) >>> give >>> λ found.
      elim found [ none ↦ give (ok none) | some row ↦ check_row id hints row ]

  unfoldable pub find_active :
      Text → IsolationWorkflowType → Text → Run (Option IsolationEnvironmentRow)
  find_active c t w = asked (λ l. o.find_active_by_workflow l c t w) (searched c t w) >>> give

  unfoldable pub reuse_row :
      Text → Option IsolationHints → IsolationEnvironmentRow → Run (Option IsolationResolution)
  unfolding on_disk give_up assert_worktree_ownership reuse_with_warnings
  reuse_row repo hints row = on_disk o row.working_path >>> λ e.
      if e
      then (assert_worktree_ownership o repo row.working_path >>> λ d.
          reuse_with_warnings row workflow_reuse hints)
      else give_up row.id

  unfoldable pub find_reusable_environment :
      CodebaseSummary
      → Text
      → IsolationWorkflowType
      → Text
      → Option IsolationHints
      → Run (Option IsolationResolution)
  unfolding find_active reuse_row
  find_reusable_environment c repo t w hints = find_active c.id t w >>> λ found. elim found [
    | none ↦ give (ok none)
    | some row ↦ reuse_row repo hints row
  ]

  -- The row of one linked issue; `none` goes on with the next issue.
  unfoldable pub linked_row : Text → ℕ → IsolationEnvironmentRow → Run (Option IsolationResolution)
  unfolding on_disk give_up assert_worktree_ownership reused
  linked_row repo n row = on_disk o row.working_path >>> λ e.
      if e
      then (assert_worktree_ownership o repo row.working_path >>> λ d.
          give (ok (some (reused row (linked_issue_reuse n) none))))
      else give_up row.id

  unfoldable pub linked_issue : CodebaseSummary → Text → ℕ → Run (Option IsolationResolution)
  unfolding find_active linked_row decimal
  linked_issue c repo n = find_active c.id issue (decimal n) >>> λ found. elim found [
    | none ↦ give (ok none)
    | some row ↦ linked_row repo n row
  ]

  unfoldable pub linked_issues_in :
      CodebaseSummary → Text → List ℕ → Run (Option IsolationResolution)
  unfolding linked_issue
  linked_issues_in c repo [] = give (ok none)
  linked_issues_in c repo (n ∷ ns) = or_next (linked_issue c repo n) (linked_issues_in c repo ns)

  unfoldable pub find_linked_issue_environment :
      CodebaseSummary → Text → IsolationHints → Run (Option IsolationResolution)
  unfolding linked_issues_in
  find_linked_issue_environment c repo h = elim h.linked_issues [
    | none ↦ give (ok none)
    | some ns ↦ linked_issues_in c repo ns
  ]
