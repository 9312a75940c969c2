-- ===== src/Isolation/Checks.antt =====
-- The helpers of crates/har-isolation/src/resolver.rs, on one path or row: is the worktree on disk, is
-- it this clone's, is its branch based on the hinted one, and the mark on a stale row; with the
-- constructors of paths and branches of crates/har-git/src/types.rs.
use harness_agent_rs.Prelude.{
  Text, text, ◌++◌, Bool, true, false, Option, none, some, List, [], ◌∷◌, is_empty, if◌then◌else◌,
  Result, ok, err,
}
use harness_agent_rs.Isolation.{IsolationError, other, git, IsolationHints}
use harness_agent_rs.Isolation.Calls.{
  Done, done, Run, give, ◌>>>◌, asked, Outside, looked, verified, ancestor_asked, status_set,
}

-- The text of `GitError::EmptyPath`.
unfoldable pub to_repo_path : Text → Result Text Text
unfolding is_empty
to_repo_path s = if is_empty s then err (text "RepoPath cannot be empty") else ok s

unfoldable pub to_branch_name : Text → Result Text Text
unfolding is_empty
to_branch_name s = if is_empty s then err (text "BranchName cannot be empty") else ok s

unfoldable pub to_worktree_path : Text → Result Text Text
unfolding is_empty
to_worktree_path s = if is_empty s then err (text "WorktreePath cannot be empty") else ok s

-- `map_err(|e| IsolationError::Other(e.to_string()))`, and the conversion that `?` makes.
abbrev pub as_other : {A : Type 0} → Result Text A → Result IsolationError A
as_other (ok a) = ok a
as_other (err t) = err (other t)

abbrev pub as_git : {A : Type 0} → Result Text A → Result IsolationError A
as_git (ok a) = ok a
as_git (err t) = err (git t)

-- `unwrap_or(false)`.
abbrev pub or_false : Result Text Bool → Bool
or_false (ok b) = b
or_false (err t) = false

module _ (o : Outside) where
  -- `worktree_exists(&to_worktree_path(path)?).await.unwrap_or(false)`.
  unfoldable pub on_disk : Text → Run Bool
  unfolding to_worktree_path
  on_disk path = give (as_other (to_worktree_path path)) >>> λ p.
      asked (λ l. o.worktree_exists l p) (looked p) >>> λ r. give (ok (or_false r))

  unfoldable pub assert_worktree_ownership : Text → Text → Run Done
  unfolding to_repo_path to_worktree_path
  assert_worktree_ownership repo path = give (as_other (to_repo_path repo)) >>> λ r.
      give (as_other (to_worktree_path path)) >>> λ p.
      asked (λ l. o.verify_worktree_ownership l p r) (verified p r) >>> λ a. give (as_other a)

  unfoldable pub not_based : Text → Text → List Text
  not_based branch base =
      (text "Worktree branch '"
        ++ branch
        ++ text "' is not based on '"
        ++ base
        ++ text "'. Recreate with: archon complete "
        ++ branch
        ++ text " --force")
      ∷ []

  abbrev warnings_of : Text → Text → Result Text Bool → List Text
  warnings_of branch base (ok true) = []
  warnings_of branch base (ok false) = not_based branch base
  warnings_of branch base (err e) = []

  -- `hints.and_then(|h| h.base_branch)`.
  abbrev pub base_branch_of : Option IsolationHints → Option Text
  base_branch_of none = none
  base_branch_of (some h) = h.base_branch

  unfoldable pub collect_base_branch_warnings : Text → Text → Option Text → Run (List Text)
  unfolding not_based
  collect_base_branch_warnings branch path none = give (ok [])
  collect_base_branch_warnings branch path (some base) =
      asked (λ l. o.is_ancestor_of l path (text "origin/" ++ base))
        (ancestor_asked path (text "origin/" ++ base))
      >>> λ r. give (ok (warnings_of branch base r))

  -- A failure to set the status is ignored.
  unfoldable pub mark_destroyed_best_effort : Text → Run Done
  mark_destroyed_best_effort id =
      asked (λ l. o.update_status l id (text "destroyed")) (status_set id (text "destroyed"))
      >>> λ r. give (ok done)
