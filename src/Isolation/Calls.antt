-- ===== src/Isolation/Calls.antt =====
-- What the resolver of crates/har-isolation/src/resolver.rs calls: the store of store.rs, the provider
-- of types.rs and the functions of crates/har-git/src, each an operation whose answer may depend on
-- all the calls before it. A run carries the log of the calls with their answers, newest first. A
-- function of git that fails gives the text of its error.
use harness_agent_rs.Prelude.{ℕ, Text, Bool, Option, List, ◌∷◌, Result, ok, err}
use harness_agent_rs.Isolation.{
  IsolationError, IsolationWorkflowType, IsolationRequest, WorktreeEnvironment, DestroyOptions,
  IsolationEnvironmentRow, CreateEnvironmentParams,
}

pub data Done : Type 0 where
  done : Done

pub data Event : Type 0 where
  fetched : Text → Result IsolationError (Option IsolationEnvironmentRow) → Event
  searched :
      Text
      → IsolationWorkflowType
      → Text
      → Result IsolationError (Option IsolationEnvironmentRow)
      → Event
  recorded : CreateEnvironmentParams → Result IsolationError IsolationEnvironmentRow → Event
  status_set : Text → Text → Result IsolationError Done → Event
  looked : Text → Result Text Bool → Event
  verified : Text → Text → Result Text Done → Event
  branch_searched : Text → Text → Result Text (Option Text) → Event
  ancestor_asked : Text → Text → Result Text Bool → Event
  canonical_asked : Text → Result Text Text → Event
  provisioned : IsolationRequest → Result IsolationError WorktreeEnvironment → Event
  torn_down : Text → DestroyOptions → Result IsolationError Done → Event
  cleaned : Text → ℕ → Event

abbrev pub Log : Type 0
Log = List Event

-- `IsolationStore`, `IsolationProvider`, the functions of har_git, and `CleanupFn`, which is optional.
pub record Outside : Type 0 where
  pub get_by_id : Log → Text → Result IsolationError (Option IsolationEnvironmentRow)
  pub find_active_by_workflow :
      Log
      → Text
      → IsolationWorkflowType
      → Text
      → Result IsolationError (Option IsolationEnvironmentRow)
  pub create_row : Log → CreateEnvironmentParams → Result IsolationError IsolationEnvironmentRow
  pub update_status : Log → Text → Text → Result IsolationError Done
  pub worktree_exists : Log → Text → Result Text Bool
  pub verify_worktree_ownership : Log → Text → Text → Result Text Done
  pub find_worktree_by_branch : Log → Text → Text → Result Text (Option Text)
  pub is_ancestor_of : Log → Text → Text → Result Text Bool
  pub get_canonical_repo_path : Log → Text → Result Text Text
  pub provision : Log → IsolationRequest → Result IsolationError WorktreeEnvironment
  pub destroy : Log → Text → DestroyOptions → Result IsolationError Done
  pub cleanup : Option (Log → Text → ℕ)
  pub to_lowercase : Text → Text

-- A computation that may fail and adds to the log.
abbrev pub Run : Type 0 → Type 0
Run A = Log → Result IsolationError A × Log

abbrev pub give : {A : Type 0} → Result IsolationError A → Run A
give r l = (r, l)

-- The `?` of a computation that logs.
abbrev pub continue :
    {A B : Type 0} → Result IsolationError A × Log → (A → Run B) → Result IsolationError B × Log
continue (ok a, l) f = f a l
continue (err e, l) f = (err e, l)

infixl 5 ◌>>>◌
abbrev pub ◌>>>◌ : {A B : Type 0} → Run A → (A → Run B) → Run B
(m >>> f) l = continue (m l) f

-- A call is logged with its answer, which is what the run goes on with.
abbrev pub asked : {A : Type 0} → (Log → A) → (A → Event) → Run A
asked f e l = (ok (f l), e (f l) ∷ l)
