-- ===== src/Isolation/Failures.antt =====
-- `classify_isolation_error` and `is_known_isolation_error` of crates/har-isolation/src/errors.rs.
-- `str::to_lowercase`, a table of Unicode, is the parameter `to_lowercase`.
use harness_agent_rs.Prelude.{
  Text, text, ◌++◌, Bool, true, false, ◌&&◌, Option, none, some, List, [], ◌∷◌, any, contains,
  if◌then◌else◌,
}

pub record ErrorPattern : Type 0 where
  pub pattern : Text
  pub message : Text
  pub known : Bool

abbrev known_pattern : Text → Text → ErrorPattern
known_pattern p m = record { pattern = p; message = m; known = true }

abbrev user_pattern : Text → Text → ErrorPattern
user_pattern p m = record { pattern = p; message = m; known = false }

-- `ERROR_PATTERNS`.
abbrev pub error_patterns : List ErrorPattern
error_patterns =
    known_pattern (text "permission denied") (
      text "**Error:** Permission denied while creating workspace. Check file "
      ++ text "system permissions.")
    ∷ known_pattern (text "eacces") (
        text "**Error:** Permission denied while creating workspace. Check file "
        ++ text "system permissions.")
    ∷ known_pattern (text "timeout") (
        text "**Error:** Timed out creating workspace. Git repository may be slow "
        ++ text "or unavailable.")
    ∷ known_pattern (text "no space left")
        (text "**Error:** No disk space available for new workspace.")
    ∷ known_pattern (text "enospc") (text "**Error:** No disk space available for new workspace.")
    ∷ known_pattern (text "not a git repository")
        (text "**Error:** Target path is not a valid git repository.")
    ∷ user_pattern (text "cannot extract owner/repo") (
        text "**Error:** Repository path is too short to extract owner and repo "
        ++ text "name. Re-register the codebase with a full path (e.g. "
        ++ text "`/home/user/owner/repo`).")
    ∷ known_pattern (text "branch not found") (
        text "**Error:** Branch not found. The requested branch may have been "
        ++ text "deleted or not yet pushed.")
    ∷ known_pattern (text "no base branch configured") (
        text "**Error:** No base branch configured. Set `worktree.baseBranch` in "
        ++ text "`.archon/config.yaml` or use the `--from` flag to select a branch "
        ++ text "(e.g., `--from dev`).")
    ∷ known_pattern (text "belongs to a different clone") (
        text "**Error:** A worktree at the target path was created by a different "
        ++ text "local clone. Remove it from that clone, or register this codebase "
        ++ text "from the same local path.")
    ∷ known_pattern (text "cannot verify worktree ownership") (
        text "**Error:** Cannot verify ownership of an existing worktree at the "
        ++ text "target path. Check file system permissions and remove any unrelated "
        ++ text "git directories at that path.")
    ∷ known_pattern (text "cannot adopt") (
        text "**Error:** Refused to adopt an existing directory at the worktree "
        ++ text "path. Remove it or choose a different branch/codebase registration.")
    ∷ known_pattern (text "submodule initialization failed") (
        text "**Error:** Submodule initialization failed. Check credentials and "
        ++ text "network access to submodule remotes, or set `worktree.initSubmodules: "
        ++ text "false` in `.archon/config.yaml` to opt out if submodules are not "
        ++ text "needed for your workflows.")
    ∷ []

abbrev or_blank : Option Text → Text
or_blank none = []
or_blank (some t) = t

unfoldable pub first_message : List ErrorPattern → Text → Option Text
unfolding contains
first_message [] t = none
first_message (p ∷ ps) t = if contains t p.pattern then some p.message else first_message ps t

module _ (to_lowercase : Text → Text) where
  -- `format!("{} {}", message, stderr.unwrap_or("")).to_lowercase()`.
  unfoldable pub combined : Text → Option Text → Text
  combined m e = to_lowercase (m ++ text " " ++ or_blank e)

  unfoldable pub classify_isolation_error : Text → Option Text → Text
  unfolding combined first_message
  classify_isolation_error m e = elim (first_message error_patterns (combined m e)) [
    | some t ↦ t
    | none ↦ text "**Error:** Could not create isolated workspace (" ++ m ++ text ")."
  ]

  unfoldable pub is_known_isolation_error : Text → Option Text → Bool
  unfolding combined contains
  is_known_isolation_error m e =
      any (λ p. p.known && contains (combined m e) p.pattern) error_patterns
