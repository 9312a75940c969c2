-- ===== src/Errors.antt =====
-- `classify_error` of crates/har-dag-executor/src/executor_shared.rs. `str::to_lowercase` is the
-- parameter `to_lowercase`: it maps case by tables of Unicode that are not in the repository.
use harness_agent_rs.Prelude.{Bool, List, [], ◌∷◌, Text, text, contains, any, if◌then◌else◌}

pub data ErrorType : Type 0 where
  fatal transient unknown : ErrorType

abbrev pub fatal_patterns : List Text
fatal_patterns =
    text "unauthorized"
    ∷ text "forbidden"
    ∷ text "invalid token"
    ∷ text "authentication failed"
    ∷ text "permission denied"
    ∷ text "401"
    ∷ text "403"
    ∷ text "credit balance"
    ∷ text "auth error"
    ∷ []

abbrev pub transient_patterns : List Text
transient_patterns =
    text "timeout"
    ∷ text "econnrefused"
    ∷ text "econnreset"
    ∷ text "etimedout"
    ∷ text "rate limit"
    ∷ text "too many requests"
    ∷ text "429"
    ∷ text "503"
    ∷ text "502"
    ∷ text "529"
    ∷ text "overloaded"
    ∷ text "network error"
    ∷ text "socket hang up"
    ∷ text "exited with code"
    ∷ text "claude code crash"
    ∷ []

unfoldable pub matches_pattern : Text → List Text → Bool
unfolding contains
matches_pattern message patterns = any (λ p. contains message p) patterns

module _ (to_lowercase : Text → Text) where
  unfoldable pub classify_error : Text → ErrorType
  unfolding matches_pattern
  classify_error message =
      if matches_pattern (to_lowercase message) fatal_patterns
      then fatal
      else if matches_pattern (to_lowercase message) transient_patterns
      then transient
      else unknown
