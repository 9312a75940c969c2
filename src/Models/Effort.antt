-- ===== src/Models/Effort.antt =====
-- `route_preset_effort` of crates/har-dag-executor/src/model_validation.rs.
use harness_agent_rs.Prelude.{
  Text, text, text_eq, ◌&&◌, Option, none, some, List, [], ◌∷◌, any, if◌then◌else◌,
}

abbrev pub claude_efforts : List Text
claude_efforts = text "low" ∷ text "medium" ∷ text "high" ∷ text "max" ∷ []

abbrev pub codex_reasoning_efforts : List Text
codex_reasoning_efforts =
    text "minimal" ∷ text "low" ∷ text "medium" ∷ text "high" ∷ text "xhigh" ∷ []

pub data EffortField : Type 0 where
  effort model_reasoning_effort : EffortField

pub record EffortRouting : Type 0 where
  pub field : EffortField
  pub value : Text

unfoldable pub route_preset_effort : Text → Text → Option EffortRouting
route_preset_effort p e =
    if text_eq p (text "claude") && any (λ v. text_eq v e) claude_efforts
    then some (record { field = effort; value = e })
    else if text_eq p (text "codex") && any (λ v. text_eq v e) codex_reasoning_efforts
    then some (record { field = model_reasoning_effort; value = e })
    else none
