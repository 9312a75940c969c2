-- ===== src/Models.antt =====
-- Model references, crates/har-dag-executor/src/model_validation.rs: tiers, presets, the profile that
-- is built from the layers of the configuration, and the errors. A map of the configuration is the
-- list of its entries in the order in which it is iterated. The child modules build the profile,
-- resolve a reference against it, and route a preset's effort.
pub mod Order
pub mod Build
pub mod Resolve
pub mod Effort
pub mod Fallback
pub mod Known
pub mod Layering
pub mod Tiers
pub mod Validity
use harness_agent_rs.Prelude.{
  ℕ, Text, text, text_eq, Bool, Option, none, some, List, [], ◌∷◌, Dict, if◌then◌else◌,
}

-- `TierDefaultEntry`.
pub record TierDefaultEntry : Type 0 where
  pub model : Text
  pub effort : Option Text

abbrev pub plain_entry : Text → TierDefaultEntry
plain_entry m = record { model = m; effort = none }

abbrev pub effort_entry : Text → Text → TierDefaultEntry
effort_entry m e = record { model = m; effort = some e }

abbrev pub three_tiers :
    TierDefaultEntry → TierDefaultEntry → TierDefaultEntry → Dict TierDefaultEntry
three_tiers s m l = (text "small", s) ∷ (text "medium", m) ∷ (text "large", l) ∷ []

-- `TIER_DEFAULTS_JSON`.
abbrev pub tier_defaults : Dict (Dict TierDefaultEntry)
tier_defaults =
    (
      text "claude",
      three_tiers (plain_entry (text "haiku")) (plain_entry (text "sonnet"))
          (plain_entry (text "opus")),
    )
    ∷ (
      text "codex",
      three_tiers (effort_entry (text "gpt-5.5") (text "minimal"))
          (effort_entry (text "gpt-5.5") (text "medium"))
          (effort_entry (text "gpt-5.5") (text "high")),
    )
    ∷ (
      text "pi",
      three_tiers (plain_entry (text "anthropic/claude-haiku-4-5"))
          (plain_entry (text "anthropic/claude-sonnet-4-6"))
          (plain_entry (text "anthropic/claude-opus-4-7")),
    )
    ∷ (
      text "copilot",
      three_tiers (plain_entry (text "gpt-5-mini")) (plain_entry (text "gpt-5"))
          (plain_entry (text "claude-sonnet-4.5")),
    )
    ∷ (
      text "opencode",
      three_tiers (plain_entry (text "anthropic/claude-haiku-4-5"))
          (plain_entry (text "anthropic/claude-sonnet-4-6"))
          (plain_entry (text "anthropic/claude-opus-4-7")),
    )
    ∷ []

pub data TierName : Type 0 where
  small medium large : TierName

-- `TIER_NAMES`.
abbrev pub tier_names : List Text
tier_names = text "small" ∷ text "medium" ∷ text "large" ∷ []

unfoldable pub try_from_str : Text → Option TierName
try_from_str s =
    if text_eq s (text "small")
    then some small
    else if text_eq s (text "medium")
    then some medium
    else if text_eq s (text "large")
    then some large
    else none

unfoldable pub as_str : TierName → Text
as_str small = text "small"
as_str medium = text "medium"
as_str large = text "large"

pub data ThinkingConfig : Type 0 where
  adaptive : ThinkingConfig
  enabled : Option ℕ → ThinkingConfig
  disabled : ThinkingConfig

pub record ModelAliasPreset : Type 0 where
  pub provider : Text
  pub model : Text
  pub effort : Option Text
  pub thinking : Option ThinkingConfig

pub record RawAliasEntry : Type 0 where
  pub provider : Text
  pub model : Text
  pub effort : Option Text
  pub thinking : Option ThinkingConfig

abbrev pub RawAliasesConfig : Type 0
RawAliasesConfig = Dict RawAliasEntry

abbrev pub RawTiersConfig : Type 0
RawTiersConfig = Dict RawAliasEntry

pub record ResolvedAiProfile : Type 0 where
  pub default_provider : Text
  pub aliases : Dict ModelAliasPreset

pub data ResolvedModelSpec : Type 0 where
  preset : ModelAliasPreset → ResolvedModelSpec
  literal : Text → ResolvedModelSpec

unfoldable pub tier_fallback_chain : TierName → List TierName
tier_fallback_chain large = large ∷ medium ∷ small ∷ []
tier_fallback_chain medium = medium ∷ large ∷ small ∷ []
tier_fallback_chain small = small ∷ medium ∷ large ∷ []

pub data ModelValidationError : Type 0 where
  alias_name_reserved alias_name_missing_at_sign invalid_provider invalid_model :
      Text → ModelValidationError
  invalid_tier_name : Text → Text → ModelValidationError
  tier_not_configured : Text → Text → ModelValidationError
  unknown_alias : Text → Text → ModelValidationError
