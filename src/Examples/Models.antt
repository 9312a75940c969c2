-- ===== src/Examples/Models.antt =====
-- Profiles and references on concrete configurations, crates/har-dag-executor/src/model_validation.rs.
use harness_agent_rs.Prelude.{
  ◌≡◌, ◌≢◌, ◌↔◌, ◌⊎◌, refl, Text, text, text_eq, true, none, some, [], ◌∷◌, get, is_empty,
  starts_with, AllEntries, ok, err,
}
use harness_agent_rs.Models.{
  tier_defaults, TierName, medium, try_from_str, as_str, ModelAliasPreset, RawAliasEntry,
  ResolvedAiProfile, ModelValidationError, unknown_alias, preset,
}
use harness_agent_rs.Models.Build.{BuildAiProfileOptions, given, build_ai_profile}
use harness_agent_rs.Models.Resolve.{resolve_model_spec}
use harness_agent_rs.Models.Effort.{model_reasoning_effort, route_preset_effort}
use harness_agent_rs.Models.Layering.{layered, over, binding, build_ai_profile-layered}
use harness_agent_rs.Models.Validity.{IsTierEntry, IsAliasEntry}
use harness_agent_rs.Models.Tiers.{IsSound, build_ai_profile-ok_iff, build_ai_profile-IsSound}
use harness_agent_rs.Models.Fallback.{HasNoTier, resolve_model_spec-errs_iff}
use harness_agent_rs.Models.Known.{known_provider_resolves, alias_resolves_iff}

abbrev entry : Text → Text → RawAliasEntry
entry p m = record { provider = p; model = m; effort = none; thinking = none }

abbrev of_entry : Text → Text → ModelAliasPreset
of_entry p m = record { provider = p; model = m; effort = none; thinking = none }

abbrev options : BuildAiProfileOptions
options = record {
  global_tiers = some ((text "large", entry (text "pi") (text "big")) ∷ []);
  repo_tiers = none;
  global_aliases = some ((text "@fast", entry (text "pi") (text "quick")) ∷ []);
  repo_aliases = some ((text "@fast", entry (text "codex") (text "quicker")) ∷ []);
}

abbrev profile : ResolvedAiProfile
profile = record {
  default_provider = text "claude";
  aliases =
      (text "small", of_entry (text "claude") (text "haiku"))
      ∷ (text "medium", of_entry (text "claude") (text "sonnet"))
      ∷ (text "large", of_entry (text "pi") (text "big"))
      ∷ (text "@fast", of_entry (text "codex") (text "quicker"))
      ∷ [];
}

built : build_ai_profile (text "claude") options ≡ ok profile
unfolding build_ai_profile text_eq get is_empty
built = refl

slow_unknown :
    resolve_model_spec profile (text "@slow")
    ≡ err (unknown_alias (text "@slow") (text "@fast, large, medium, small"))
unfolding resolve_model_spec text_eq get
slow_unknown = refl

routed :
    route_preset_effort (text "codex") (text "xhigh")
    ≡ some (record { field = model_reasoning_effort; value = text "xhigh" })
unfolding route_preset_effort text_eq
routed = refl

mismatched : route_preset_effort (text "codex") (text "max") ≡ none
unfolding route_preset_effort text_eq
mismatched = refl

build_ai_profile-layered_example :
    get (text "@fast") profile.aliases ≡ layered (text "claude") options (text "@fast")
build_ai_profile-layered_example =
    build_ai_profile-layered (text "claude") options profile built (text "@fast")

build_ai_profile-ok_iff_example :
    ((prof : ResolvedAiProfile) × (build_ai_profile (text "claude") options ≡ ok prof)) ↔ (
      AllEntries IsTierEntry (given options.global_tiers)
      × AllEntries IsTierEntry (given options.repo_tiers)
      × AllEntries IsAliasEntry (given options.global_aliases)
      × AllEntries IsAliasEntry (given options.repo_aliases))
build_ai_profile-ok_iff_example = build_ai_profile-ok_iff (text "claude") options

build_ai_profile-IsSound_example : IsSound (text "large") (of_entry (text "pi") (text "big"))
unfolding get text_eq
build_ai_profile-IsSound_example =
    build_ai_profile-IsSound (text "claude") options profile built (text "large")
      (of_entry (text "pi") (text "big")) refl

resolve_model_spec-errs_iff_example :
    ((x : ModelValidationError) × (resolve_model_spec profile (text "@slow") ≡ err x)) ↔ (
      (((t : TierName) × (try_from_str (text "@slow") ≡ some t)) × HasNoTier profile.aliases)
      ⊎ ((starts_with (text "@slow") (text "@") ≡ true)
          × (get (text "@slow") profile.aliases ≡ none)))
resolve_model_spec-errs_iff_example = resolve_model_spec-errs_iff profile (text "@slow")

claude_known : get (text "claude") tier_defaults ≢ none
unfolding get text_eq
claude_known h = cc

known_provider_resolves_example :
    (q : ModelAliasPreset) × (resolve_model_spec profile (as_str medium) ≡ ok (preset q))
    × (layered (text "claude") options (as_str medium) ≡ some q)
known_provider_resolves_example =
    known_provider_resolves (text "claude") options profile claude_known built medium

alias_resolves_iff_example :
    (resolve_model_spec profile (text "@fast")
      ≡ ok (preset (of_entry (text "codex") (text "quicker"))))
    ↔ (over
          (binding (text "@fast") (given options.repo_aliases))
          (binding (text "@fast") (given options.global_aliases))
        ≡ some (of_entry (text "codex") (text "quicker")))
unfolding starts_with
alias_resolves_iff_example =
    alias_resolves_iff (text "claude") options profile built (text "@fast") refl
      (of_entry (text "codex") (text "quicker"))
