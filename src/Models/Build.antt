-- ===== src/Models/Build.antt =====
-- `build_ai_profile` of crates/har-dag-executor/src/model_validation.rs: the defaults of the provider,
-- then the tiers and the aliases of the user and of the repository, each layer over the ones before.
use harness_agent_rs.Prelude.{
  Text, text, Bool, true, false, not, Option, none, some, [], ◌∷◌, Dict, get, insert, is_empty,
  starts_with, if◌then◌else◌, Result, ok, err, ◌>>=◌,
}
use harness_agent_rs.Models.{
  TierDefaultEntry, tier_defaults, TierName, small, medium, large, tier_names, try_from_str, as_str,
  ModelAliasPreset, RawAliasEntry, RawAliasesConfig, RawTiersConfig, ResolvedAiProfile,
  ModelValidationError, alias_name_reserved, alias_name_missing_at_sign, invalid_provider,
  invalid_model, invalid_tier_name,
}
use harness_agent_rs.Models.Order.{join}

pub data Checked : Type 0 where
  valid : Checked

unfoldable pub is_tier_name : Text → Bool
unfolding try_from_str
is_tier_name s = elim (try_from_str s) [ none ↦ false | some t ↦ true ]

unfoldable pub assert_not_reserved : Text → Result ModelValidationError Checked
unfolding is_tier_name
assert_not_reserved n = if is_tier_name n then err (alias_name_reserved n) else ok valid

unfoldable pub assert_custom_alias_prefix : Text → Result ModelValidationError Checked
unfolding starts_with
assert_custom_alias_prefix n =
    if not (starts_with n (text "@")) then err (alias_name_missing_at_sign n) else ok valid

unfoldable pub assert_valid_entry : Text → RawAliasEntry → Result ModelValidationError Checked
unfolding is_empty
assert_valid_entry n e =
    if is_empty e.provider
    then err (invalid_provider n)
    else if is_empty e.model
    then err (invalid_model n)
    else ok valid

unfoldable pub assert_valid_tier_name : Text → Result ModelValidationError TierName
unfolding try_from_str join
assert_valid_tier_name n = elim (try_from_str n) [
  | some t ↦ ok t
  | none ↦ err (invalid_tier_name n (join (text ", ") tier_names))
]

unfoldable pub to_model_alias_preset : RawAliasEntry → ModelAliasPreset
to_model_alias_preset e = record {
  provider = e.provider;
  model = e.model;
  effort = e.effort;
  thinking = e.thinking;
}

pub record BuildAiProfileOptions : Type 0 where
  pub global_tiers : Option RawTiersConfig
  pub repo_tiers : Option RawTiersConfig
  pub global_aliases : Option RawAliasesConfig
  pub repo_aliases : Option RawAliasesConfig

-- The preset of a default, and the first loop of layer 1.
unfoldable pub default_preset : Text → TierDefaultEntry → ModelAliasPreset
default_preset p e = record { provider = p; model = e.model; effort = e.effort; thinking = none }

unfoldable pub insert_default :
    Text → Dict TierDefaultEntry → TierName → Dict ModelAliasPreset → Dict ModelAliasPreset
unfolding get insert as_str default_preset
insert_default p entries t acc = elim (get (as_str t) entries) [
  | none ↦ acc
  | some e ↦ insert (as_str t) (default_preset p e) acc
]

unfoldable pub default_layer : Text → Dict ModelAliasPreset
unfolding get insert_default
default_layer p = elim (get p tier_defaults) [
  | none ↦ []
  | some entries ↦
      insert_default p entries large
        (insert_default p entries medium (insert_default p entries small []))
]

-- The body of the loop over the tiers, and of the one over the aliases.
unfoldable pub add_tiers :
    RawTiersConfig → Dict ModelAliasPreset → Result ModelValidationError (Dict ModelAliasPreset)
unfolding assert_valid_tier_name assert_valid_entry insert to_model_alias_preset
add_tiers [] acc = ok acc
add_tiers ((n, e) ∷ m) acc = assert_valid_tier_name n >>= λ t.
    assert_valid_entry n e >>= λ v. add_tiers m (insert n (to_model_alias_preset e) acc)

unfoldable pub add_aliases :
    RawAliasesConfig → Dict ModelAliasPreset → Result ModelValidationError (Dict ModelAliasPreset)
unfolding assert_not_reserved assert_custom_alias_prefix assert_valid_entry insert
    to_model_alias_preset
add_aliases [] acc = ok acc
add_aliases ((n, e) ∷ m) acc = assert_not_reserved n >>= λ u. assert_custom_alias_prefix n >>= λ w.
    assert_valid_entry n e >>= λ v. add_aliases m (insert n (to_model_alias_preset e) acc)

-- `into_iter().flatten()` skips a map that is not given.
abbrev pub given : Option (Dict RawAliasEntry) → Dict RawAliasEntry
given none = []
given (some m) = m

unfoldable pub build_ai_profile :
    Text → BuildAiProfileOptions → Result ModelValidationError ResolvedAiProfile
unfolding default_layer add_tiers add_aliases
build_ai_profile p o =
    add_tiers (given o.global_tiers) (default_layer p)
    >>= add_tiers (given o.repo_tiers)
    >>= add_aliases (given o.global_aliases)
    >>= add_aliases (given o.repo_aliases)
    >>= λ m. ok (record { default_provider = p; aliases = m })
