-- ===== src/Models/Resolve.antt =====
-- `resolve_model_spec` of crates/har-dag-executor/src/model_validation.rs: a tier by its fallback
-- chain, an alias by its name, anything else as it stands.
use harness_agent_rs.Prelude.{
  Text, text, Bool, true, false, Option, none, some, List, [], ◌∷◌, Dict, get, starts_with,
  if◌then◌else◌, Result, ok, err,
}
use harness_agent_rs.Models.{
  TierName, try_from_str, as_str, tier_fallback_chain, ModelAliasPreset, ResolvedAiProfile,
  ResolvedModelSpec, preset, literal, ModelValidationError, tier_not_configured, unknown_alias,
}
use harness_agent_rs.Models.Order.{sort, join}

unfoldable pub is_literal_spec : ResolvedModelSpec → Bool
is_literal_spec (literal t) = true
is_literal_spec (preset p) = false

-- The first tier of a chain that the profile has.
unfoldable pub first_configured : Dict ModelAliasPreset → List TierName → Option ModelAliasPreset
unfolding get as_str
first_configured m [] = none
first_configured m (t ∷ ts) = elim (get (as_str t) m) [
  | some p ↦ some p
  | none ↦ first_configured m ts
]

-- `HashMap::keys`.
unfoldable pub keys {ℓ} : {V : Type ℓ} → Dict V → List Text
keys [] = []
keys ((k, v) ∷ m) = k ∷ keys m

unfoldable pub defined_aliases : List Text → Text
unfolding sort join
defined_aliases [] = text "(none)"
defined_aliases (k ∷ ks) = join (text ", ") (sort (k ∷ ks))

unfoldable pub resolve_tier :
    ResolvedAiProfile → Text → TierName → Result ModelValidationError ResolvedModelSpec
unfolding first_configured tier_fallback_chain
resolve_tier p r t = elim (first_configured p.aliases (tier_fallback_chain t)) [
  | some q ↦ ok (preset q)
  | none ↦ err (tier_not_configured r p.default_provider)
]

unfoldable pub resolve_alias :
    ResolvedAiProfile → Text → Result ModelValidationError ResolvedModelSpec
unfolding get defined_aliases keys
resolve_alias p r = elim (get r p.aliases) [
  | some q ↦ ok (preset q)
  | none ↦ err (unknown_alias r (defined_aliases (keys p.aliases)))
]

unfoldable pub resolve_model_spec :
    ResolvedAiProfile → Text → Result ModelValidationError ResolvedModelSpec
unfolding try_from_str resolve_tier starts_with resolve_alias
resolve_model_spec p r = elim (try_from_str r) [
  | some t ↦ resolve_tier p r t
  | none ↦ if starts_with r (text "@") then resolve_alias p r else ok (literal r)
]
