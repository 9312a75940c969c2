-- ===== src/Models/Fallback.antt =====
-- What `resolve_model_spec` of crates/har-dag-executor/src/model_validation.rs answers for a profile
-- that `build_ai_profile` made, and when it fails.
use harness_agent_rs.Prelude.{
  ◌≡◌, refl, ◌∙◌, ap, ◌⊎◌, ◌↔◌, inl, inr, arith, Text, text, text_eq, text_eq_iff, true, false,
  Bool-cases, none, some, [], ◌∷◌, Dict, get, starts_with, ok, err, Option-cases,
}
use harness_agent_rs.Models.{
  TierName, small, medium, large, try_from_str, as_str, ModelAliasPreset, ResolvedAiProfile,
  ModelValidationError, tier_not_configured, unknown_alias, literal, tier_fallback_chain,
}
use harness_agent_rs.Models.Resolve.{
  resolve_model_spec, resolve_tier, resolve_alias, first_configured, defined_aliases, keys,
}
use harness_agent_rs.Models.Validity.{tier-at}

try_from_str-as_str : (s : Text) (t : TierName) → try_from_str s ≡ some t → s ≡ as_str t
unfolding try_from_str as_str
try_from_str-as_str s t h = elim (Bool-cases (text_eq s (text "small"))) [
  | inl e ↦
      let f : small ≡ t = ground (arith, e, h) in (text_eq_iff s (text "small")).0 e ∙ ap as_str f
  | inr e ↦ elim (Bool-cases (text_eq s (text "medium"))) [
    | inl f ↦
        let g : medium ≡ t = ground (arith, e, f, h) in
        (text_eq_iff s (text "medium")).0 f ∙ ap as_str g
    | inr f ↦ elim (Bool-cases (text_eq s (text "large"))) [
      | inl g ↦
          let i : large ≡ t = ground (arith, e, f, g, h) in
          (text_eq_iff s (text "large")).0 g ∙ ap as_str i
      | inr g ↦ ground (arith, e, f, g, h)
    ]
  ]
]

-- No tier of the profile has a preset.
unfoldable pub HasNoTier : Dict ModelAliasPreset → Type 0
HasNoTier m = (t : TierName) → get (as_str t) m ≡ none

three_none :
    (m : Dict ModelAliasPreset)
    → get (as_str small) m ≡ none
    → get (as_str medium) m ≡ none
    → get (as_str large) m ≡ none
    → HasNoTier m
unfolding HasNoTier
three_none m f g h small = f
three_none m f g h medium = g
three_none m f g h large = h

-- The three tiers of a chain, in whatever order.
chain_none :
    (m : Dict ModelAliasPreset) (s t u : TierName)
    → first_configured m (s ∷ t ∷ u ∷ []) ≡ none
    → (get (as_str s) m ≡ none) × (get (as_str t) m ≡ none) × (get (as_str u) m ≡ none)
unfolding first_configured
chain_none m s t u h = elim (Option-cases (get (as_str s) m)) [
  | inr (q, e) ↦ ground (arith, h, e)
  | inl e ↦ elim (Option-cases (get (as_str t) m)) [
    | inr (q, f) ↦ ground (arith, h, e, f)
    | inl f ↦ elim (Option-cases (get (as_str u) m)) [
      | inr (q, g) ↦ ground (arith, h, e, f, g)
      | inl g ↦ (e, f, g)
    ]
  ]
]

all_none :
    (m : Dict ModelAliasPreset) (s t u : TierName)
    → HasNoTier m
    → first_configured m (s ∷ t ∷ u ∷ []) ≡ none
unfolding HasNoTier first_configured
all_none m s t u n = ground (arith, n s, n t, n u)

first_configured-none :
    (m : Dict ModelAliasPreset) (t : TierName)
    → (first_configured m (tier_fallback_chain t) ≡ none) ↔ HasNoTier m
unfolding tier_fallback_chain
first_configured-none m small = (
  λ h. let c = chain_none m small medium large h in three_none m c.0 c.1 c.2,
  λ n. all_none m small medium large n,
)
first_configured-none m medium = (
  λ h. let c = chain_none m medium large small h in three_none m c.2 c.0 c.1,
  λ n. all_none m medium large small n,
)
first_configured-none m large = (
  λ h. let c = chain_none m large medium small h in three_none m c.2 c.1 c.0,
  λ n. all_none m large medium small n,
)

pub resolve-tier :
    (p : ResolvedAiProfile) (r : Text) (t : TierName)
    → try_from_str r ≡ some t
    → resolve_model_spec p r ≡ resolve_tier p r t
unfolding resolve_model_spec resolve_tier
resolve-tier p r t h = rw (resolve_model_spec, h) refl

pub resolve-alias :
    (p : ResolvedAiProfile) (r : Text)
    → starts_with r (text "@") ≡ true
    → resolve_model_spec p r ≡ resolve_alias p r
unfolding resolve_model_spec resolve_alias
resolve-alias p r h = rw (resolve_model_spec, tier-at r h, h) refl

resolve-literal :
    (p : ResolvedAiProfile) (r : Text)
    → try_from_str r ≡ none
    → starts_with r (text "@") ≡ false
    → resolve_model_spec p r ≡ ok (literal r)
unfolding resolve_model_spec
resolve-literal p r h e = rw (resolve_model_spec, h, e) refl

tier_errs :
    (p : ResolvedAiProfile) (r : Text) (t : TierName)
    → try_from_str r ≡ some t
    → ((x : ModelValidationError) × (resolve_model_spec p r ≡ err x)) ↔ HasNoTier p.aliases
unfolding resolve_tier
tier_errs p r t h =
    let step : resolve_model_spec p r ≡ resolve_tier p r t = resolve-tier p r t h in
    let none_iff = first_configured-none p.aliases t in
    elim (Option-cases (first_configured p.aliases (tier_fallback_chain t))) [
      | inl e ↦ (
        λ x. none_iff.0 e,
        λ n. (tier_not_configured r p.default_provider, ground (arith, step, e)),
      )
      | inr (q, e) ↦ (λ x. ground (arith, step, e, x.1), λ n. ground (arith, none_iff.1 n, e))
    ]

alias_errs :
    (p : ResolvedAiProfile) (r : Text)
    → starts_with r (text "@") ≡ true
    → ((x : ModelValidationError) × (resolve_model_spec p r ≡ err x)) ↔ (get r p.aliases ≡ none)
unfolding resolve_alias
alias_errs p r h =
    let step : resolve_model_spec p r ≡ resolve_alias p r = resolve-alias p r h in
    elim (Option-cases (get r p.aliases)) [
      | inl e ↦ (
        λ x. e,
        λ n. (unknown_alias r (defined_aliases (keys p.aliases)), ground (arith, step, e)),
      )
      | inr (q, e) ↦ (λ x. ground (arith, step, e, x.1), λ n. ground (arith, n, e))
    ]

-- Resolution fails in two cases only: the reference is a tier and the profile has a preset for no
-- tier at all, or it starts with an at sign and is not a name of the profile.
pub resolve_model_spec-errs_iff :
    (p : ResolvedAiProfile) (r : Text)
    → (((x : ModelValidationError) × (resolve_model_spec p r ≡ err x)) ↔ (
        (((t : TierName) × (try_from_str r ≡ some t)) × HasNoTier p.aliases)
        ⊎ ((starts_with r (text "@") ≡ true) × (get r p.aliases ≡ none))))
resolve_model_spec-errs_iff p r = (
  λ x. elim (Option-cases (try_from_str r)) [
    | inr (t, e) ↦ inl ((t, e), (tier_errs p r t e).0 x)
    | inl e ↦ elim (Bool-cases (starts_with r (text "@"))) [
      | inl a ↦ inr (a, (alias_errs p r a).0 x)
      | inr a ↦ ground (arith, resolve-literal p r e a, x.1)
    ]
  ],
  λ c. elim c [ inl d ↦ (tier_errs p r d.0.0 d.0.1).1 d.1 | inr d ↦ (alias_errs p r d.0).1 d.1 ],
)
