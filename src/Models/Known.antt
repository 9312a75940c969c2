-- ===== src/Models/Known.antt =====
-- What a reference resolves to in a profile that `build_ai_profile` made: a tier and an alias,
-- crates/har-dag-executor/src/model_validation.rs.
use harness_agent_rs.Prelude.{
  ◌≡◌, ◌≢◌, refl, ◌∙◌, sym, ap, ◌↔◌, inl, inr, arith, Text, text, text_eq, text_eq_iff, true, false,
  Bool-cases, Option, none, some, [], ◌∷◌, Dict, get, insert, get-insert, starts_with, AllEntries,
  AllEntries-get, ok, Option-cases,
}
use harness_agent_rs.Models.{
  TierDefaultEntry, tier_defaults, TierName, small, medium, large, try_from_str, as_str,
  ModelAliasPreset, RawAliasEntry, ResolvedAiProfile, preset, tier_fallback_chain,
}
use harness_agent_rs.Models.Build.{
  BuildAiProfileOptions, default_preset, insert_default, default_layer, given, build_ai_profile,
}
use harness_agent_rs.Models.Resolve.{
  resolve_model_spec, resolve_tier, resolve_alias, first_configured,
}
use harness_agent_rs.Models.Layering.{
  build_ai_profile-layered, layered, over, over-none, binding, default_of,
}
use harness_agent_rs.Models.Validity.{IsTierEntry, tier-at}
use harness_agent_rs.Models.Tiers.{
  as_str-try_from_str, IsComplete, tier_defaults-IsComplete, build_ai_profile-ok_iff,
}
use harness_agent_rs.Models.Fallback.{resolve-tier, resolve-alias}

insert_default_complete :
    (p : Text) (m : Dict TierDefaultEntry) (c : IsComplete p m)
    → (t : TierName) (acc : Dict ModelAliasPreset)
    → (q : ModelAliasPreset) × (insert_default p m t acc ≡ insert (as_str t) q acc)
unfolding insert_default IsComplete
insert_default_complete p m c t acc =
    (default_preset p (c.1 t).0, rw (insert_default, (c.1 t).1) refl)

-- The defaults of a provider that has them: one preset for each tier.
default_layer_complete :
    (p : Text) (m : Dict TierDefaultEntry)
    → get p tier_defaults ≡ some m
    → (s d l : ModelAliasPreset) × (default_layer p
        ≡ insert (as_str large) l (insert (as_str medium) d (insert (as_str small) s [])))
unfolding default_layer
default_layer_complete p m h =
    let c : IsComplete p m =
      AllEntries-get IsComplete p m tier_defaults tier_defaults-IsComplete h in
    let s = insert_default_complete p m c small [] in
    let d = insert_default_complete p m c medium (insert (as_str small) s.0 []) in
    let l =
      insert_default_complete p m c large
        (insert (as_str medium) d.0 (insert (as_str small) s.0 [])) in
    (s.0, d.0, l.0, rw (default_layer, h, s.1, d.1, l.1) refl)

default_known :
    (p : Text) (m : Dict TierDefaultEntry)
    → get p tier_defaults ≡ some m
    → (t : TierName) → (q : ModelAliasPreset) × (get (as_str t) (default_layer p) ≡ some q)
unfolding as_str text_eq insert get
default_known p m h small =
    let l = default_layer_complete p m h in (l.0, ap (get (as_str small)) l.3)
default_known p m h medium =
    let l = default_layer_complete p m h in (l.1, ap (get (as_str medium)) l.3)
default_known p m h large =
    let l = default_layer_complete p m h in (l.2, ap (get (as_str large)) l.3)

over-some {ℓ} :
    {A : Type ℓ} (a b : Option A) → ((x : A) × (b ≡ some x)) → (x : A) × (over a b ≡ some x)
over-some none b h = h
over-some (some y) b h = (y, refl)

layered-some :
    (p : Text) (o : BuildAiProfileOptions) (k : Text)
    → ((q : ModelAliasPreset) × (get k (default_layer p) ≡ some q))
    → (q : ModelAliasPreset) × (layered p o k ≡ some q)
unfolding layered default_of
layered-some p o k h = over-some (binding k (given o.repo_aliases)) _ (
    over-some (binding k (given o.global_aliases)) _ (
      over-some (binding k (given o.repo_tiers)) _
        (over-some (binding k (given o.global_tiers)) _ h)))

first_configured-own :
    (m : Dict ModelAliasPreset) (t : TierName) (q : ModelAliasPreset)
    → get (as_str t) m ≡ some q
    → first_configured m (tier_fallback_chain t) ≡ some q
unfolding first_configured tier_fallback_chain
first_configured-own m small q h = ground (arith, h)
first_configured-own m medium q h = ground (arith, h)
first_configured-own m large q h = ground (arith, h)

-- With one of the five providers that have defaults, every tier of a profile that is built resolves,
-- and to the preset of that very tier: no fallback is taken.
pub known_provider_resolves :
    (p : Text) (o : BuildAiProfileOptions) (prof : ResolvedAiProfile)
    → get p tier_defaults ≢ none
    → build_ai_profile p o ≡ ok prof
    → (t : TierName)
    → (q : ModelAliasPreset) × (resolve_model_spec prof (as_str t) ≡ ok (preset q))
      × (layered p o (as_str t) ≡ some q)
unfolding resolve_tier
known_provider_resolves p o prof k h t = elim (Option-cases (get p tier_defaults)) [
  | inl e ↦ ground (arith, k, e)
  | inr (m, e) ↦
      let c : IsComplete p m =
        AllEntries-get IsComplete p m tier_defaults tier_defaults-IsComplete e in
      let l = layered-some p o (as_str t) (default_known p m e t) in
      let own =
        first_configured-own prof.aliases t l.0
          (build_ai_profile-layered p o prof h (as_str t) ∙ l.1) in
      let step : resolve_model_spec prof (as_str t) ≡ resolve_tier prof (as_str t) t =
        resolve-tier prof (as_str t) t (as_str-try_from_str t) in
      (l.0, ground (arith, step, own), l.1)
]

-- Maps of tiers have no name with an at sign.
binding-tiers :
    (k : Text) (m : Dict RawAliasEntry)
    → starts_with k (text "@") ≡ true
    → AllEntries IsTierEntry m
    → binding k m ≡ none
unfolding binding IsTierEntry
binding-tiers k [] h a = refl
binding-tiers k ((n, e) ∷ m) h a =
    ground (arith, binding-tiers k m h a.1, a.0.0.1, tier-at k h, text_eq_iff n k)

as_str-at :
    (r : Text) (t : TierName) → starts_with r (text "@") ≡ true → text_eq (as_str t) r ≡ false
as_str-at r t a = elim (Bool-cases (text_eq (as_str t) r)) [
  | inr e ↦ e
  | inl e ↦
      let k : as_str t ≡ r = (text_eq_iff (as_str t) r).0 e in
      let n : try_from_str (as_str t) ≡ none = rw k (tier-at r a) in
      ground (arith, n, as_str-try_from_str t)
]

-- The defaults have no name with an at sign.
default_layer-at : (p r : Text) → starts_with r (text "@") ≡ true → get r (default_layer p) ≡ none
unfolding default_layer get
default_layer-at p r a = elim (Option-cases (get p tier_defaults)) [
  | inl e ↦ rw (default_layer, e) refl
  | inr (m, e) ↦
      let l = default_layer_complete p m e in
      rw
        (
          l.3,
          get-insert,
          as_str-at r large a,
          get-insert,
          as_str-at r medium a,
          get-insert,
          as_str-at r small a,
        )
        refl
]

layered-at :
    (p : Text) (o : BuildAiProfileOptions) (r : Text)
    → binding r (given o.global_tiers) ≡ none
    → binding r (given o.repo_tiers) ≡ none
    → get r (default_layer p) ≡ none
    → layered p o r ≡ over (binding r (given o.repo_aliases)) (binding r (given o.global_aliases))
unfolding layered default_of
layered-at p o r h g d = rw (h, g, d, over-none) refl

alias_found :
    (p : ResolvedAiProfile) (r : Text) (q : ModelAliasPreset)
    → starts_with r (text "@") ≡ true
    → (resolve_model_spec p r ≡ ok (preset q)) ↔ (get r p.aliases ≡ some q)
unfolding resolve_alias
alias_found p r q h =
    let step : resolve_model_spec p r ≡ resolve_alias p r = resolve-alias p r h in
    elim (Option-cases (get r p.aliases)) [
      | inl e ↦ (λ x. ground (arith, step, e, x), λ x. ground (arith, e, x))
      | inr (w, e) ↦ (λ x. ground (arith, step, e, x), λ x. ground (arith, step, e, x))
    ]

-- In a profile that is built a name with an at sign resolves to the preset of the repository's alias
-- of that name, else to that of the user's, and to nothing else.
pub alias_resolves_iff :
    (p : Text) (o : BuildAiProfileOptions) (prof : ResolvedAiProfile)
    → build_ai_profile p o ≡ ok prof
    → (r : Text) → starts_with r (text "@") ≡ true
    → (q : ModelAliasPreset)
    → ((resolve_model_spec prof r ≡ ok (preset q))
        ↔ (over (binding r (given o.repo_aliases)) (binding r (given o.global_aliases)) ≡ some q))
alias_resolves_iff p o prof h r a q =
    let v = (build_ai_profile-ok_iff p o).0 (prof, h) in
    let e : get r prof.aliases ≡ layered p o r = build_ai_profile-layered p o prof h r in
    let t = binding-tiers r (given o.global_tiers) a v.0 in
    let u = binding-tiers r (given o.repo_tiers) a v.1 in
    let found = e ∙ layered-at p o r t u (default_layer-at p r a) in
    let f = alias_found prof r q a in (λ x. sym found ∙ f.0 x, λ x. f.1 (found ∙ x))
