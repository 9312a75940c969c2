-- ===== src/Models/Tiers.antt =====
-- What a reference resolves to in a profile that was built, and when a build or a resolution fails.
use harness_agent_rs.Prelude.{
  ◌≡◌, refl, ◌⊎◌, ◌↔◌, inl, inr, arith, Text, text, text_eq, true, false, some, [], ◌∷◌, Dict, get,
  is_empty, starts_with, AllEntries, AllEntries-insert, AllEntries-get, ok, Option-cases,
}
use harness_agent_rs.Models.{
  TierDefaultEntry, tier_defaults, three_tiers, TierName, small, medium, large, try_from_str,
  as_str, ModelAliasPreset, RawAliasEntry, ResolvedAiProfile,
}
use harness_agent_rs.Models.Build.{
  to_model_alias_preset, BuildAiProfileOptions, default_preset, insert_default, default_layer,
  given, build_ai_profile,
}
use harness_agent_rs.Models.Layering.{build-layers}
use harness_agent_rs.Models.Validity.{
  IsFilled, IsTierEntry, IsAliasEntry, add_tiers-ok, add_aliases-ok, add_tiers-AllEntries,
  add_aliases-AllEntries,
}

abbrev Anything : Text → ModelAliasPreset → Type 0
Anything n q = Unit

anything : (m : Dict ModelAliasPreset) → AllEntries Anything m
anything [] = _
anything ((k, q) ∷ m) = (_, anything m)

-- A build succeeds exactly when all the entries of the maps of tiers are keyed by a tier, all those of
-- the maps of aliases by a name that starts with an at sign, and all have a provider and a model.
pub build_ai_profile-ok_iff :
    (p : Text) (o : BuildAiProfileOptions)
    → (((prof : ResolvedAiProfile) × (build_ai_profile p o ≡ ok prof)) ↔ (
        AllEntries IsTierEntry (given o.global_tiers)
        × AllEntries IsTierEntry (given o.repo_tiers)
        × AllEntries IsAliasEntry (given o.global_aliases)
        × AllEntries IsAliasEntry (given o.repo_aliases)))
unfolding build_ai_profile
build_ai_profile-ok_iff p o = (
  λ h.
      let l = build-layers p o h.0 h.1 in
      (
        (add_tiers-AllEntries Anything (λ n e v. _) _ _ _ l.3 (anything (default_layer p))).0,
        (add_tiers-AllEntries Anything (λ n e v. _) _ _ _ l.4 (anything l.0)).0,
        (add_aliases-AllEntries Anything (λ n e v. _) _ _ _ l.5 (anything l.1)).0,
        (add_aliases-AllEntries Anything (λ n e v. _) _ _ _ l.6 (anything l.2)).0,
      ),
  λ h.
      let a = add_tiers-ok (given o.global_tiers) (default_layer p) h.0 in
      let b = add_tiers-ok (given o.repo_tiers) a.0 h.1 in
      let c = add_aliases-ok (given o.global_aliases) b.0 h.2 in
      let d = add_aliases-ok (given o.repo_aliases) c.0 h.3 in
      (record { default_provider = p; aliases = d.0 }, ground (arith, a.1, b.1, c.1, d.1)),
)

-- A preset that a build puts into a profile: under a tier or a name with an at sign, with a provider
-- and a model that are not empty.
unfoldable pub IsSound : Text → ModelAliasPreset → Type 0
IsSound n q =
    (((t : TierName) × (try_from_str n ≡ some t)) ⊎ (starts_with n (text "@") ≡ true))
    × (is_empty q.provider ≡ false)
    × (is_empty q.model ≡ false)

entry-IsSound :
    (n : Text) (e : RawAliasEntry)
    → (((t : TierName) × (try_from_str n ≡ some t)) ⊎ (starts_with n (text "@") ≡ true))
    → IsFilled e
    → IsSound n (to_model_alias_preset e)
unfolding IsSound IsFilled to_model_alias_preset
entry-IsSound n e k f = (k, f.0, f.1)

tier-IsSound :
    (n : Text) (e : RawAliasEntry) → IsTierEntry n e → IsSound n (to_model_alias_preset e)
unfolding IsTierEntry
tier-IsSound n e v = entry-IsSound n e (inl v.0) v.1

alias-IsSound :
    (n : Text) (e : RawAliasEntry) → IsAliasEntry n e → IsSound n (to_model_alias_preset e)
unfolding IsAliasEntry
alias-IsSound n e v = entry-IsSound n e (inr v.0) v.1

-- The defaults of one provider: every tier has one, whose model is not empty.
unfoldable pub IsComplete : Text → Dict TierDefaultEntry → Type 0
IsComplete p m =
    (is_empty p ≡ false)
    × ((t : TierName)
        → (e : TierDefaultEntry) × (get (as_str t) m ≡ some e) × (is_empty e.model ≡ false))

three_tiers-at :
    (s m l : TierDefaultEntry)
    → is_empty s.model ≡ false
    → is_empty m.model ≡ false
    → is_empty l.model ≡ false
    → (t : TierName)
    → (e : TierDefaultEntry) × (get (as_str t) (three_tiers s m l) ≡ some e)
      × (is_empty e.model ≡ false)
unfolding get as_str text_eq
three_tiers-at s m l f g h small = (s, refl, f)
three_tiers-at s m l f g h medium = (m, refl, g)
three_tiers-at s m l f g h large = (l, refl, h)

three_tiers-IsComplete :
    (p : Text) (s m l : TierDefaultEntry)
    → is_empty p ≡ false
    → is_empty s.model ≡ false
    → is_empty m.model ≡ false
    → is_empty l.model ≡ false
    → IsComplete p (three_tiers s m l)
unfolding IsComplete
three_tiers-IsComplete p s m l e f g h = (e, three_tiers-at s m l f g h)

pub tier_defaults-IsComplete : AllEntries IsComplete tier_defaults
unfolding is_empty
tier_defaults-IsComplete = (
  three_tiers-IsComplete _ _ _ _ refl refl refl refl,
  (
    three_tiers-IsComplete _ _ _ _ refl refl refl refl,
    (
      three_tiers-IsComplete _ _ _ _ refl refl refl refl,
      (
        three_tiers-IsComplete _ _ _ _ refl refl refl refl,
        (three_tiers-IsComplete _ _ _ _ refl refl refl refl, _),
      ),
    ),
  ),
)

pub as_str-try_from_str : (t : TierName) → try_from_str (as_str t) ≡ some t
unfolding try_from_str as_str text_eq
as_str-try_from_str small = refl
as_str-try_from_str medium = refl
as_str-try_from_str large = refl

insert_default-IsSound :
    (p : Text) (m : Dict TierDefaultEntry) (t : TierName) (acc : Dict ModelAliasPreset)
    → IsComplete p m
    → AllEntries IsSound acc
    → AllEntries IsSound (insert_default p m t acc)
unfolding insert_default IsComplete IsSound default_preset
insert_default-IsSound p m t acc c a =
    let e = c.1 t in
    rw (insert_default, e.1)
      (AllEntries-insert IsSound (as_str t) (default_preset p e.0) acc
        (inl (t, as_str-try_from_str t), c.0, e.2) a)

default_layer-IsSound : (p : Text) → AllEntries IsSound (default_layer p)
unfolding default_layer
default_layer-IsSound p = elim (Option-cases (get p tier_defaults)) [
  | inl e ↦ rw (default_layer, e) _
  | inr (m, e) ↦
      let c : IsComplete p m =
        AllEntries-get IsComplete p m tier_defaults tier_defaults-IsComplete e in
      rw (default_layer, e)
        (insert_default-IsSound p m large _ c
          (insert_default-IsSound p m medium _ c (insert_default-IsSound p m small _ c _)))
]

-- Every preset of a profile that is built stands under a tier or under a name with an at sign, and
-- has a provider and a model.
pub build_ai_profile-IsSound :
    (p : Text) (o : BuildAiProfileOptions) (prof : ResolvedAiProfile)
    → build_ai_profile p o ≡ ok prof
    → (k : Text) (q : ModelAliasPreset) → get k prof.aliases ≡ some q
    → IsSound k q
build_ai_profile-IsSound p o prof h =
    let l = build-layers p o prof h in
    let a = (add_tiers-AllEntries IsSound tier-IsSound _ _ _ l.3 (default_layer-IsSound p)).1 in
    let b = (add_tiers-AllEntries IsSound tier-IsSound _ _ _ l.4 a).1 in
    let c = (add_aliases-AllEntries IsSound alias-IsSound _ _ _ l.5 b).1 in
    let d = (add_aliases-AllEntries IsSound alias-IsSound _ _ _ l.6 c).1 in
    λ k q e. AllEntries-get IsSound k q prof.aliases d e
