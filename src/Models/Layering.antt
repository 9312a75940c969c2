-- ===== src/Models/Layering.antt =====
-- What a profile holds under a name: the entry of the last layer that names it. The layers as an
-- abstract map, independent of the order of insertions.
use harness_agent_rs.Prelude.{
  ◌≡◌, refl, Text, text_eq, Bool-cases, Option, none, some, [], ◌∷◌, Dict, get, insert, get-insert,
  if◌then◌else◌, ok, bind-ok, ap, inl, inr, arith, subst, sym,
}
use harness_agent_rs.Models.{ModelAliasPreset, RawAliasEntry, ResolvedAiProfile}
use harness_agent_rs.Models.Build.{
  assert_valid_tier_name, assert_valid_entry, assert_not_reserved, assert_custom_alias_prefix,
  to_model_alias_preset, BuildAiProfileOptions, default_layer, add_tiers, add_aliases, given,
  build_ai_profile,
}

-- The first answer, else the second.
abbrev pub over {ℓ} : {A : Type ℓ} → Option A → Option A → Option A
over (some a) b = some a
over none b = b

-- The preset that a map of the configuration gives a name: its entry's, the last of them if the
-- iteration were to meet the name again.
unfoldable pub binding : Text → Dict RawAliasEntry → Option ModelAliasPreset
binding k [] = none
binding k ((n, e) ∷ m) =
    over (binding k m) (if text_eq n k then some (to_model_alias_preset e) else none)

-- The default of a provider for a name.
unfoldable pub default_of : Text → Text → Option ModelAliasPreset
unfolding get default_layer
default_of p k = get k (default_layer p)

unfoldable pub layered : Text → BuildAiProfileOptions → Text → Option ModelAliasPreset
layered p o k = over (binding k (given o.repo_aliases)) (
    over (binding k (given o.global_aliases)) (
      over (binding k (given o.repo_tiers))
        (over (binding k (given o.global_tiers)) (default_of p k))))

pub over-none {ℓ} : {A : Type ℓ} (a : Option A) → over a none ≡ a
over-none none = refl
over-none (some x) = refl

over_assoc {ℓ} : {A : Type ℓ} (a b c : Option A) → over (over a b) c ≡ over a (over b c)
over_assoc none b c = refl
over_assoc (some x) b c = refl

-- One insertion, as a layer of one entry.
insert-over :
    (k n : Text) (q : ModelAliasPreset) (m : Dict ModelAliasPreset)
    → get k (insert n q m) ≡ over (if text_eq n k then some q else none) (get k m)
insert-over k n q m = elim (Bool-cases (text_eq n k)) [
  | inl e ↦ rw (get-insert, e) refl
  | inr e ↦ rw (get-insert, e) refl
]

-- After the entries of one map the profile is that map over what was there.
pub add_tiers-get :
    (k : Text) (m : Dict RawAliasEntry) (acc r : Dict ModelAliasPreset)
    → add_tiers m acc ≡ ok r
    → get k r ≡ over (binding k m) (get k acc)
unfolding add_tiers binding
add_tiers-get k [] acc r h = ground (arith, h)
add_tiers-get k ((n, e) ∷ m) acc r h =
    let a = bind-ok (assert_valid_tier_name n) _ r h in
    let b = bind-ok (assert_valid_entry n e) _ r a.2 in
    let rest : get k r ≡ over (binding k m) (get k (insert n (to_model_alias_preset e) acc)) =
      add_tiers-get k m (insert n (to_model_alias_preset e) acc) r b.2 in
    rw (rest, insert-over, over_assoc) refl

pub add_aliases-get :
    (k : Text) (m : Dict RawAliasEntry) (acc r : Dict ModelAliasPreset)
    → add_aliases m acc ≡ ok r
    → get k r ≡ over (binding k m) (get k acc)
unfolding add_aliases binding
add_aliases-get k [] acc r h = ground (arith, h)
add_aliases-get k ((n, e) ∷ m) acc r h =
    let a = bind-ok (assert_not_reserved n) _ r h in
    let b = bind-ok (assert_custom_alias_prefix n) _ r a.2 in
    let c = bind-ok (assert_valid_entry n e) _ r b.2 in
    let rest : get k r ≡ over (binding k m) (get k (insert n (to_model_alias_preset e) acc)) =
      add_aliases-get k m (insert n (to_model_alias_preset e) acc) r c.2 in
    rw (rest, insert-over, over_assoc) refl

-- The layers of a build that succeeds.
pub build-layers :
    (p : Text) (o : BuildAiProfileOptions) (prof : ResolvedAiProfile)
    → build_ai_profile p o ≡ ok prof
    → (a b c : Dict ModelAliasPreset) × (add_tiers (given o.global_tiers) (default_layer p) ≡ ok a)
      × (add_tiers (given o.repo_tiers) a ≡ ok b)
      × (add_aliases (given o.global_aliases) b ≡ ok c)
      × (add_aliases (given o.repo_aliases) c ≡ ok prof.aliases)
      × (prof.default_provider ≡ p)
unfolding build_ai_profile
build-layers p o prof h =
    let e = bind-ok _ _ prof h in
    let d = bind-ok _ _ e.0 e.1 in
    let c = bind-ok _ _ d.0 d.1 in
    let b = bind-ok _ _ c.0 c.1 in
    let same : record { default_provider = p; aliases = e.0 } ≡ prof = ground (arith, e.2) in
    (
      b.0,
      c.0,
      d.0,
      b.1,
      b.2,
      c.2,
      subst (λ x. add_aliases (given o.repo_aliases) d.0 ≡ ok x.aliases) same d.2,
      ap (λ x. x.default_provider) (sym same),
    )

-- A profile that is built holds under every name exactly what the layers say: the repository's alias
-- of that name, else the user's, else the repository's tier, else the user's, else the default of
-- the provider.
pub build_ai_profile-layered :
    (p : Text) (o : BuildAiProfileOptions) (prof : ResolvedAiProfile)
    → build_ai_profile p o ≡ ok prof
    → (k : Text) → get k prof.aliases ≡ layered p o k
unfolding layered default_of
build_ai_profile-layered p o prof h k =
    let l = build-layers p o prof h in
    rw
      (
        add_aliases-get k (given o.repo_aliases) l.2 prof.aliases l.6,
        add_aliases-get k (given o.global_aliases) l.1 l.2 l.5,
        add_tiers-get k (given o.repo_tiers) l.0 l.1 l.4,
        add_tiers-get k (given o.global_tiers) (default_layer p) l.0 l.3,
      )
      refl
