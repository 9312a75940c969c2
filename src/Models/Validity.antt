-- ===== src/Models/Validity.antt =====
-- Which configurations build a profile, and what every entry of a profile is like.
use harness_agent_rs.Prelude.{
  ◌≡◌, refl, ◌∙◌, subst, ◌↔◌, inl, inr, arith, Text, text, text_eq, true, false, Bool-cases, none,
  some, [], ◌∷◌, Dict, insert, is_empty, starts_with, AllEntries, AllEntries-insert, ok, bind-ok,
  Option-cases,
}
use harness_agent_rs.Models.{TierName, try_from_str, ModelAliasPreset, RawAliasEntry}
use harness_agent_rs.Models.Build.{
  Checked, valid, is_tier_name, assert_valid_tier_name, assert_valid_entry, assert_not_reserved,
  assert_custom_alias_prefix, to_model_alias_preset, add_tiers, add_aliases,
}

-- An entry with a provider and a model.
unfoldable pub IsFilled : RawAliasEntry → Type 0
IsFilled e = (is_empty e.provider ≡ false) × (is_empty e.model ≡ false)

-- An entry that the maps of tiers may have, and one that the maps of aliases may have.
unfoldable pub IsTierEntry : Text → RawAliasEntry → Type 0
IsTierEntry n e = ((t : TierName) × (try_from_str n ≡ some t)) × IsFilled e

unfoldable pub IsAliasEntry : Text → RawAliasEntry → Type 0
IsAliasEntry n e = (starts_with n (text "@") ≡ true) × IsFilled e

-- No tier starts with an at sign: the check for reserved names never decides.
pub tier-at : (n : Text) → starts_with n (text "@") ≡ true → try_from_str n ≡ none
unfolding try_from_str starts_with text_eq
tier-at [] h = refl
tier-at (c ∷ n) h = ground arith

assert_valid_entry_iff :
    (n : Text) (e : RawAliasEntry) → (assert_valid_entry n e ≡ ok valid) ↔ IsFilled e
unfolding assert_valid_entry IsFilled
assert_valid_entry_iff n e = ground arith

valid_only : (v : Checked) → v ≡ valid
valid_only valid = refl

-- One entry of a map is taken when the tests hold, and the tests hold when it is taken.
add_tiers-step :
    (n : Text) (e : RawAliasEntry) (m : Dict RawAliasEntry) (acc : Dict ModelAliasPreset)
    → IsTierEntry n e
    → add_tiers ((n, e) ∷ m) acc ≡ add_tiers m (insert n (to_model_alias_preset e) acc)
unfolding add_tiers IsTierEntry assert_valid_tier_name
add_tiers-step n e m acc h =
    let f : assert_valid_entry n e ≡ ok valid = (assert_valid_entry_iff n e).1 h.1 in
    ground (arith, h.0, f)

add_aliases-step :
    (n : Text) (e : RawAliasEntry) (m : Dict RawAliasEntry) (acc : Dict ModelAliasPreset)
    → IsAliasEntry n e
    → add_aliases ((n, e) ∷ m) acc ≡ add_aliases m (insert n (to_model_alias_preset e) acc)
unfolding add_aliases IsAliasEntry assert_not_reserved is_tier_name assert_custom_alias_prefix
add_aliases-step n e m acc h =
    let f : assert_valid_entry n e ≡ ok valid = (assert_valid_entry_iff n e).1 h.1 in
    let t : try_from_str n ≡ none = tier-at n h.0 in ground (arith, h.0, t, f)

taken-IsTierEntry :
    (n : Text) (e : RawAliasEntry) (t : TierName) (v : Checked)
    → assert_valid_tier_name n ≡ ok t
    → assert_valid_entry n e ≡ ok v
    → IsTierEntry n e
unfolding IsTierEntry assert_valid_tier_name
taken-IsTierEntry n e t v f g =
    let filled : IsFilled e = (assert_valid_entry_iff n e).0 (rw (← valid_only v) g) in
    elim (Option-cases (try_from_str n)) [ inl z ↦ ground (arith, z, f) | inr z ↦ (z, filled) ]

taken-IsAliasEntry :
    (n : Text) (e : RawAliasEntry) (u v : Checked)
    → assert_custom_alias_prefix n ≡ ok u
    → assert_valid_entry n e ≡ ok v
    → IsAliasEntry n e
unfolding IsAliasEntry assert_custom_alias_prefix
taken-IsAliasEntry n e u v f g =
    let filled : IsFilled e = (assert_valid_entry_iff n e).0 (rw (← valid_only v) g) in
    elim (Bool-cases (starts_with n (text "@"))) [
      | inl z ↦ (z, filled)
      | inr z ↦ ground (arith, z, f)
    ]

pub add_tiers-ok :
    (m : Dict RawAliasEntry) (acc : Dict ModelAliasPreset)
    → AllEntries IsTierEntry m
    → (r : Dict ModelAliasPreset) × (add_tiers m acc ≡ ok r)
unfolding add_tiers
add_tiers-ok [] acc a = (acc, refl)
add_tiers-ok ((n, e) ∷ m) acc a =
    let rest = add_tiers-ok m (insert n (to_model_alias_preset e) acc) a.1 in
    (rest.0, add_tiers-step n e m acc a.0 ∙ rest.1)

pub add_aliases-ok :
    (m : Dict RawAliasEntry) (acc : Dict ModelAliasPreset)
    → AllEntries IsAliasEntry m
    → (r : Dict ModelAliasPreset) × (add_aliases m acc ≡ ok r)
unfolding add_aliases
add_aliases-ok [] acc a = (acc, refl)
add_aliases-ok ((n, e) ∷ m) acc a =
    let rest = add_aliases-ok m (insert n (to_model_alias_preset e) acc) a.1 in
    (rest.0, add_aliases-step n e m acc a.0 ∙ rest.1)

-- A map that is taken has valid entries only, and a predicate that its presets satisfy is kept.
module _ {κ} (P : Text → ModelAliasPreset → Type κ) where
  pub add_tiers-AllEntries :
      ((n : Text) (e : RawAliasEntry) → IsTierEntry n e → P n (to_model_alias_preset e))
      → (m : Dict RawAliasEntry) (acc r : Dict ModelAliasPreset) → add_tiers m acc ≡ ok r
      → AllEntries P acc
      → AllEntries IsTierEntry m × AllEntries P r
  unfolding add_tiers
  add_tiers-AllEntries p [] acc r h a = (_, subst (AllEntries P) (ground (arith, h)) a)
  add_tiers-AllEntries p ((n, e) ∷ m) acc r h a =
      let s = bind-ok (assert_valid_tier_name n) _ r h in
      let t = bind-ok (assert_valid_entry n e) _ r s.2 in
      let here = taken-IsTierEntry n e s.0 t.0 s.1 t.1 in
      let rest =
        add_tiers-AllEntries p m (insert n (to_model_alias_preset e) acc) r t.2
          (AllEntries-insert P n (to_model_alias_preset e) acc (p n e here) a) in
      ((here, rest.0), rest.1)

  pub add_aliases-AllEntries :
      ((n : Text) (e : RawAliasEntry) → IsAliasEntry n e → P n (to_model_alias_preset e))
      → (m : Dict RawAliasEntry) (acc r : Dict ModelAliasPreset) → add_aliases m acc ≡ ok r
      → AllEntries P acc
      → AllEntries IsAliasEntry m × AllEntries P r
  unfolding add_aliases
  add_aliases-AllEntries p [] acc r h a = (_, subst (AllEntries P) (ground (arith, h)) a)
  add_aliases-AllEntries p ((n, e) ∷ m) acc r h a =
      let q = bind-ok (assert_not_reserved n) _ r h in
      let s = bind-ok (assert_custom_alias_prefix n) _ r q.2 in
      let t = bind-ok (assert_valid_entry n e) _ r s.2 in
      let here = taken-IsAliasEntry n e s.0 t.0 s.1 t.1 in
      let rest =
        add_aliases-AllEntries p m (insert n (to_model_alias_preset e) acc) r t.2
          (AllEntries-insert P n (to_model_alias_preset e) acc (p n e here) a) in
      ((here, rest.0), rest.1)
