-- ===== src/Prelude/Dicts.antt =====
-- `HashMap<String, V>` as an association list. `insert` replaces the value of a key that is there.
use mathlib.Core.Path.{◌≡◌, refl, subst}
use mathlib.Core.Option.{Option, none, some}
use mathlib.Core.Logic.{inl, inr}
use mathlib.Core.List.{List, [], ◌∷◌}
use native.Mathlib.Omega.{arith}
use harness_agent_rs.Prelude.Tests.{if◌then◌else◌, Bool-cases}
use harness_agent_rs.Prelude.Lists.{All}
use harness_agent_rs.Prelude.Texts.{Text, text_eq, text_eq_iff, text_eq_refl}

abbrev pub Dict {ℓ} : Type ℓ → Type ℓ
Dict V = List (Text × V)

module _ {ℓ} {V : Type ℓ} where
  unfoldable pub get : Text → Dict V → Option V
  get k [] = none
  get k ((j, v) ∷ m) = if text_eq j k then some v else get k m

  unfoldable pub insert : Text → V → Dict V → Dict V
  insert k v [] = (k, v) ∷ []
  insert k v ((j, w) ∷ m) = if text_eq j k then (k, v) ∷ m else (j, w) ∷ insert k v m

  pub get-insert :
      (k j : Text) (v : V) (m : Dict V)
      → get j (insert k v m) ≡ (if text_eq k j then some v else get j m)
  unfolding get insert
  get-insert k j v [] = refl
  get-insert k j v ((i, w) ∷ m) =
      ground (arith, text_eq_iff k j, text_eq_iff i k, text_eq_iff i j, get-insert k j v m)

  pub get-insert_self : (k : Text) (v : V) (m : Dict V) → get k (insert k v m) ≡ some v
  get-insert_self k v m = rw (get-insert, text_eq_refl k) refl

-- A predicate on the entries: an insertion keeps it, and a lookup finds it.
module _ {ℓ κ} {V : Type ℓ} (P : Text → V → Type κ) where
  abbrev pub AllEntries : Dict V → Type κ
  AllEntries = All (λ e. P e.0 e.1)

  pub AllEntries-insert :
      (k : Text) (v : V) (m : Dict V) → P k v → AllEntries m → AllEntries (insert k v m)
  unfolding insert
  AllEntries-insert k v [] h a = (h, a)
  AllEntries-insert k v ((j, w) ∷ m) h a = elim (Bool-cases (text_eq j k)) [
    | inl e ↦ rw e (h, a.1)
    | inr e ↦ rw e (a.0, AllEntries-insert k v m h a.1)
  ]

  pub AllEntries-get : (k : Text) (v : V) (m : Dict V) → AllEntries m → get k m ≡ some v → P k v
  unfolding get
  AllEntries-get k v [] a h = cc
  AllEntries-get k v ((j, w) ∷ m) a h = elim (Bool-cases (text_eq j k)) [
    | inl e ↦
        let key : j ≡ k = (text_eq_iff j k).0 e in
        let same : w ≡ v = ground (arith, e, h) in
        subst (λ i. P i v) key (subst (λ x. P j x) same a.0)
    | inr e ↦ AllEntries-get k v m a.1 (ground (arith, e, h))
  ]
