-- ===== src/Dag/Layers/Degrees.antt =====
-- What the rounds of `build_topological_layers` do to a degree,
-- crates/har-dag-executor/src/dag_executor.rs: it falls by the number of dependencies met.
use harness_agent_rs.Prelude.{
  ◌≡◌, refl, ap, ◌∙◌, ℕ, suc, ◌+◌, Bool, true, false, some, List, [], ◌∷◌, ◌++◌, Text, text_eq,
  text_eq_iff, text_eq_refl, text_eq→eq, Dict, get, insert, get-insert, any, if◌then◌else◌, arith,
  All, inl, inr, ◌⊎◌, Bool-cases,
}

-- How often a text is in a list.
unfoldable pub occurrences : Text → List Text → ℕ
occurrences k [] = 0
occurrences k (x ∷ xs) = (if text_eq x k then 1 else 0) + occurrences k xs

pub occurrences-append :
    (k : Text) (xs ys : List Text) → occurrences k (xs ++ ys) ≡ occurrences k xs + occurrences k ys
unfolding occurrences
occurrences-append k [] ys = omega arith
occurrences-append k (x ∷ xs) ys = omega (arith, occurrences-append k xs ys)

unfoldable pub has : List Text → Text → Bool
has xs k = any (λ x. text_eq x k) xs

-- How many entries of a list are not among those seen.
unfoldable pub unseen : List Text → List Text → ℕ
unfolding has
unseen seen [] = 0
unseen seen (d ∷ ds) = (if has seen d then 0 else 1) + unseen seen ds

pub unseen-cons :
    (p : Text) (seen ds : List Text)
    → has seen p ≡ false
    → unseen (p ∷ seen) ds + occurrences p ds ≡ unseen seen ds
unfolding unseen occurrences has
unseen-cons p seen [] h = omega arith
unseen-cons p seen (d ∷ ds) h = elim (Bool-cases (text_eq d p)) [
  | inl e ↦
      let f = text_eq→eq d p e in
      let g : has seen d ≡ false = ap (has seen) f ∙ h in
      let r = text_eq_refl p in
      let q : text_eq p d ≡ true = ap (text_eq p) f ∙ r in
      ground (arith, e, q, g, unseen-cons p seen ds h)
  | inr e ↦
      let q : text_eq p d ≡ false = ground (arith, e, text_eq_iff p d, text_eq_iff d p) in
      ground (arith, e, q, unseen-cons p seen ds h)
]

pub unseen-zero : (seen ds : List Text) → unseen seen ds ≡ 0 → All (λ d. has seen d ≡ true) ds
unfolding unseen
unseen-zero seen [] h = tt
unseen-zero seen (d ∷ ds) h = (ground (arith, h), unseen-zero seen ds (ground (arith, h)))

-- The degree of `k` after its dependencies on the listed nodes are met.
abbrev pub Falls : Text → List Text → Dict ℕ → Dict ℕ → Type 0
Falls k ks m m' =
    (v : ℕ) → get k m ≡ some v → (w : ℕ) × (get k m' ≡ some w) × (w + occurrences k ks ≡ v)

-- The ids that are freed: each waited in the first of three states of the degrees and is free in the
-- last, and none is listed twice.
abbrev pub Freed : Dict ℕ → Dict ℕ → List Text → Type 0
Freed m0 m [] = Unit
Freed m0 m (k ∷ ks) =
    ((v : ℕ) × (get k m0 ≡ some (suc v))) × (get k m ≡ some 0) × (has ks k ≡ false) × Freed m0 m ks

pub Freed-insert :
    (m0 m : Dict ℕ) (j : Text) (v : ℕ) (d : ℕ) (ks : List Text)
    → get j m ≡ some (suc v)
    → Freed m0 m ks
    → Freed m0 (insert j d m) ks
Freed-insert m0 m j v d [] h f = tt
Freed-insert m0 m j v d (k ∷ ks) h (b, z, u, fs) = (
  b,
  rw get-insert (elim (Bool-cases (text_eq j k)) [
    | inl e ↦ let g = ap (λ x. get x m) (text_eq→eq j k e) in absurd (ground (arith, g, h, z))
    | inr e ↦ rw e z
  ]),
  u,
  Freed-insert m0 m j v d ks h fs,
)

has-snoc :
    (ks : List Text) (j k : Text)
    → has (ks ++ j ∷ []) k ≡ false ⊎ (has ks k ≡ true) ⊎ (text_eq j k ≡ true)
unfolding has
has-snoc [] j k = ground arith
has-snoc (x ∷ xs) j k = ground (arith, has-snoc xs j k)

pub Freed-snoc :
    (m0 m : Dict ℕ) (j : Text) (v : ℕ) (ks : List Text)
    → get j m0 ≡ some (suc v)
    → get j m ≡ some 0
    → has ks j ≡ false
    → Freed m0 m ks
    → Freed m0 m (ks ++ j ∷ [])
unfolding has
Freed-snoc m0 m j v [] a z h f = ((v, a), z, refl, tt)
Freed-snoc m0 m j v (k ∷ ks) a z h (b, c, u, fs) = (
  b,
  c,
  ground (arith, has-snoc ks j k, u, h, text_eq_iff j k, text_eq_iff k j),
  Freed-snoc m0 m j v ks a z (ground (arith, h)) fs,
)
