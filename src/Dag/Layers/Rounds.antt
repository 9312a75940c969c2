-- ===== src/Dag/Layers/Rounds.antt =====
-- The rounds of `build_topological_layers` come to an end,
-- crates/har-dag-executor/src/dag_executor.rs: each node that a round frees had a positive degree.
use harness_agent_rs.Prelude.{
  ◌≡◌, ◌≢◌, refl, ◌∙◌, ℕ, zero, suc, ◌+◌, ◌≤◌, ◌==◌, Option, none, some, List, [], ◌∷◌, ◌++◌, Text,
  Dict, get, insert, get-insert, length, length-append, if◌then◌else◌, ok, err, Result-cases, arith,
  subst, All, inl, inr,
}
use harness_agent_rs.Schema.Node.{DagNode, id}
use harness_agent_rs.Dag.Layers.{
  out_of_fuel, or_default, lowered, Round, lower, lower_all, place, find_nodes, layers_from,
}

-- How many nodes wait for a dependency.
unfoldable pub positives : Dict ℕ → ℕ
positives [] = 0
positives ((k, d) ∷ m) = (if d == 0 then 0 else 1) + positives m

abbrev pub Known : Dict ℕ → Text → Type 0
Known m j = get j m ≢ none

positives-insert :
    (k : Text) (d : ℕ) (m : Dict ℕ)
    → get k m ≡ some (suc d)
    → positives (insert k d m) + (if d == 0 then 1 else 0) ≡ positives m
unfolding positives insert get
positives-insert k d [] h = cc
positives-insert k d ((j, e) ∷ m) h = ground (arith, positives-insert k d m)

pub insert-Known :
    {V : Type 0} (k j : Text) (v : V) (m : Dict V) → get j m ≢ none → get j (insert k v m) ≢ none
insert-Known k j v m h = rw (get-insert k j v m) (ground (arith, h))

-- A round frees as many nodes as stop waiting, and loses none.
abbrev pub Shrinks : Round → Round → Type 0
Shrinks r r' =
    (length r'.1 + positives r'.0 ≡ length r.1 + positives r.0)
    × ((j : Text) → Known r.0 j → Known r'.0 j)

pub All-Known :
    (r r' : Round) (ks : List Text) → Shrinks r r' → All (Known r.0) ks → All (Known r'.0) ks
All-Known r r' [] s h = tt
All-Known r r' (k ∷ ks) s (h, hs) = (s.1 k h, All-Known r r' ks s hs)

-- The round after a dependent has lost a dependency.
abbrev pub lowered_round : Text → ℕ → Dict ℕ → List Text → Round
lowered_round k d m next = (insert k d m, (if d == 0 then next ++ k ∷ [] else next))

lowered_round-Shrinks :
    (k : Text) (d : ℕ) (m : Dict ℕ) (next : List Text)
    → get k m ≡ some (suc d)
    → Shrinks (m, next) (lowered_round k d m next)
lowered_round-Shrinks k zero m next e =
    let p = positives-insert k 0 m e in
    let q = length-append next (k ∷ []) in (omega (arith, p, q), λ j h. insert-Known k j 0 m h)
lowered_round-Shrinks k (suc d) m next e =
    let p = positives-insert k (suc d) m e in
    (ground (arith, p), λ j h. insert-Known k j (suc d) m h)

pub lower-Shrinks :
    (k : Text) (m : Dict ℕ) (next : List Text) (o : Option ℕ) (r' : Round)
    → get k m ≡ o
    → o ≢ none
    → lower k (m, next) ≡ ok r'
    → Shrinks (m, next) r'
unfolding lower lowered
lower-Shrinks k m next none r' e h l = absurd (h refl)
lower-Shrinks k m next (some zero) r' e h l = absurd (ground (arith, e, l))
lower-Shrinks k m next (some (suc d)) r' e h l =
    let f : lowered_round k d m next ≡ r' = ground (arith, e, l) in
    subst (Shrinks (m, next)) f (lowered_round-Shrinks k d m next e)

Shrinks-trans : (a b c : Round) → Shrinks a b → Shrinks b c → Shrinks a c
Shrinks-trans a b c (p, f) (q, g) = (q ∙ p, λ j h. g j (f j h))

pub lower_all-Shrinks :
    (ks : List Text) (r r' : Round) → All (Known r.0) ks → lower_all ks r ≡ ok r' → Shrinks r r'
unfolding lower_all
lower_all-Shrinks [] r r' h l = subst (Shrinks r) (ground (arith, l)) (refl, λ j x. x)
lower_all-Shrinks (k ∷ ks) (m, next) r' (h, hs) l = elim (Result-cases (lower k (m, next))) [
  | inl (r, e) ↦
      let s = lower-Shrinks k m next (get k m) r refl h e in
      Shrinks-trans (m, next) r r' s
        (lower_all-Shrinks ks r r' (All-Known (m, next) r ks s hs) (ground (arith, e, l)))
  | inr (x, e) ↦ absurd (ground (arith, e, l))
]

-- The dependents of every node have a degree.
abbrev pub Closed : Dict (List Text) → Dict ℕ → Type 0
Closed dependents m = (k : Text) → All (Known m) (or_default (get k dependents))

pub Closed-Shrinks :
    (dependents : Dict (List Text)) (r r' : Round)
    → Shrinks r r'
    → Closed dependents r.0
    → Closed dependents r'.0
Closed-Shrinks dependents r r' s c k = All-Known r r' (or_default (get k dependents)) s (c k)

pub place-Shrinks :
    (dependents : Dict (List Text)) (ns : List DagNode) (r r' : Round)
    → Closed dependents r.0
    → place dependents ns r ≡ ok r'
    → Shrinks r r'
unfolding place
place-Shrinks dependents [] r r' c l = subst (Shrinks r) (ground (arith, l)) (refl, λ j x. x)
place-Shrinks dependents (n ∷ ns) r r' c l =
    elim (Result-cases (lower_all (or_default (get (id n) dependents)) r)) [
      | inl (q, e) ↦
          let s = lower_all-Shrinks (or_default (get (id n) dependents)) r q (c (id n)) e in
          Shrinks-trans r q r' s (
            place-Shrinks dependents ns q r' (Closed-Shrinks dependents r q s c)
              (ground (arith, e, l)))
      | inr (x, e) ↦ absurd (ground (arith, e, l))
    ]

lower-no_fuel : (k : Text) (r : Round) → lower k r ≢ err out_of_fuel
unfolding lower lowered
lower-no_fuel k (m, next) h = ground arith

lower_all-no_fuel : (ks : List Text) (r : Round) → lower_all ks r ≢ err out_of_fuel
unfolding lower_all
lower_all-no_fuel [] r h = ground arith
lower_all-no_fuel (k ∷ ks) r h = elim (Result-cases (lower k r)) [
  | inl (q, e) ↦ lower_all-no_fuel ks q (ground (arith, e, h))
  | inr (x, e) ↦ lower-no_fuel k r (ground (arith, e, h))
]

place-no_fuel :
    (dependents : Dict (List Text)) (ns : List DagNode) (r : Round)
    → place dependents ns r ≢ err out_of_fuel
unfolding place
place-no_fuel dependents [] r h = ground arith
place-no_fuel dependents (n ∷ ns) r h =
    elim (Result-cases (lower_all (or_default (get (id n) dependents)) r)) [
      | inl (q, e) ↦ place-no_fuel dependents ns q (ground (arith, e, h))
      | inr (x, e) ↦ lower_all-no_fuel (or_default (get (id n) dependents)) r (ground (arith, e, h))
    ]

-- The fuel that the rounds need: two more than the nodes that wait, or one if no node is free.
abbrev pub IsEnough : ℕ → List DagNode → Dict ℕ → Type 0
IsEnough fuel [] m = 1 ≤ fuel
IsEnough fuel (n ∷ ns) m = positives m + 2 ≤ fuel

enough : (ns : List DagNode) (fuel : ℕ) (m : Dict ℕ) → positives m + 2 ≤ fuel → IsEnough fuel ns m
enough [] fuel m h = omega (arith, h)
enough (n ∷ ns) fuel m h = h

next-IsEnough :
    (nodes : List DagNode) (fuel : ℕ) (m m' : Dict ℕ) (next : List Text)
    → positives m + 2 ≤ suc fuel
    → length next + positives m' ≡ 0 + positives m
    → IsEnough fuel (find_nodes next nodes) m'
unfolding find_nodes
next-IsEnough nodes fuel m m' [] a b = omega (arith, a)
next-IsEnough nodes fuel m m' (k ∷ ks) a b =
    enough (find_nodes (k ∷ ks) nodes) fuel m' (omega (arith, a, b))

module _ (nodes : List DagNode) (dependents : Dict (List Text)) where
  pub layers_from-no_fuel :
      (fuel : ℕ) (ready : List DagNode) (m : Dict ℕ)
      → Closed dependents m
      → IsEnough fuel ready m
      → layers_from nodes dependents fuel ready m ≢ err out_of_fuel
  unfolding layers_from
  layers_from-no_fuel zero [] m c e h = omega (arith, e)
  layers_from-no_fuel zero (n ∷ ns) m c e h = omega (arith, e)
  layers_from-no_fuel (suc fuel) [] m c e h = ground arith
  layers_from-no_fuel (suc fuel) (n ∷ ns) m c e h =
      elim (Result-cases (place dependents (n ∷ ns) (m, []))) [
        | inl (r, p) ↦
            let s = place-Shrinks dependents (n ∷ ns) (m, []) r c p in
            let rest =
              layers_from-no_fuel fuel (find_nodes r.1 nodes) r.0
                (Closed-Shrinks dependents (m, []) r s c)
                (next-IsEnough nodes fuel m r.0 r.1 e s.0) in
            elim (Result-cases (layers_from nodes dependents fuel (find_nodes r.1 nodes) r.0)) [
              | inl (l, q) ↦ absurd (ground (arith, p, q, h))
              | inr (x, q) ↦ rest (ground (arith, p, q, h))
            ]
        | inr (x, p) ↦ place-no_fuel dependents (n ∷ ns) (m, []) (ground (arith, p, h))
      ]
