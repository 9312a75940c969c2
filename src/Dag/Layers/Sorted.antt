-- ===== src/Dag/Layers/Sorted.antt =====
-- The layers of `build_topological_layers`, crates/har-dag-executor/src/dag_executor.rs, from the
-- first round to the last.
use harness_agent_rs.Prelude.{
  ◌≡◌, refl, sym, ap, ◌∙◌, subst, ℕ, zero, suc, true, false, Option, none, some, List, [], ◌∷◌,
  Text, text_eq, text_eq_iff, text_eq→eq, Dict, get, ok, Result-cases, arith, All, ◌⊎◌, inl, inr,
  Bool-cases,
}
use harness_agent_rs.Schema.Node.{DagNode, id, depends_on}
use harness_agent_rs.Dag.Layers.{place, find_node, find_nodes, layers_from}
use harness_agent_rs.Dag.Layers.Rounds.{Closed, Closed-Shrinks, place-Shrinks}
use harness_agent_rs.Dag.Layers.Degrees.{has, unseen, unseen-zero, Freed}
use harness_agent_rs.Dag.Layers.Order.{
  placed, Met, Fresh, Ordered, Counts, Related, Zeros, place-Placed,
}

abbrev pub AllZero : Dict ℕ → List DagNode → Type 0
AllZero m ns = All (λ n. get (id n) m ≡ some 0) ns

-- What holds of the nodes that are ready for a round.
abbrev pub Ready : List Text → Dict ℕ → List DagNode → Type 0
Ready seen m ns = AllZero m ns × Fresh seen ns × Met seen ns

find_node-All :
    (P : DagNode → Type 0) (k : Text) (nodes : List DagNode) (n : DagNode)
    → All P nodes
    → find_node k nodes ≡ some n
    → P n × (text_eq (id n) k ≡ true)
unfolding find_node
find_node-All P k [] n a h = absurd (ground (arith, h))
find_node-All P k (x ∷ xs) n (a, as') h = elim (Bool-cases (text_eq (id x) k)) [
  | inl e ↦ subst (λ y. P y × (text_eq (id y) k ≡ true)) (ground (arith, e, h)) (a, e)
  | inr e ↦ find_node-All P k xs n as' (ground (arith, e, h))
]

text_eq-apart : (k j i : Text) → text_eq j k ≡ false → text_eq i j ≡ true → text_eq k i ≡ false
text_eq-apart k j i h e =
    let p = text_eq→eq i j e in
    let q : text_eq k j ≡ false = ground (arith, h, text_eq_iff j k, text_eq_iff k j) in
    ap (text_eq k) p ∙ q

option_cases : {A : Type 0} (o : Option A) → (o ≡ none) ⊎ ((a : A) × (o ≡ some a))
option_cases none = inl refl
option_cases (some a) = inr (a, refl)

trivial : (ns : List DagNode) → All (λ _. Unit {0}) ns
trivial [] = tt
trivial (n ∷ ns) = (tt, trivial ns)

find_nodes-apart :
    (nodes : List DagNode) (k : Text) (ks : List Text)
    → has ks k ≡ false
    → All (λ x. text_eq k (id x) ≡ false) (find_nodes ks nodes)
unfolding find_nodes has
find_nodes-apart nodes k [] h = tt
find_nodes-apart nodes k (j ∷ ks) h =
    let rest = find_nodes-apart nodes k ks (ground (arith, h)) in
    elim (option_cases (find_node j nodes)) [
      | inl e ↦ rw e rest
      | inr (n, e) ↦
          let (u, t) = find_node-All (λ _. Unit) j nodes n (trivial nodes) e in
          rw e (text_eq-apart k j (id n) (ground (arith, h)) t, rest)
    ]

zero_count : (x : ℕ) → some x ≡ some 0 → x ≡ 0
zero_count x h = ground arith

Freed-Ready :
    (nodes : List DagNode) (seen : List Text) (m0 m : Dict ℕ) (ks : List Text)
    → Counts seen m nodes
    → Zeros m0 seen
    → Freed m0 m ks
    → Ready seen m (find_nodes ks nodes)
unfolding find_nodes
Freed-Ready nodes seen m0 m [] c z f = (tt, tt, tt)
Freed-Ready nodes seen m0 m (k ∷ ks) c z ((v, b), g, u, fs) =
    let (x, y, w) = Freed-Ready nodes seen m0 m ks c z fs in
    elim (option_cases (find_node k nodes)) [
      | inl e ↦ rw e (x, y, w)
      | inr (n, e) ↦
          let (count, t) =
            find_node-All (λ n. get (id n) m ≡ some (unseen seen (depends_on n))) k nodes n c e in
          let p = text_eq→eq (id n) k t in
          let free = ap (λ t. get t m) p ∙ g in
          let new : has seen (id n) ≡ false = elim (Bool-cases (has seen (id n))) [
            | inl s ↦ absurd (ground (arith, sym (ap (λ t. get t m0) p) ∙ z (id n) s, b))
            | inr s ↦ s
          ] in
          rw e (
            (free, x),
            (
              new,
              subst (λ t. All (λ x. text_eq t (id x) ≡ false) (find_nodes ks nodes)) (sym p)
                  (find_nodes-apart nodes k ks u),
              y,
            ),
            (
              unseen-zero seen (depends_on n)
                  (zero_count (unseen seen (depends_on n)) (sym count ∙ free)),
              w,
            ),
          )
    ]

Zeros-placed :
    (m : Dict ℕ) (ns : List DagNode) (seen : List Text)
    → AllZero m ns
    → Zeros m seen
    → Zeros m (placed ns seen)
unfolding has
Zeros-placed m [] seen a z = z
Zeros-placed m (n ∷ ns) seen (a, as') z = Zeros-placed m ns (id n ∷ seen) as' (λ k h.
    elim (Bool-cases (text_eq (id n) k)) [
      | inl e ↦ sym (ap (λ t. get t m) (text_eq→eq (id n) k e)) ∙ a
      | inr e ↦ z k (ground (arith, e, h))
    ])

module _ (nodes : List DagNode) (dependents : Dict (List Text))
    (related : Related dependents nodes) where
  pub layers_from-Ordered :
      (fuel : ℕ) (ns : List DagNode) (m : Dict ℕ) (seen : List Text) (ls : List (List DagNode))
      → Closed dependents m
      → Counts seen m nodes
      → Ready seen m ns
      → Zeros m seen
      → layers_from nodes dependents fuel ns m ≡ ok ls
      → Ordered seen ls
  unfolding layers_from
  layers_from-Ordered zero [] m seen ls c k r z h = absurd (ground (arith, h))
  layers_from-Ordered zero (n ∷ ns) m seen ls c k r z h = absurd (ground (arith, h))
  layers_from-Ordered (suc fuel) [] m seen ls c k r z h =
      let g : [] ≡ ls = ground (arith, h) in subst (Ordered seen) g tt
  layers_from-Ordered (suc fuel) (n ∷ ns) m seen ls c k (a, f, w) z h =
      elim (Result-cases (place dependents (n ∷ ns) (m, []))) [
        | inl (r, p) ↦
            let s = place-Shrinks dependents (n ∷ ns) (m, []) r c p in
            let seen' = placed (n ∷ ns) seen in
            let (k', (freed, backed), stay) =
              place-Placed nodes dependents related m (n ∷ ns) seen (m, []) r c f k
                (tt, λ j v e. (v, e)) p in
            let z' = Zeros-placed m (n ∷ ns) seen a z in
            let ready = Freed-Ready nodes seen' m r.0 r.1 k' z' freed in
            elim (Result-cases (layers_from nodes dependents fuel (find_nodes r.1 nodes) r.0)) [
              | inl (l, q) ↦
                  let rest =
                    layers_from-Ordered fuel (find_nodes r.1 nodes) r.0 seen' l
                      (Closed-Shrinks dependents (m, []) r s c) k' ready (λ j e. stay j (z' j e))
                      q in
                  let g : ((n ∷ ns) ∷ l) ≡ ls = ground (arith, p, q, h) in
                  subst (Ordered seen) g (w, f, rest)
              | inr (x, q) ↦ absurd (ground (arith, p, q, h))
            ]
        | inr (x, p) ↦ absurd (ground (arith, p, h))
      ]
