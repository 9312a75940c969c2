-- ===== src/Dag/Layers/Order.antt =====
-- The layers of `build_topological_layers`, crates/har-dag-executor/src/dag_executor.rs, are in the
-- order of the dependencies.
use harness_agent_rs.Prelude.{
  ◌≡◌, ap, ◌∙◌, subst, ℕ, true, false, some, List, [], ◌∷◌, Text, text_eq, Dict, get, ok,
  Result-cases, arith, All, inl, inr,
}
use harness_agent_rs.Schema.Node.{DagNode, id, depends_on}
use harness_agent_rs.Dag.Layers.{or_default, Round, lower_all, place}
use harness_agent_rs.Dag.Layers.Rounds.{Closed, Closed-Shrinks, lower_all-Shrinks}
use harness_agent_rs.Dag.Layers.Degrees.{occurrences, has, unseen, unseen-cons, Falls}
use harness_agent_rs.Dag.Layers.Lowering.{Good, lower_all-Lowers}

-- The ids seen once a layer is placed.
abbrev pub placed : List DagNode → List Text → List Text
placed [] seen = seen
placed (n ∷ ns) seen = placed ns (id n ∷ seen)

-- All dependencies have been seen.
abbrev pub Met : List Text → List DagNode → Type 0
Met seen ns = All (λ n. All (λ d. has seen d ≡ true) (depends_on n)) ns

-- The nodes have different ids, and none has been seen.
abbrev pub Fresh : List Text → List DagNode → Type 0
Fresh seen [] = Unit
Fresh seen (n ∷ ns) =
    (has seen (id n) ≡ false) × All (λ x. text_eq (id n) (id x) ≡ false) ns × Fresh seen ns

-- Every layer's dependencies are in the layers before it, and no node comes twice.
abbrev pub Ordered : List Text → List (List DagNode) → Type 0
Ordered seen [] = Unit
Ordered seen (l ∷ ls) = Met seen l × Fresh seen l × Ordered (placed l seen) ls

-- The degree of each node is the number of its dependencies that have not been seen.
abbrev pub Counts : List Text → Dict ℕ → List DagNode → Type 0
Counts seen m nodes = All (λ n. get (id n) m ≡ some (unseen seen (depends_on n))) nodes

-- The dependents of `p` are the nodes that depend on it, as often as they do.
abbrev pub Related : Dict (List Text) → List DagNode → Type 0
Related dependents nodes =
    All
      (λ n.
        (p : Text)
        → occurrences (id n) (or_default (get p dependents)) ≡ occurrences p (depends_on n))
      nodes

abbrev pub Zeros : Dict ℕ → List Text → Type 0
Zeros m seen = (k : Text) → has seen k ≡ true → get k m ≡ some 0

pub Fresh-cons :
    (p : Text) (seen : List Text) (ns : List DagNode)
    → All (λ x. text_eq p (id x) ≡ false) ns
    → Fresh seen ns
    → Fresh (p ∷ seen) ns
unfolding has
Fresh-cons p seen [] a f = tt
Fresh-cons p seen (n ∷ ns) (a, as') (f, g, h) =
    (ground (arith, a, f), g, Fresh-cons p seen ns as' h)

Counts-step :
    (p : Text) (seen : List Text) (dependents : Dict (List Text)) (m m' : Dict ℕ)
    (nodes : List DagNode)
    → has seen p ≡ false
    → Related dependents nodes
    → ((j : Text) → Falls j (or_default (get p dependents)) m m')
    → Counts seen m nodes
    → Counts (p ∷ seen) m' nodes
Counts-step p seen dependents m m' [] h r f c = tt
Counts-step p seen dependents m m' (n ∷ ns) h (r, rs) f (c, cs) =
    let (w, e, q) = f (id n) (unseen seen (depends_on n)) c in
    let u = unseen-cons p seen (depends_on n) h in
    let a = r p in
    let i : w ≡ unseen (p ∷ seen) (depends_on n) = omega (arith, q, u, a) in
    (e ∙ ap some i, Counts-step p seen dependents m m' ns h rs f cs)

stays-zero :
    (j : Text) (ks : List Text) (m m' : Dict ℕ)
    → Falls j ks m m'
    → get j m ≡ some 0
    → get j m' ≡ some 0
stays-zero j ks m m' f h =
    let (w, e, q) = f 0 h in let z : w ≡ 0 = omega (arith, q) in e ∙ ap some z

module _ (nodes : List DagNode) (dependents : Dict (List Text)) (related : Related dependents nodes)
    (m0 : Dict ℕ) where
  -- What a round has done once some of its nodes are placed.
  abbrev pub Placed : List Text → Round → Round → Type 0
  Placed seen r r' =
      Counts seen r'.0 nodes × Good m0 r' × ((j : Text) → get j r.0 ≡ some 0 → get j r'.0 ≡ some 0)

  pub place-Placed :
      (ns : List DagNode) (seen : List Text) (r r' : Round)
      → Closed dependents r.0
      → Fresh seen ns
      → Counts seen r.0 nodes
      → Good m0 r
      → place dependents ns r ≡ ok r'
      → Placed (placed ns seen) r r'
  unfolding place
  place-Placed [] seen r r' c f k g l = subst (Placed seen r) (ground (arith, l)) (k, g, λ j z. z)
  place-Placed (n ∷ ns) seen r r' c (f, a, fs) k g l =
      elim (Result-cases (lower_all (or_default (get (id n) dependents)) r)) [
        | inl (q, e) ↦
            let ks = or_default (get (id n) dependents) in
            let (g', falls) = lower_all-Lowers m0 ks r q (c (id n)) g e in
            let s = lower_all-Shrinks ks r q (c (id n)) e in
            let k' = Counts-step (id n) seen dependents r.0 q.0 nodes f related falls k in
            let (k'', g'', z) =
              place-Placed ns (id n ∷ seen) q r' (Closed-Shrinks dependents r q s c)
                (Fresh-cons (id n) seen ns a fs) k' g' (ground (arith, e, l)) in
            (k'', g'', λ j h. z j (stays-zero j ks r.0 q.0 (falls j) h))
        | inr (x, e) ↦ absurd (ground (arith, e, l))
      ]
