-- ===== src/Dag/Layers/Complete.antt =====
-- The layers of `build_topological_layers`, crates/har-dag-executor/src/dag_executor.rs, hold every
-- node: they are among the nodes, no id comes twice, and they are as many.
use harness_agent_rs.Prelude.{
  ◌≡◌, refl, subst, ℕ, zero, suc, ◌+◌, ◌≤◌, Bool, true, some, List, [], ◌∷◌, Text, text_eq,
  text_eq_refl, Dict, keep, length, total, ok, bind-ok, Bool-cases, Option-cases, arith, All,
  All-map, inl, inr,
}
use harness_agent_rs.Schema.Node.{DagNode, id}
use harness_agent_rs.Dag.Layers.{
  place, find_node, find_nodes, layers_from, checked, build_topological_layers, is_free,
  count_degrees, collect_dependents,
}
use harness_agent_rs.Dag.Layers.Degrees.{has}
use harness_agent_rs.Dag.Layers.Order.{placed, Fresh, Ordered, Fresh-cons}
use harness_agent_rs.Dag.Layers.Distinct.{Distinct, Inside, none_missing}
use harness_agent_rs.Dag.Layers.Correct.{build_topological_layers-Ordered, checked-ok}

-- All the ids of some layers, on top of those seen.
abbrev pub placed_all : List (List DagNode) → List Text → List Text
placed_all [] seen = seen
placed_all (l ∷ ls) seen = placed_all ls (placed l seen)

placed-Distinct :
    (l : List DagNode) (seen : List Text) → Distinct seen → Fresh seen l → Distinct (placed l seen)
placed-Distinct [] seen d f = d
placed-Distinct (n ∷ ns) seen d f =
    placed-Distinct ns (id n ∷ seen) (f.0, d) (Fresh-cons (id n) seen ns f.1 f.2)

placed_all-Distinct :
    (ls : List (List DagNode)) (seen : List Text)
    → Distinct seen
    → Ordered seen ls
    → Distinct (placed_all ls seen)
placed_all-Distinct [] seen d r = d
placed_all-Distinct (l ∷ ls) seen d r =
    placed_all-Distinct ls (placed l seen) (placed-Distinct l seen d r.1) r.2

placed-length :
    (l : List DagNode) (seen : List Text) → length (placed l seen) ≡ length l + length seen
placed-length [] seen = omega arith
placed-length (n ∷ ns) seen = omega (arith, placed-length ns (id n ∷ seen))

placed_all-length :
    (ls : List (List DagNode)) (seen : List Text)
    → length (placed_all ls seen) ≡ total ls + length seen
placed_all-length [] seen = omega arith
placed_all-length (l ∷ ls) seen =
    omega (arith, placed_all-length ls (placed l seen), placed-length l seen)

abbrev pub ids : List DagNode → List Text
ids [] = []
ids (n ∷ ns) = id n ∷ ids ns

ids-length : (ns : List DagNode) → length (ids ns) ≡ length ns
ids-length [] = refl
ids-length (n ∷ ns) = omega (arith, ids-length ns)

-- Nodes whose ids are among some.
abbrev pub Named : List Text → List DagNode → Type 0
Named ks ns = All (λ n. has ks (id n) ≡ true) ns

self-Named : (ns : List DagNode) → Named (ids ns) ns
unfolding has
self-Named ns = go ns ns (λ k h. h)
  where
    go :
        (all part : List DagNode)
        → ((k : Text) → has (ids part) k ≡ true → has (ids all) k ≡ true)
        → Named (ids all) part
    go all [] f = tt
    go all (n ∷ ns) f =
        (f (id n) (ground (arith, text_eq_refl (id n))), go all ns (λ k h. f k (ground (arith, h))))

keep-Named :
    (ks : List Text) (p : DagNode → Bool) (ns : List DagNode) → Named ks ns → Named ks (keep p ns)
keep-Named ks p [] h = tt
keep-Named ks p (n ∷ ns) h = elim (Bool-cases (p n)) [
  | inl e ↦ rw e (h.0, keep-Named ks p ns h.1)
  | inr e ↦ rw e (keep-Named ks p ns h.1)
]

find-Named :
    (ks : List Text) (k : Text) (ns : List DagNode) (n : DagNode)
    → Named ks ns
    → find_node k ns ≡ some n
    → has ks (id n) ≡ true
unfolding find_node
find-Named ks k [] n h e = cc
find-Named ks k (m ∷ ns) n h e = elim (Bool-cases (text_eq (id m) k)) [
  | inl f ↦ let same : m ≡ n = ground (arith, f, e) in subst (λ x. has ks (id x) ≡ true) same h.0
  | inr f ↦ find-Named ks k ns n h.1 (ground (arith, f, e))
]

find_nodes-Named :
    (ks js : List Text) (ns : List DagNode) → Named ks ns → Named ks (find_nodes js ns)
unfolding find_nodes
find_nodes-Named ks [] ns h = tt
find_nodes-Named ks (j ∷ js) ns h = elim (Option-cases (find_node j ns)) [
  | inl e ↦ rw e (find_nodes-Named ks js ns h)
  | inr (n, e) ↦ rw e (find-Named ks j ns n h e, find_nodes-Named ks js ns h)
]

layers_from-Named :
    (nodes : List DagNode) (dependents : Dict (List Text)) (ks : List Text) (fuel : ℕ)
    (ready : List DagNode) (m : Dict ℕ) (ls : List (List DagNode))
    → Named ks nodes
    → Named ks ready
    → layers_from nodes dependents fuel ready m ≡ ok ls
    → All (Named ks) ls
unfolding layers_from
layers_from-Named nodes dependents ks zero ready m ls h r e = cc
layers_from-Named nodes dependents ks (suc fuel) [] m ls h r e =
    let same : [] ≡ ls = ground (arith, e) in subst (All (Named ks)) same tt
layers_from-Named nodes dependents ks (suc fuel) (n ∷ ns) m ls h r e =
    let a = bind-ok (place dependents (n ∷ ns) (m, [])) _ ls e in
    let b = bind-ok (layers_from nodes dependents fuel (find_nodes a.0.1 nodes) a.0.0) _ ls a.2 in
    let same : (n ∷ ns) ∷ b.0 ≡ ls = ground (arith, b.2) in
    let rest =
      layers_from-Named nodes dependents ks fuel (find_nodes a.0.1 nodes) a.0.0 b.0 h
        (find_nodes-Named ks a.0.1 nodes h) b.1 in
    subst (All (Named ks)) same (r, rest)

placed-Inside :
    (ks : List Text) (l : List DagNode) (seen : List Text)
    → Inside ks seen
    → Named ks l
    → Inside ks (placed l seen)
placed-Inside ks [] seen s h = s
placed-Inside ks (n ∷ ns) seen s h = placed-Inside ks ns (id n ∷ seen) (h.0, s) h.1

placed_all-Inside :
    (ks : List Text) (ls : List (List DagNode)) (seen : List Text)
    → Inside ks seen
    → All (Named ks) ls
    → Inside ks (placed_all ls seen)
placed_all-Inside ks [] seen s h = s
placed_all-Inside ks (l ∷ ls) seen s h =
    placed_all-Inside ks ls (placed l seen) (placed-Inside ks l seen s h.0) h.1

built-Named :
    (nodes : List DagNode) (ls : List (List DagNode))
    → build_topological_layers nodes ≡ ok ls
    → All (Named (ids nodes)) ls
unfolding build_topological_layers
built-Named nodes ls h =
    let a =
      bind-ok
        (layers_from nodes (collect_dependents nodes []) (length nodes + 1)
          (keep (is_free (count_degrees nodes [])) nodes) (count_degrees nodes []))
        (checked nodes) ls h in
    let same = (checked-ok nodes a.0 ls a.2).0 in
    let self = self-Named nodes in
    subst (All (Named (ids nodes))) same (
      layers_from-Named nodes (collect_dependents nodes []) (ids nodes) (length nodes + 1)
        (keep (is_free (count_degrees nodes [])) nodes) (count_degrees nodes []) a.0 self
        (keep-Named (ids nodes) (is_free (count_degrees nodes [])) nodes self) a.1)

-- Every node of a workflow is in one of its layers.
pub layers_hold_all :
    (nodes : List DagNode) (ls : List (List DagNode))
    → Fresh [] nodes
    → build_topological_layers nodes ≡ ok ls
    → Named (placed_all ls []) nodes
layers_hold_all nodes ls f h =
    let o = build_topological_layers-Ordered nodes ls f h in
    let all = placed_all ls [] in
    let size : length (ids nodes) ≤ length all =
      omega (arith, o.1, ids-length nodes, placed_all-length ls []) in
    All-map (λ n. has (ids nodes) (id n) ≡ true) (λ n. has all (id n) ≡ true)
      (λ n e.
        none_missing all (ids nodes) (id n) (placed_all-Distinct ls [] tt o.0)
          (placed_all-Inside (ids nodes) ls [] tt (built-Named nodes ls h)) size e)
      nodes (self-Named nodes)
