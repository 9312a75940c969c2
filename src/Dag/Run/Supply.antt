-- ===== src/Dag/Run/Supply.antt =====
-- The layers and the run together, crates/har-dag-executor/src/dag_executor.rs: every node runs when
-- its dependencies are on record, and they do not change any more.
use harness_agent_rs.Prelude.{
  ◌≡◌, refl, sym, subst, ◌∙◌, inl, inr, arith, ℕ, suc, Bool, true, false, Option, some, List, [],
  ◌∷◌, Text, text_eq, text_eq_iff, Dict, get, get-insert, All, All-map, ltb, length, Bool-cases,
}
use harness_agent_rs.Schema.Output.{NodeOutput}
use harness_agent_rs.Schema.Node.{DagNode, id, depends_on}
use harness_agent_rs.Condition.Total.{Readers}
use harness_agent_rs.Dag.Gate.{gate, settled, pass}
use harness_agent_rs.Dag.Layers.Degrees.{has}
use harness_agent_rs.Dag.Layers.Order.{placed, Fresh, Ordered}
use harness_agent_rs.Dag.Run.{
  StatusRead, Progress, collect, collect_all, enter_layer, stop_detected, run_node, results,
  run_layer, run_layers,
}
use harness_agent_rs.Dag.Run.Stopping.{
  enter_layer-outputs, Apart, ApartAll, outputs_of, Quiet, run_layers-get,
}

-- There is an output for the id.
abbrev pub Recorded : Text → Dict NodeOutput → Type 0
Recorded k m = (o : NodeOutput) × (get k m ≡ some o)

-- All the ids seen so far have an output.
abbrev pub AllRecorded : List Text → Dict NodeOutput → Type 0
AllRecorded seen m = (k : Text) → has seen k ≡ true → Recorded k m

has-other :
    (p k : Text) (seen : List Text)
    → has (p ∷ seen) k ≡ true
    → text_eq p k ≡ false
    → has seen k ≡ true
unfolding has
has-other p k seen h e = ground (arith, h, e)

seen_apart :
    (k j : Text) (seen : List Text) → has seen k ≡ true → has seen j ≡ false → text_eq j k ≡ false
seen_apart k j seen h f = elim (Bool-cases (text_eq j k)) [
  | inr e ↦ e
  | inl e ↦
      let same : has seen j ≡ true =
        subst (λ x. has seen x ≡ true) (sym ((text_eq_iff j k).0 e)) h in
      ground (arith, same, f)
]

Fresh-Apart :
    (k : Text) (seen : List Text) (l : List DagNode) → has seen k ≡ true → Fresh seen l → Apart k l
Fresh-Apart k seen [] h f = tt
Fresh-Apart k seen (n ∷ ns) h f = (seen_apart k (id n) seen h f.0, Fresh-Apart k seen ns h f.2)

placed-has :
    (k : Text) (seen : List Text) (l : List DagNode)
    → has seen k ≡ true
    → has (placed l seen) k ≡ true
unfolding has
placed-has k seen [] h = h
placed-has k seen (n ∷ ns) h = placed-has k (id n ∷ seen) ns (ground (arith, h))

Ordered-ApartAll :
    (k : Text) (seen : List Text) (ls : List (List DagNode))
    → has seen k ≡ true
    → Ordered seen ls
    → ApartAll k ls
Ordered-ApartAll k seen [] h r = tt
Ordered-ApartAll k seen (l ∷ ls) h r =
    (Fresh-Apart k seen l h r.1, Ordered-ApartAll k (placed l seen) ls (placed-has k seen l h) r.2)

module _ (readers : Readers) (prior : Dict Text)
    (execute : DagNode → Dict NodeOutput → Bool → Option Text → Option NodeOutput) where
  -- No task panics.
  unfoldable pub Tireless : Type 0
  Tireless =
      (n : DagNode) (outputs : Dict NodeOutput) (b : Bool) (s : Option Text)
      → (o : NodeOutput) × (execute n outputs b s ≡ some o)

  run_node-some :
      Tireless
      → (b : Bool) (p : Progress) (n : DagNode)
      → (o : NodeOutput) × (run_node readers prior execute b p n ≡ some o)
  unfolding run_node Tireless
  run_node-some t b p n =
      elim (gate readers prior n p.node_outputs)
        as (λ g.
          (o : NodeOutput) × (elim g [
            | settled reason r ↦ some r
            | pass outputs ↦ execute n outputs b p.last_sequential_session_id
          ]
            ≡ some o)) [
              | settled reason r ↦ (r, refl)
              | pass outputs ↦ t n outputs b p.last_sequential_session_id
            ]

  -- One result adds its id to those recorded.
  collect-AllRecorded :
      (b : Bool) (k : Text) (o : NodeOutput) (seen : List Text) (q : Progress)
      → AllRecorded seen q.node_outputs
      → AllRecorded (k ∷ seen) (collect b k (some o) q).node_outputs
  unfolding collect
  collect-AllRecorded b k o seen q a j h = elim (Bool-cases (text_eq k j)) [
    | inl e ↦ (o, rw (get-insert, e) refl)
    | inr e ↦ let before = a j (has-other k j seen h e) in (before.0, rw (get-insert, e) before.1)
  ]

  results-AllRecorded :
      Tireless
      → (b : Bool) (p q : Progress) (ns : List DagNode) (seen : List Text)
      → AllRecorded seen q.node_outputs
      → AllRecorded
          (placed ns seen)
          (collect_all b (results readers prior execute b p ns) q).node_outputs
  unfolding collect_all results
  results-AllRecorded t b p q [] seen a = a
  results-AllRecorded t b p q (n ∷ ns) seen a =
      let r = run_node-some t b p n in
      results-AllRecorded t b p (collect b (id n) (run_node readers prior execute b p n) q) ns
        (id n ∷ seen)
        (subst (λ x. AllRecorded (id n ∷ seen) (collect b (id n) x q).node_outputs) (sym r.1)
          (collect-AllRecorded b (id n) r.0 seen q a))

  pub run_layer-AllRecorded :
      Tireless
      → (l : List DagNode) (p : Progress) (seen : List Text) → AllRecorded seen p.node_outputs
      → AllRecorded (placed l seen) (run_layer readers prior execute l p).node_outputs
  unfolding run_layer
  run_layer-AllRecorded t l p seen a =
      let b = ltb 1 (length l) in
      results-AllRecorded t b (enter_layer b p) (enter_layer b p) l seen
        (subst (AllRecorded seen) (sym (enter_layer-outputs b p)) a)

  -- Layer by layer: when a node runs, each of its dependencies is on record, with the output that it
  -- has in the end.
  abbrev pub Supplied : Dict NodeOutput → List (List DagNode) → Progress → Type 0
  Supplied final [] p = Unit
  Supplied final (l ∷ ls) p =
      All
        (λ n.
          All (λ d. (o : NodeOutput) × (get d p.node_outputs ≡ some o) × (get d final ≡ some o))
            (depends_on n))
        l
      × Supplied final ls (run_layer readers prior execute l p)

  -- All the ids of the layers.
  module _ (status_after : ℕ → StatusRead) where
    pub goes_on :
        (l : List DagNode) (ls : List (List DagNode)) (i : ℕ) (p : Progress)
        → stop_detected (status_after i) ≡ false
        → run_layers readers prior execute status_after i (l ∷ ls) p
          ≡ run_layers readers prior execute status_after
              (suc i)
              ls
              (run_layer readers prior execute l p)
    unfolding run_layers
    goes_on l ls i p h = rw h refl

    -- An id that has been seen keeps its output.
    still :
        (l : List DagNode) (ls : List (List DagNode)) (seen : List Text) (i : ℕ) (p : Progress)
        → Ordered seen (l ∷ ls)
        → AllRecorded seen p.node_outputs
        → (d : Text) → has seen d ≡ true
        → (o : NodeOutput) × (get d p.node_outputs ≡ some o)
          × (get d (outputs_of (run_layers readers prior execute status_after i (l ∷ ls) p))
              ≡ some o)
    still l ls seen i p r a d h =
        let o = a d h in
        (
          o.0,
          o.1,
          run_layers-get readers prior execute status_after d (l ∷ ls) i p
                (Ordered-ApartAll d seen (l ∷ ls) h r)
              ∙ o.1,
        )

    pub layers-Supplied :
        Tireless
        → (ls : List (List DagNode)) (seen : List Text) (i : ℕ) (p : Progress) → Ordered seen ls
        → Quiet status_after i ls
        → AllRecorded seen p.node_outputs
        → Supplied (outputs_of (run_layers readers prior execute status_after i ls p)) ls p
    layers-Supplied t [] seen i p r q a = tt
    layers-Supplied t (l ∷ ls) seen i p r q a =
        let final = outputs_of (run_layers readers prior execute status_after i (l ∷ ls) p) in
        (
          All-map _ _
              (λ n h.
                All-map _
                  (λ d. (o : NodeOutput) × (get d p.node_outputs ≡ some o) × (get d final ≡ some o))
                  (still l ls seen i p r a) (depends_on n) h)
              l r.0,
          subst (λ x. Supplied (outputs_of x) ls (run_layer readers prior execute l p))
              (sym (goes_on l ls i p q.0))
              (layers-Supplied t ls (placed l seen) (suc i) (run_layer readers prior execute l p)
                r.2 q.1 (run_layer-AllRecorded t l p seen a)),
        )
