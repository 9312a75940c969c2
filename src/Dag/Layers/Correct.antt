-- ===== src/Dag/Layers/Correct.antt =====
-- What `build_topological_layers` returns, crates/har-dag-executor/src/dag_executor.rs, for nodes with
-- different ids.
use harness_agent_rs.Prelude.{
  ◌≡◌, ◌≢◌, refl, sym, ap, ◌∙◌, subst, ℕ, ◌+◌, ◌≤◌, Bool, true, false, some, List, [], ◌∷◌, Text,
  text_eq, text_eq_iff, text_eq_refl, text_eq→eq, Dict, get, insert, get-insert, get-insert_self,
  keep, length, total, if◌then◌else◌, ok, Result-cases, arith, All, inl, inr, Bool-cases,
}
use harness_agent_rs.Schema.Node.{DagNode, id, depends_on}
use harness_agent_rs.Dag.Layers.{
  or_default, push_dependent, push_dependents, count_degrees, collect_dependents, is_free,
  layers_from, checked, build_topological_layers,
}
use harness_agent_rs.Dag.Layers.Rounds.{Known}
use harness_agent_rs.Dag.Layers.Start.{count_degrees-Known, collect-Holding, free-zero}
use harness_agent_rs.Dag.Layers.Degrees.{occurrences, occurrences-append, has, unseen, unseen-zero}
use harness_agent_rs.Dag.Layers.Order.{Fresh, Ordered, Counts, Related}
use harness_agent_rs.Dag.Layers.Sorted.{Ready, layers_from-Ordered}

-- None of the nodes has the id.
abbrev pub Others : Text → List DagNode → Type 0
Others k ns = All (λ x. text_eq k (id x) ≡ false) ns

count_degrees-other :
    (k : Text) (ns : List DagNode) (m : Dict ℕ) → Others k ns → get k (count_degrees ns m) ≡ get k m
unfolding count_degrees
count_degrees-other k [] m h = refl
count_degrees-other k (n ∷ ns) m (h, hs) =
    let g : text_eq (id n) k ≡ false =
      ground (arith, h, text_eq_iff (id n) k, text_eq_iff k (id n)) in
    count_degrees-other k ns (insert (id n) (length (depends_on n)) m) hs
    ∙ (get-insert (id n) k (length (depends_on n)) m ∙ rw g refl)

unseen-nil : (ds : List Text) → unseen [] ds ≡ length ds
unfolding unseen has
unseen-nil [] = refl
unseen-nil (d ∷ ds) = omega (arith, unseen-nil ds)

count_degrees-Counts :
    (ns : List DagNode) (m : Dict ℕ) → Fresh [] ns → Counts [] (count_degrees ns m) ns
unfolding count_degrees
count_degrees-Counts [] m f = tt
count_degrees-Counts (n ∷ ns) m (h, o, f) =
    let m' = insert (id n) (length (depends_on n)) m in
    (
      count_degrees-other (id n) ns m' o
          ∙ (get-insert_self (id n) (length (depends_on n)) m
              ∙ ap some (sym (unseen-nil (depends_on n)))),
      count_degrees-Counts ns m' f,
    )

-- How often `k` depends on `p`, as far as it has been collected.
abbrev pub listed : Text → Text → Dict (List Text) → ℕ
listed k p m = occurrences k (or_default (get p m))

push-listed :
    (k p d x : Text) (m : Dict (List Text))
    → listed k p (push_dependent d x m)
      ≡ listed k p m + (if text_eq x k then (if text_eq d p then 1 else 0) else 0)
unfolding push_dependent occurrences
push-listed k p d x m = elim (Bool-cases (text_eq d p)) [
  | inl e ↦
      let g = ap (λ t. occurrences k (or_default (get t m))) (text_eq→eq d p e) in
      let a = occurrences-append k (or_default (get d m)) (x ∷ []) in
      rw (get-insert, e) (ground (arith, a, g))
  | inr e ↦ rw (get-insert, e) (ground arith)
]

push_all-listed :
    (k p x : Text) (ds : List Text) (m : Dict (List Text))
    → listed k p (push_dependents ds x m)
      ≡ listed k p m + (if text_eq x k then occurrences p ds else 0)
unfolding push_dependents occurrences
push_all-listed k p x [] m = ground arith
push_all-listed k p x (d ∷ ds) m =
    let a = push_all-listed k p x ds (push_dependent d x m) in
    let b = push-listed k p d x m in ground (arith, a, b)

collect-other :
    (k p : Text) (ns : List DagNode) (m : Dict (List Text))
    → Others k ns
    → listed k p (collect_dependents ns m) ≡ listed k p m
unfolding collect_dependents
collect-other k p [] m h = refl
collect-other k p (n ∷ ns) m (h, hs) =
    let g : text_eq (id n) k ≡ false =
      ground (arith, h, text_eq_iff (id n) k, text_eq_iff k (id n)) in
    let a = collect-other k p ns (push_dependents (depends_on n) (id n) m) hs in
    let b = push_all-listed k p (id n) (depends_on n) m in ground (arith, a, b, g)

abbrev pub Absent : List DagNode → Dict (List Text) → Type 0
Absent ns m = All (λ n. (p : Text) → listed (id n) p m ≡ 0) ns

push-Absent :
    (n : DagNode) (ns : List DagNode) (m : Dict (List Text))
    → Others (id n) ns
    → Absent ns m
    → Absent ns (push_dependents (depends_on n) (id n) m)
push-Absent n [] m o a = tt
push-Absent n (x ∷ ns) m (o, os) (a, as') = (
  (λ p.
      let b = push_all-listed (id x) p (id n) (depends_on n) m in
      let c = a p in ground (arith, b, c, o)),
  push-Absent n ns m os as',
)

collect-Related :
    (ns : List DagNode) (m : Dict (List Text))
    → Fresh [] ns
    → Absent ns m
    → Related (collect_dependents ns m) ns
unfolding collect_dependents
collect-Related [] m f a = tt
collect-Related (n ∷ ns) m (h, o, f) (a, as') =
    let m' = push_dependents (depends_on n) (id n) m in
    (
      (λ p.
          let b = collect-other (id n) p ns m' o in
          let c = push_all-listed (id n) p (id n) (depends_on n) m in
          let d = a p in let e = text_eq_refl (id n) in ground (arith, b, c, d, e)),
      collect-Related ns m' f (push-Absent n ns m o as'),
    )

nil-Absent : (ns : List DagNode) → Absent ns []
unfolding occurrences get
nil-Absent [] = tt
nil-Absent (n ∷ ns) = ((λ p. refl), nil-Absent ns)

keep-Others :
    (p : DagNode → Bool) (k : Text) (ns : List DagNode) → Others k ns → Others k (keep p ns)
keep-Others p k [] h = tt
keep-Others p k (n ∷ ns) (h, hs) = elim (Bool-cases (p n)) [
  | inl e ↦ rw e (h, keep-Others p k ns hs)
  | inr e ↦ rw e (keep-Others p k ns hs)
]

count_zero : (x : ℕ) → some x ≡ some 0 → x ≡ 0
count_zero x h = ground arith

free-Ready :
    (m : Dict ℕ) (ns : List DagNode)
    → All (λ n. Known m (id n)) ns
    → Counts [] m ns
    → Fresh [] ns
    → Ready [] m (keep (is_free m) ns)
free-Ready m [] a c f = (tt, tt, tt)
free-Ready m (n ∷ ns) (a, as') (c, cs) (h, o, f) =
    let (x, y, w) = free-Ready m ns as' cs f in
    elim (Bool-cases (is_free m n)) [
      | inl e ↦
          let z = free-zero m n a e in
          rw e (
            (z, x),
            (h, keep-Others (is_free m) (id n) ns o, y),
            (unseen-zero [] (depends_on n) (count_zero (unseen [] (depends_on n)) (sym c ∙ z)), w),
          )
      | inr e ↦ rw e (x, y, w)
    ]

none_seen : (k : Text) → has [] k ≢ true
unfolding has
none_seen k h = ground arith

pub checked-ok :
    (nodes : List DagNode) (l ls : List (List DagNode))
    → checked nodes l ≡ ok ls
    → (l ≡ ls) × (length nodes ≤ total ls)
unfolding checked
checked-ok nodes l ls h = ground arith

-- If the nodes have different ids, each dependency of a node in a layer is the id of a node of an
-- earlier layer, no id comes twice in the layers, and they hold no fewer nodes than there are.
pub build_topological_layers-Ordered :
    (nodes : List DagNode) (ls : List (List DagNode))
    → Fresh [] nodes
    → build_topological_layers nodes ≡ ok ls
    → Ordered [] ls × (length nodes ≤ total ls)
unfolding build_topological_layers
build_topological_layers-Ordered nodes ls f h =
    let m = count_degrees nodes [] in
    let dependents = collect_dependents nodes [] in
    let known = count_degrees-Known nodes [] in
    let counts = count_degrees-Counts nodes [] f in
    let closed = collect-Holding (Known m) nodes [] known (λ k. tt) in
    let related = collect-Related nodes [] f (nil-Absent nodes) in
    elim (Result-cases
      (layers_from nodes dependents (length nodes + 1) (keep (is_free m) nodes) m)) [
        | inl (l, q) ↦
            let (e, size) = checked-ok nodes l ls (ground (arith, q, h)) in
            (
              subst (Ordered []) e (
                  layers_from-Ordered nodes dependents related (length nodes + 1)
                    (keep (is_free m) nodes) m [] l closed counts
                    (free-Ready m nodes known counts f) (λ k e. absurd (none_seen k e)) q),
              size,
            )
        | inr (x, q) ↦ absurd (ground (arith, q, h))
      ]
