-- ===== src/Dag/Layers/Start.antt =====
-- What the first round of `build_topological_layers` starts from,
-- crates/har-dag-executor/src/dag_executor.rs, and that its loop ends.
use harness_agent_rs.Prelude.{
  ◌≡◌, ◌≢◌, ℕ, suc, ◌+◌, ◌≤◌, true, some, List, [], ◌∷◌, ◌++◌, Text, text_eq, Dict, get, insert,
  get-insert, get-insert_self, keep, length, err, Result-cases, arith, All, inl, inr, Bool-cases,
}
use harness_agent_rs.Schema.Node.{DagNode, id, depends_on}
use harness_agent_rs.Dag.Layers.{
  out_of_fuel, or_default, push_dependent, push_dependents, count_degrees, collect_dependents,
  is_free, layers_from, checked, build_topological_layers,
}
use harness_agent_rs.Dag.Layers.Rounds.{
  positives, Known, IsEnough, insert-Known, layers_from-no_fuel,
}

count_degrees-keeps :
    (ns : List DagNode) (m : Dict ℕ) (j : Text) → Known m j → Known (count_degrees ns m) j
unfolding count_degrees
count_degrees-keeps [] m j h = h
count_degrees-keeps (n ∷ ns) m j h =
    count_degrees-keeps ns (insert (id n) (length (depends_on n)) m) j
      (insert-Known (id n) j (length (depends_on n)) m h)

pub count_degrees-Known :
    (ns : List DagNode) (m : Dict ℕ) → All (λ n. Known (count_degrees ns m) (id n)) ns
unfolding count_degrees
count_degrees-Known [] m = tt
count_degrees-Known (n ∷ ns) m =
    let m' = insert (id n) (length (depends_on n)) m in
    let e = get-insert_self (id n) (length (depends_on n)) m in
    (count_degrees-keeps ns m' (id n) (λ h. ground (arith, e, h)), count_degrees-Known ns m')

insert-length :
    {V : Type 0} (k : Text) (v : V) (m : Dict V) → length (insert k v m) ≤ suc (length m)
unfolding insert
insert-length k v [] = omega arith
insert-length k v ((j, w) ∷ m) = ground (arith, insert-length k v m)

count_degrees-length :
    (ns : List DagNode) (m : Dict ℕ) → length (count_degrees ns m) ≤ length ns + length m
unfolding count_degrees
count_degrees-length [] m = omega arith
count_degrees-length (n ∷ ns) m =
    let d = length (depends_on n) in
    let a = count_degrees-length ns (insert (id n) d m) in
    let b = insert-length (id n) d m in omega (arith, a, b)

positives-length : (m : Dict ℕ) → positives m ≤ length m
unfolding positives
positives-length [] = omega arith
positives-length ((k, d) ∷ m) = ground (arith, positives-length m)

positives-zero : (k : Text) (m : Dict ℕ) → get k m ≡ some 0 → positives m + 1 ≤ length m
unfolding positives get
positives-zero k [] h = ground (arith, h)
positives-zero k ((j, d) ∷ m) h = ground (arith, positives-zero k m, positives-length m)

module _ (P : Text → Type 0) where
  -- Every list of the dictionary holds only texts with the property.
  abbrev pub Holding : Dict (List Text) → Type 0
  Holding m = (k : Text) → All P (or_default (get k m))

  All-snoc : (xs : List Text) (x : Text) → All P xs → P x → All P (xs ++ x ∷ [])
  All-snoc [] x h p = (p, tt)
  All-snoc (y ∷ ys) x (h, hs) p = (h, All-snoc ys x hs p)

  push-Holding :
      (d x : Text) (m : Dict (List Text)) → P x → Holding m → Holding (push_dependent d x m)
  unfolding push_dependent
  push-Holding d x m p h k = elim (Bool-cases (text_eq d k)) [
    | inl e ↦ rw (get-insert, e) (All-snoc (or_default (get d m)) x (h d) p)
    | inr e ↦ rw (get-insert, e) (h k)
  ]

  push_all-Holding :
      (ds : List Text) (x : Text) (m : Dict (List Text))
      → P x
      → Holding m
      → Holding (push_dependents ds x m)
  unfolding push_dependents
  push_all-Holding [] x m p h = h
  push_all-Holding (d ∷ ds) x m p h =
      push_all-Holding ds x (push_dependent d x m) p (push-Holding d x m p h)

  pub collect-Holding :
      (ns : List DagNode) (m : Dict (List Text))
      → All (λ n. P (id n)) ns
      → Holding m
      → Holding (collect_dependents ns m)
  unfolding collect_dependents
  collect-Holding [] m a h = h
  collect-Holding (n ∷ ns) m (a, as') h =
      collect-Holding ns (push_dependents (depends_on n) (id n) m) as'
        (push_all-Holding (depends_on n) (id n) m a h)

pub free-zero :
    (m : Dict ℕ) (n : DagNode) → Known m (id n) → is_free m n ≡ true → get (id n) m ≡ some 0
unfolding is_free
free-zero m n h f = ground (arith, h, f)

first-IsEnough :
    (nodes ns : List DagNode) (m : Dict ℕ)
    → length m ≤ length nodes
    → All (λ n. Known m (id n)) ns
    → IsEnough (length nodes + 1) (keep (is_free m) ns) m
first-IsEnough nodes [] m l a = omega arith
first-IsEnough nodes (n ∷ ns) m l (a, as') = elim (Bool-cases (is_free m n)) [
  | inl e ↦ rw e (let z = positives-zero (id n) m (free-zero m n a e) in omega (arith, z, l))
  | inr e ↦ rw e (first-IsEnough nodes ns m l as')
]

checked-no_fuel :
    (nodes : List DagNode) (l : List (List DagNode)) → checked nodes l ≢ err out_of_fuel
unfolding checked
checked-no_fuel nodes l h = ground arith

-- The loop ends: with the fuel that it is given, one more than there are nodes, the layers of any
-- list of nodes come out, or the panic of a cycle or of a degree below zero.
pub build_topological_layers_total :
    (nodes : List DagNode) → build_topological_layers nodes ≢ err out_of_fuel
unfolding build_topological_layers
build_topological_layers_total nodes h =
    let m = count_degrees nodes [] in
    let known = count_degrees-Known nodes [] in
    let size = count_degrees-length nodes [] in
    let closed = collect-Holding (Known m) nodes [] known (λ k. tt) in
    let enough = first-IsEnough nodes nodes m (omega (arith, size)) known in
    let ends =
      layers_from-no_fuel nodes (collect_dependents nodes []) (length nodes + 1)
        (keep (is_free m) nodes) m closed enough in
    elim (Result-cases (
      layers_from nodes (collect_dependents nodes []) (length nodes + 1) (keep (is_free m) nodes)
        m)) [
          | inl (l, q) ↦ checked-no_fuel nodes l (ground (arith, q, h))
          | inr (x, q) ↦ ends (ground (arith, q, h))
        ]
