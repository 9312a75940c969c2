-- ===== src/Dag/Layers.antt =====
-- `build_topological_layers` of crates/har-dag-executor/src/dag_executor.rs: Kahn's algorithm. The
-- source's panics are errors here: a degree that would fall below zero, which a debug build reports,
-- and a cycle. The loop takes fuel; a round places at least one node, so that one more than the nodes
-- is enough.
pub mod Rounds
pub mod Start
pub mod Degrees
pub mod Lowering
pub mod Order
pub mod Sorted
pub mod Correct
pub mod Distinct
pub mod Complete
use harness_agent_rs.Prelude.{
  ℕ, zero, suc, ◌+◌, ◌==◌, Bool, Option, none, some, List, [], ◌∷◌, ◌++◌, Text, text_eq, Dict, get,
  insert, keep, find, length, total, ltb, if◌then◌else◌, Result, ok, err, ◌>>=◌,
}
use harness_agent_rs.Schema.Node.{DagNode, id, depends_on}

pub data Panic : Type 0 where
  degree_overflow runtime_cycle out_of_fuel : Panic

abbrev pub or_default : Option (List Text) → List Text
or_default none = []
or_default (some l) = l

-- `entry(dep).or_default().push(id)`.
unfoldable pub push_dependent : Text → Text → Dict (List Text) → Dict (List Text)
unfolding get insert
push_dependent dep node_id m = insert dep (or_default (get dep m) ++ node_id ∷ []) m

unfoldable pub push_dependents : List Text → Text → Dict (List Text) → Dict (List Text)
unfolding push_dependent
push_dependents [] node_id m = m
push_dependents (d ∷ ds) node_id m = push_dependents ds node_id (push_dependent d node_id m)

-- The first loop: the degrees and the dependents of all nodes.
unfoldable pub count_degrees : List DagNode → Dict ℕ → Dict ℕ
unfolding insert id depends_on
count_degrees [] m = m
count_degrees (n ∷ ns) m = count_degrees ns (insert (id n) (length (depends_on n)) m)

unfoldable pub collect_dependents : List DagNode → Dict (List Text) → Dict (List Text)
unfolding push_dependents id depends_on
collect_dependents [] m = m
collect_dependents (n ∷ ns) m = collect_dependents ns (push_dependents (depends_on n) (id n) m)

abbrev or_zero : Option ℕ → ℕ
or_zero none = 0
or_zero (some d) = d

-- `in_degree.get(id).copied().unwrap_or(0) == 0`.
unfoldable pub is_free : Dict ℕ → DagNode → Bool
unfolding get id
is_free degrees n = or_zero (get (id n) degrees) == 0

-- `map(|d| d - 1).unwrap_or(0)`.
unfoldable pub lowered : Option ℕ → Result Panic ℕ
lowered none = ok 0
lowered (some zero) = err degree_overflow
lowered (some (suc d)) = ok d

-- The degrees, and the ids that have become free.
abbrev pub Round : Type 0
Round = Dict ℕ × List Text

-- One dependent loses a dependency.
unfoldable pub lower : Text → Round → Result Panic Round
unfolding lowered get insert
lower dep_id (degrees, next) = lowered (get dep_id degrees) >>= λ d.
    ok (insert dep_id d degrees, (if d == 0 then next ++ dep_id ∷ [] else next))

unfoldable pub lower_all : List Text → Round → Result Panic Round
unfolding lower
lower_all [] r = ok r
lower_all (d ∷ ds) r = lower d r >>= λ r'. lower_all ds r'

-- The nodes of a layer, one by one.
unfoldable pub place : Dict (List Text) → List DagNode → Round → Result Panic Round
unfolding lower_all get id
place dependents [] r = ok r
place dependents (n ∷ ns) r =
    lower_all (or_default (get (id n) dependents)) r >>= λ r'. place dependents ns r'

-- `nodes.iter().find(|n| n.id() == id)`.
unfoldable pub find_node : Text → List DagNode → Option DagNode
unfolding id
find_node k nodes = find (λ n. text_eq (id n) k) nodes

abbrev cons_some : Option DagNode → List DagNode → List DagNode
cons_some none ns = ns
cons_some (some n) ns = n ∷ ns

unfoldable pub find_nodes : List Text → List DagNode → List DagNode
unfolding find_node
find_nodes [] nodes = []
find_nodes (k ∷ ks) nodes = cons_some (find_node k nodes) (find_nodes ks nodes)

module _ (nodes : List DagNode) (dependents : Dict (List Text)) where
  -- `while !ready.is_empty()`.
  unfoldable pub layers_from : ℕ → List DagNode → Dict ℕ → Result Panic (List (List DagNode))
  unfolding place find_nodes
  layers_from zero ready degrees = err out_of_fuel
  layers_from (suc fuel) [] degrees = ok []
  layers_from (suc fuel) (n ∷ ns) degrees = place dependents (n ∷ ns) (degrees, []) >>= λ r.
      layers_from fuel (find_nodes r.1 nodes) r.0 >>= λ rest. ok ((n ∷ ns) ∷ rest)

-- The layers, unless too few nodes are in them.
unfoldable pub checked : List DagNode → List (List DagNode) → Result Panic (List (List DagNode))
checked nodes layers = if ltb (total layers) (length nodes) then err runtime_cycle else ok layers

unfoldable pub build_topological_layers : List DagNode → Result Panic (List (List DagNode))
unfolding count_degrees collect_dependents is_free layers_from checked
build_topological_layers nodes =
    layers_from nodes (collect_dependents nodes []) (length nodes + 1)
      (keep (is_free (count_degrees nodes [])) nodes) (count_degrees nodes [])
    >>= λ layers. checked nodes layers
