-- ===== src/Dag/Gate/Passing.antt =====
-- Which nodes reach their executor, crates/har-dag-executor/src/dag_executor.rs.
use harness_agent_rs.Prelude.{
  ◌≡◌, sym, ◌↔◌, ◌⊎◌, inl, inr, true, Option, none, some, Text, Dict, get, insert, arith,
  Option-cases, ok,
}
use harness_agent_rs.Schema.Output.{NodeOutput, plain, completed}
use harness_agent_rs.Schema.Node.{DagNode, base, id}
use harness_agent_rs.Dag.Trigger.{run, check_trigger_rule}
use harness_agent_rs.Condition.Atom.{parsed_as}
use harness_agent_rs.Condition.Total.{Readers, verdict}
use harness_agent_rs.Dag.Gate.{
  pass, is_always_run, or_insert, all_outputs, when_gate, condition_gate, trigger_gate, gate_with,
  gate,
}

-- A node may run: no earlier run has an output of it, or it is marked to run always.
abbrev pub MayRun : Option Text → DagNode → Type 0
MayRun none n = Unit
MayRun (some prior) n = (base n).always_run ≡ some true

-- What a node sees of the outputs of earlier layers: its own earlier output, which is put in only
-- where they have none for the node.
abbrev pub Sees : Option Text → Text → Dict NodeOutput → Dict NodeOutput → Type 0
Sees none k o o' = o' ≡ o
Sees (some prior) k o o' =
    ((v : NodeOutput) × (get k o ≡ some v) × (o' ≡ o))
    ⊎ ((get k o ≡ none) × (o' ≡ insert k (completed (plain prior)) o))

pub is_always_run_iff : (n : DagNode) → (is_always_run n ≡ true) ↔ ((base n).always_run ≡ some true)
unfolding is_always_run
is_always_run_iff n = (λ h. ground arith, λ h. ground arith)

pub all_outputs-Sees :
    (p : Option Text) (k : Text) (o o' : Dict NodeOutput) → (all_outputs p k o ≡ o') ↔ Sees p k o o'
unfolding all_outputs or_insert
all_outputs-Sees none k o o' = (λ h. sym h, λ h. sym h)
all_outputs-Sees (some prior) k o o' = elim (Option-cases (get k o)) [
  | inl e ↦ (λ h. ground (arith, e, h), λ h. ground (arith, e, h))
  | inr (v, e) ↦ (λ h. inl (v, e, ground (arith, e, h)), λ h. ground (arith, e, h))
]

module _ (readers : Readers) where
  -- The condition of a node, if it has one, is understood and true.
  abbrev pub Holds : Option Text → Dict NodeOutput → Type 0
  Holds none outputs = Unit
  Holds (some expr) outputs = verdict readers expr outputs ≡ ok (parsed_as true)

  condition_iff :
      (w : Option Text) (o o' : Dict NodeOutput)
      → (condition_gate readers w o ≡ pass o') ↔ ((o ≡ o') × Holds w o)
  unfolding condition_gate when_gate
  condition_iff none o o' = (λ h. ground arith, λ h. ground arith)
  condition_iff (some expr) o o' = (λ h. ground arith, λ h. ground arith)

  trigger_iff :
      (n : DagNode) (o o' : Dict NodeOutput)
      → (trigger_gate readers n o ≡ pass o')
        ↔ ((o ≡ o') × (check_trigger_rule n o ≡ run) × Holds (base n).when o)
  unfolding trigger_gate
  trigger_iff n o o' =
      let c = condition_iff (base n).when o o' in (λ h. ground (arith, c), λ h. ground (arith, c))

  gate_with_iff :
      (p : Option Text) (n : DagNode) (o o' : Dict NodeOutput)
      → (gate_with readers p n o ≡ pass o') ↔ (
          MayRun p n
          × (all_outputs p (id n) o ≡ o')
          × (check_trigger_rule n o' ≡ run)
          × Holds (base n).when o')
  unfolding gate_with all_outputs
  gate_with_iff none n o o' =
      let c = trigger_iff n o o' in
      (
        λ h. let (a, b, d) = c.0 h in (_, a, rw (← a) b, rw (← a) d),
        λ (m, a, b, d). c.1 (a, rw a b, rw a d),
      )
  gate_with_iff (some prior) n o o' =
      let c = trigger_iff n (all_outputs (some prior) (id n) o) o' in
      let m = is_always_run_iff n in (λ h. ground (arith, c, m), λ h. ground (arith, c, m))

  -- A node reaches its executor exactly if no earlier run has an output of it or it is marked
  -- `always_run: true`, its trigger rule lets it run, and its condition, if it has one, is understood
  -- and true. The rule, the condition and the executor are given the outputs of earlier layers; where
  -- these have none for a node with an earlier output, that output is put in as a completed one.
  pub gate_iff :
      (prior : Dict Text) (n : DagNode) (o o' : Dict NodeOutput)
      → (gate readers prior n o ≡ pass o') ↔ (
          MayRun (get (id n) prior) n
          × Sees (get (id n) prior) (id n) o o'
          × (check_trigger_rule n o' ≡ run)
          × Holds (base n).when o')
  unfolding gate
  gate_iff prior n o o' =
      let c = gate_with_iff (get (id n) prior) n o o' in
      let s = all_outputs-Sees (get (id n) prior) (id n) o o' in
      (λ h. let (m, a, b, d) = c.0 h in (m, s.0 a, b, d), λ (m, a, b, d). c.1 (m, s.1 a, b, d))
