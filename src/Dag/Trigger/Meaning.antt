-- ===== src/Dag/Trigger/Meaning.antt =====
-- When a node is triggered, said of the states that its dependencies have on record: the trigger
-- rules of crates/har-dag-executor/src/dag_executor.rs.
use harness_agent_rs.Prelude.{
  Text, ◌≡◌, refl, ◌↔◌, ◌⊎◌, inl, inr, Bool, true, false, Option, none, some, List, [], ◌∷◌, any,
  all, get, Dict, if◌then◌else◌, All, arith, ◌≢◌, is_empty,
}
use harness_agent_rs.Schema.Output.{NodeState, NodeOutput, state, is_completed}
use harness_agent_rs.Schema.Node.{
  DagNode, TriggerRule, all_success, one_success, none_failed_min_one_success, all_done, base,
  depends_on,
}
use harness_agent_rs.Dag.Trigger.{
  run, upstreams, apply_rule, rule_of, check_trigger_rule, or_missing, is_failed, is_settled,
}

-- The state on record of a dependency; one that is not on record has failed.
abbrev pub recorded : Option NodeOutput → NodeState
recorded none = NodeState.failed
recorded (some o) = state o

-- Some element satisfies `P`.
abbrev pub Some : (Text → Type 0) → List Text → Type 0
Some P [] = ⊥
Some P (x ∷ xs) = P x ⊎ Some P xs

abbrev pub Is : NodeState → Dict NodeOutput → Text → Type 0
Is s outputs d = recorded (get d outputs) ≡ s

-- What each rule asks of the dependencies.
abbrev pub Triggers : TriggerRule → List Text → Dict NodeOutput → Type 0
Triggers all_success ds o = All (Is NodeState.completed o) ds
Triggers one_success ds o = Some (Is NodeState.completed o) ds
Triggers none_failed_min_one_success ds o =
    All (λ d. recorded (get d o) ≢ NodeState.failed) ds × Some (Is NodeState.completed o) ds
Triggers all_done ds o =
    All (λ d. (recorded (get d o) ≢ NodeState.pending) × (recorded (get d o) ≢ NodeState.running))
      ds

completed_iff :
    (d : Text) (o : Option NodeOutput)
    → (is_completed (or_missing d o) ≡ true) ↔ (recorded o ≡ NodeState.completed)
unfolding is_completed or_missing state
completed_iff d o = (λ h. ground arith, λ h. ground arith)

failed_iff :
    (d : Text) (o : Option NodeOutput)
    → (is_failed (state (or_missing d o)) ≡ true) ↔ (recorded o ≡ NodeState.failed)
unfolding is_failed or_missing state
failed_iff d o = (λ h. ground arith, λ h. ground arith)

settled_iff :
    (d : Text) (o : Option NodeOutput)
    → (is_settled (state (or_missing d o)) ≡ true)
      ↔ ((recorded o ≢ NodeState.pending) × (recorded o ≢ NodeState.running))
unfolding is_settled or_missing state
settled_iff d o = (λ h. ground arith, λ h. ground arith)

module _ (o : Dict NodeOutput) (p : NodeOutput → Bool) (P : Text → Type 0)
    (reads : (d : Text) → (p (or_missing d (get d o)) ≡ true) ↔ P d) where
  all_iff : (ds : List Text) → (all p (upstreams ds o) ≡ true) ↔ All P ds
  unfolding upstreams
  all_iff [] = (λ h. tt, λ h. refl)
  all_iff (d ∷ ds) =
      (λ h. ground (arith, reads d, all_iff ds), λ h. ground (arith, reads d, all_iff ds))

  any_iff : (ds : List Text) → (any p (upstreams ds o) ≡ true) ↔ Some P ds
  unfolding upstreams
  any_iff [] = (λ h. cc, λ h. absurd h)
  any_iff (d ∷ ds) =
      (λ h. ground (arith, reads d, any_iff ds), λ h. ground (arith, reads d, any_iff ds))

-- No dependency satisfies the test exactly if each fails it.
none_iff :
    (o : Dict NodeOutput) (ds : List Text)
    → (any (λ u. is_failed (state u)) (upstreams ds o) ≡ false)
      ↔ All (λ d. recorded (get d o) ≢ NodeState.failed) ds
unfolding upstreams
none_iff o [] = (λ h. tt, λ h. refl)
none_iff o (d ∷ ds) = (
  λ h. ground (arith, failed_iff d (get d o), none_iff o ds),
  λ h. ground (arith, failed_iff d (get d o), none_iff o ds),
)

apply_rule_iff :
    (r : TriggerRule) (ds : List Text) (o : Dict NodeOutput)
    → (apply_rule r (upstreams ds o) ≡ run) ↔ Triggers r ds o
unfolding apply_rule
apply_rule_iff all_success ds o =
    let e = all_iff o is_completed (Is NodeState.completed o) (λ d. completed_iff d (get d o)) ds in
    (λ h. e.0 (ground arith), λ h. ground (arith, e.1 h))
apply_rule_iff one_success ds o =
    let e = any_iff o is_completed (Is NodeState.completed o) (λ d. completed_iff d (get d o)) ds in
    (λ h. e.0 (ground arith), λ h. ground (arith, e.1 h))
apply_rule_iff none_failed_min_one_success ds o =
    let e = any_iff o is_completed (Is NodeState.completed o) (λ d. completed_iff d (get d o)) ds in
    let f = none_iff o ds in
    (λ h. (f.0 (ground arith), e.0 (ground arith)), λ h. ground (arith, e.1 h.1, f.1 h.0))
apply_rule_iff all_done ds o =
    let e =
      all_iff o (λ u. is_settled (state u))
        (λ d. (recorded (get d o) ≢ NodeState.pending) × (recorded (get d o) ≢ NodeState.running))
        (λ d. settled_iff d (get d o)) ds in
    (λ h. e.0 (ground arith), λ h. ground (arith, e.1 h))

decided_iff :
    (r : TriggerRule) (ds : List Text) (o : Dict NodeOutput)
    → ((if is_empty ds then run else apply_rule r (upstreams ds o)) ≡ run)
      ↔ ((ds ≡ []) ⊎ Triggers r ds o)
unfolding is_empty
decided_iff r [] o = (λ h. inl refl, λ h. refl)
decided_iff r (d ∷ ds) o =
    let e = apply_rule_iff r (d ∷ ds) o in (λ h. inr (e.0 h), elim [ inl h ↦ cc | inr h ↦ e.1 h ])

-- A node runs exactly if it has no dependency or the states that its dependencies have on record meet
-- its rule, which is `all_success` unless it names one: all completed, one completed, none failed and
-- one completed, or none pending or running. A dependency with no record counts as failed.
pub check_trigger_rule_iff :
    (n : DagNode) (o : Dict NodeOutput)
    → (check_trigger_rule n o ≡ run)
      ↔ ((depends_on n ≡ []) ⊎ Triggers (rule_of (base n).trigger_rule) (depends_on n) o)
unfolding check_trigger_rule
check_trigger_rule_iff n o = decided_iff (rule_of (base n).trigger_rule) (depends_on n) o
