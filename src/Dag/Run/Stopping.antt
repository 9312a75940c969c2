-- ===== src/Dag/Run/Stopping.antt =====
-- What the run of the layers keeps, skips and stops, crates/har-dag-executor/src/dag_executor.rs.
use harness_agent_rs.Prelude.{
  ◌≡◌, refl, ap, ◌∙◌, ◌↔◌, inl, inr, ℕ, suc, Bool, true, false, Option, none, some, List, [], ◌∷◌,
  ◌++◌, Text, text_eq, Dict, get, get-insert, arith, length, ltb, Bool-cases,
}
use harness_agent_rs.Schema.Output.{NodeOutput}
use harness_agent_rs.Schema.Node.{DagNode, id}
use harness_agent_rs.Condition.Total.{Readers}
use harness_agent_rs.Dag.Run.{
  StatusRead, Progress, collect, collect_all, enter_layer, stop_detected, Run, stopped, finished,
  run_node, results, run_layer, run_layers,
}

-- No node of the list has the id.
abbrev pub Apart : Text → List DagNode → Type 0
Apart k [] = Unit
Apart k (n ∷ ns) = (text_eq (id n) k ≡ false) × Apart k ns

abbrev pub ApartAll : Text → List (List DagNode) → Type 0
ApartAll k [] = Unit
ApartAll k (l ∷ ls) = Apart k l × ApartAll k ls

abbrev pub outputs_of : Run → Dict NodeOutput
outputs_of (stopped p) = p.node_outputs
outputs_of (finished p) = p.node_outputs

abbrev pub is_finished : Run → Bool
is_finished (stopped p) = false
is_finished (finished p) = true

-- The store stops the run after none of the layers.
abbrev pub Quiet : (ℕ → StatusRead) → ℕ → List (List DagNode) → Type 0
Quiet status_after i [] = Unit
Quiet status_after i (l ∷ ls) =
    (stop_detected (status_after i) ≡ false) × Quiet status_after (suc i) ls

collect-get :
    (b : Bool) (k j : Text) (o : Option NodeOutput) (p : Progress)
    → text_eq k j ≡ false
    → get j (collect b k o p).node_outputs ≡ get j p.node_outputs
unfolding collect
collect-get b k j none p h = refl
collect-get b k j (some o) p h = rw (get-insert, h) refl

collect_all-append_sessions :
    (rs : List (Text × Option NodeOutput)) (p : Progress)
    → (collect_all true rs p).last_sequential_session_id ≡ p.last_sequential_session_id
unfolding collect_all collect
collect_all-append_sessions [] p = refl
collect_all-append_sessions ((k, none) ∷ rs) p = collect_all-append_sessions rs p
collect_all-append_sessions ((k, some o) ∷ rs) p =
    collect_all-append_sessions rs (collect true k (some o) p)

pub enter_layer-outputs :
    (b : Bool) (p : Progress) → (enter_layer b p).node_outputs ≡ p.node_outputs
unfolding enter_layer
enter_layer-outputs true p = refl
enter_layer-outputs false p = refl

module _ (readers : Readers) (prior : Dict Text)
    (execute : DagNode → Dict NodeOutput → Bool → Option Text → Option NodeOutput) where
  results-get :
      (b : Bool) (p q : Progress) (k : Text) (ns : List DagNode)
      → Apart k ns
      → get k (collect_all b (results readers prior execute b p ns) q).node_outputs
        ≡ get k q.node_outputs
  unfolding collect_all results
  results-get b p q k [] h = refl
  results-get b p q k (n ∷ ns) (h, hs) =
      results-get b p (collect b (id n) (run_node readers prior execute b p n) q) k ns hs
      ∙ collect-get b (id n) k (run_node readers prior execute b p n) q h

  run_layer-get :
      (layer : List DagNode) (p : Progress) (k : Text)
      → Apart k layer
      → get k (run_layer readers prior execute layer p).node_outputs ≡ get k p.node_outputs
  unfolding run_layer
  run_layer-get layer p k h =
      let b = ltb 1 (length layer) in
      results-get b (enter_layer b p) (enter_layer b p) k layer h
      ∙ ap (get k) (enter_layer-outputs b p)

  -- After a layer of two or more nodes there is no session to resume.
  pub parallel_drops_session :
      (layer : List DagNode) (p : Progress)
      → ltb 1 (length layer) ≡ true
      → (run_layer readers prior execute layer p).last_sequential_session_id ≡ none
  unfolding run_layer enter_layer
  parallel_drops_session layer p h = rw h (
      collect_all-append_sessions (results readers prior execute true (enter_layer true p) layer)
        (enter_layer true p))

  module _ (status_after : ℕ → StatusRead) where
    -- A node that is in none of the layers keeps the output it has, or has none, however far the run
    -- of those layers gets.
    pub run_layers-get :
        (k : Text) (layers : List (List DagNode)) (i : ℕ) (p : Progress)
        → ApartAll k layers
        → get k (outputs_of (run_layers readers prior execute status_after i layers p))
          ≡ get k p.node_outputs
    unfolding run_layers
    run_layers-get k [] i p h = refl
    run_layers-get k (layer ∷ layers) i p (h, hs) =
        let rest = run_layers-get k layers (suc i) (run_layer readers prior execute layer p) hs in
        let here = run_layer-get layer p k h in
        elim (Bool-cases (stop_detected (status_after i))) [
          | inl e ↦ rw e here
          | inr e ↦ rw e (rest ∙ here)
        ]

    -- Once the run stops, the layers that follow change nothing: it stops with the same outputs and
    -- the same session whatever layers are left.
    pub stop_ends_run :
        (layers more : List (List DagNode)) (i : ℕ) (p q : Progress)
        → run_layers readers prior execute status_after i layers p ≡ stopped q
        → run_layers readers prior execute status_after i (layers ++ more) p ≡ stopped q
    unfolding run_layers
    stop_ends_run [] more i p q h = ground arith
    stop_ends_run (layer ∷ layers) more i p q h =
        let rest = stop_ends_run layers more (suc i) (run_layer readers prior execute layer p) q in
        ground (arith, rest)

    -- The run gets to the end of its layers exactly if no answer of the store between two of them
    -- stops it.
    pub finished_iff :
        (layers : List (List DagNode)) (i : ℕ) (p : Progress)
        → (is_finished (run_layers readers prior execute status_after i layers p) ≡ true)
          ↔ Quiet status_after i layers
    unfolding run_layers
    finished_iff [] i p = (λ h. tt, λ h. refl)
    finished_iff (layer ∷ layers) i p =
        let rest = finished_iff layers (suc i) (run_layer readers prior execute layer p) in
        (λ h. ground (arith, rest), λ h. ground (arith, rest))
