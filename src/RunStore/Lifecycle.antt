-- ===== src/RunStore/Lifecycle.antt =====
-- What holds of every run after any sequence of writes, crates/har-db/src/workflows.rs.
use harness_agent_rs.Prelude.{
  ◌≡◌, ◌≢◌, refl, sym, ap, ◌∙◌, inl, ◌⊎◌, Bool, true, false, Option, none, some, List, [], ◌∷◌,
  arith, Text, All,
}
use harness_agent_rs.Schema.Json.{Fields}
use harness_agent_rs.Schema.Run.{
  WorkflowRunStatus, pending, running, completed, failed, cancelled, paused, is_one_of,
}
use harness_agent_rs.RunStore.Table.{
  Run, Table, update_where, select_by_id, resumable_status_clause,
}
use harness_agent_rs.RunStore.Transitions.{
  resumable_with_id, set_status, merge_metadata, complete_workflow_run, fail_workflow_run,
  pause_workflow_run, cancel_workflow_run, fail_orphaned_runs, update_workflow_activity,
  update_workflow_run,
}
use harness_agent_rs.RunStore.Queries.{set_resumed, resume_workflow_run}
use harness_agent_rs.RunStore.History.{
  Write, complete, fail, pause, cancel, fail_orphans, touch, resume, update, is_guarded, apply,
  apply_all, guard, write, row, update_where_nothing, update_where_never,
}

-- The moves of a run's status that a guarded method can make.
abbrev pub may_move : WorkflowRunStatus → WorkflowRunStatus → Bool
may_move running completed = true
may_move running failed = true
may_move running paused = true
may_move running running = true
may_move failed running = true
may_move paused running = true
may_move pending cancelled = true
may_move running cancelled = true
may_move failed cancelled = true
may_move paused cancelled = true
may_move _ _ = false

-- A run that is over for good has an end time.
abbrev pub IsDated : Run → Type 0
IsDated r = is_one_of r.status (completed ∷ cancelled ∷ []) ≡ true → r.completed_at ≢ none

abbrev pub map_row : (Run → Run) → Option Run → Option Run
map_row f none = none
map_row f (some r) = some (f r)

update_where_same : (p : Run → Bool) (t : Table) → update_where p (λ r. r) t ≡ t
unfolding update_where
update_where_same p [] = refl
update_where_same p (r ∷ t) = ground (arith, update_where_same p t)

module _ (merge : Fields → Fields → Fields) where
  -- Every method leaves the table that one guarded update of rows leaves, faults included.
  pub apply-rows :
      (w : Write) (t : Table) → apply merge w t ≡ update_where (guard merge w) (write merge w) t
  unfolding apply guard write complete_workflow_run fail_workflow_run pause_workflow_run
      cancel_workflow_run fail_orphaned_runs update_workflow_activity resume_workflow_run
      update_workflow_run
  apply-rows (complete now (some e) k md) t =
      sym (update_where_never (write merge (complete now (some e) k md)) t)
  apply-rows (complete now none k md) t =
      let w = complete now none k md in
      ground (arith, update_where_nothing (guard merge w) (write merge w) t)
  apply-rows (fail now (some e) k m) t =
      sym (update_where_never (write merge (fail now (some e) k m)) t)
  apply-rows (fail now none k m) t =
      let w = fail now none k m in
      ground (arith, update_where_nothing (guard merge w) (write merge w) t)
  apply-rows (pause (some e) k a) t = sym (update_where_never (write merge (pause (some e) k a)) t)
  apply-rows (pause none k a) t =
      let w = pause none k a in
      ground (arith, update_where_nothing (guard merge w) (write merge w) t)
  apply-rows (cancel now (some e) k) t =
      sym (update_where_never (write merge (cancel now (some e) k)) t)
  apply-rows (cancel now none k) t = refl
  apply-rows (fail_orphans now (some e)) t =
      sym (update_where_never (write merge (fail_orphans now (some e))) t)
  apply-rows (fail_orphans now none) t = refl
  apply-rows (touch now (some e) k) t =
      sym (update_where_never (write merge (touch now (some e) k)) t)
  apply-rows (touch now none k) t = refl
  apply-rows (resume now (some e) read k) t =
      sym (update_where_never (write merge (resume now (some e) read k)) t)
  apply-rows (resume now none read k) t =
      ground (arith, update_where_nothing (resumable_with_id now k) (set_resumed now) t)
  apply-rows (update now (some e) k none none) t =
      sym (update_where_never (write merge (update now (some e) k none none)) t)
  apply-rows (update now none k none none) t = sym (update_where_same _ t)
  apply-rows (update now (some e) k (some s) m) t =
      sym (update_where_never (write merge (update now (some e) k (some s) m)) t)
  apply-rows (update now none k (some s) m) t =
      let w = update now none k (some s) m in
      ground (arith, update_where_nothing (guard merge w) (write merge w) t)
  apply-rows (update now (some e) k none (some m)) t =
      sym (update_where_never (write merge (update now (some e) k none (some m))) t)
  apply-rows (update now none k none (some m)) t =
      let w = update now none k none (some m) in
      ground (arith, update_where_nothing (guard merge w) (write merge w) t)

  row-id : (w : Write) (r : Run) → (row merge w r).id ≡ r.id
  unfolding row merge_metadata set_status
  row-id (complete now (some e) k md) r = refl
  row-id w r = ground arith

  select-update_where :
      (w : Write) (k : Text) (t : Table)
      → select_by_id k (update_where (guard merge w) (write merge w) t)
        ≡ map_row (row merge w) (select_by_id k t)
  unfolding select_by_id update_where row
  select-update_where w k [] = refl
  select-update_where w k (r ∷ t) = ground (arith, row-id w r, select-update_where w k t)

  -- A call maps each run that can be looked up to its own effect on it.
  pub select-apply :
      (w : Write) (k : Text) (t : Table)
      → select_by_id k (apply merge w t) ≡ map_row (row merge w) (select_by_id k t)
  select-apply w k t = rw apply-rows (select-update_where w k t)

  -- The moves of a status under a guarded method.
  row-moves :
      (w : Write) (r : Run)
      → is_guarded w ≡ true
      → ((row merge w r).status ≡ r.status) ⊎ (may_move r.status (row merge w r).status ≡ true)
  unfolding row merge_metadata set_status
  row-moves (complete now (some e) k md) r h = inl refl
  row-moves w r h = ground arith

  -- One write by any method but `update_workflow_run` keeps the run that an id finds, and its status
  -- stays or makes one of these moves: running to completed, failed, paused or running; failed or
  -- paused to running; pending, running, failed or paused to cancelled.
  pub apply_moves :
      (w : Write) (k : Text) (t : Table) (r : Run)
      → is_guarded w ≡ true
      → select_by_id k t ≡ some r
      → (r' : Run) × (select_by_id k (apply merge w t) ≡ some r')
        × ((r'.status ≡ r.status) ⊎ (may_move r.status r'.status ≡ true))
  apply_moves w k t r g h =
      (row merge w r, select-apply w k t ∙ ap (map_row (row merge w)) h, row-moves w r g)

  row-finished :
      (w : Write) (r : Run)
      → is_guarded w ≡ true
      → is_one_of r.status (completed ∷ cancelled ∷ []) ≡ true
      → ((row merge w r).status ≡ r.status)
        × ((row merge w r).completed_at ≡ r.completed_at)
        × ((row merge w r).metadata ≡ r.metadata)
  unfolding row is_one_of resumable_status_clause
  row-finished (complete now (some e) k md) r g h = (refl, refl, refl)
  row-finished w r g h = ground arith

  -- After any writes by methods other than `update_workflow_run`, a run that was completed or
  -- cancelled is still there, with its status, its end time and its metadata.
  pub finished_stays :
      (ws : List Write) (k : Text) (t : Table) (r : Run)
      → All (λ w. is_guarded w ≡ true) ws
      → select_by_id k t ≡ some r
      → is_one_of r.status (completed ∷ cancelled ∷ []) ≡ true
      → (r' : Run) × (select_by_id k (apply_all merge ws t) ≡ some r')
        × (r'.status ≡ r.status)
        × (r'.completed_at ≡ r.completed_at)
        × (r'.metadata ≡ r.metadata)
  unfolding apply_all
  finished_stays [] k t r g h f = (r, h, refl, refl, refl)
  finished_stays (w ∷ ws) k t r g h f =
      let (s, c, m) = row-finished w r g.0 f in
      let (r', found, s', c', m') =
        finished_stays ws k (apply merge w t) (row merge w r) g.1
          (select-apply w k t ∙ ap (map_row (row merge w)) h) (rw s f) in
      (r', found, s' ∙ s, c' ∙ c, m' ∙ m)

  row-IsDated : (w : Write) (r : Run) → IsDated r → IsDated (row merge w r)
  unfolding row is_one_of merge_metadata set_status
  row-IsDated (complete now (some e) k md) r d = d
  row-IsDated w r d = ground arith

  All-update_where :
      (w : Write) (t : Table)
      → All IsDated t
      → All IsDated (update_where (guard merge w) (write merge w) t)
  unfolding update_where
  All-update_where w [] d = tt
  All-update_where w (r ∷ t) d = (unfold row in row-IsDated w r d.0, All-update_where w t d.1)

  -- In a table where each completed or cancelled run has an end time, that is so after any writes,
  -- unguarded updates and refused statements included.
  pub apply_all-IsDated :
      (ws : List Write) (t : Table) → All IsDated t → All IsDated (apply_all merge ws t)
  unfolding apply_all
  apply_all-IsDated [] t d = d
  apply_all-IsDated (w ∷ ws) t d =
      apply_all-IsDated ws (apply merge w t) (rw (apply-rows w t) (All-update_where w t d))
