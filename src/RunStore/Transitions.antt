-- ===== src/RunStore/Transitions.antt =====
-- The methods of `SqlWorkflowStore` that write a run, crates/har-db/src/workflows.rs. Each takes the
-- time and the engine's fault, if it has one, and returns its result with the new table. How the
-- engine merges JSON objects is the parameter `merge`.
use harness_agent_rs.Prelude.{
  ℕ, ◌==◌, Bool, false, not, ◌&&◌, ◌||◌, Option, none, some, [], ◌∷◌, ◌++◌, Text, text, starts_with,
  ltb, if◌then◌else◌, Result, ok, err,
}
use harness_agent_rs.Schema.Json.{Json, Fields, field, end, string, contains_key}
use harness_agent_rs.Schema.Run.{WorkflowRunStatus, completed, failed, cancelled, paused, is_one_of}
use harness_agent_rs.RunStore.Table.{
  Run, Table, StoreError, db, update_where, count_where, has_id, is_running_row,
  resumable_status_clause,
}

-- `WorkflowRunUpdate`.
pub record WorkflowRunUpdate : Type 0 where
  pub status : Option WorkflowRunStatus
  pub metadata : Option Fields

-- The reports of a statement that matched no row.
abbrev pub not_running : Text → StoreError
not_running k = db (text "Workflow run not found or not in running state (id: " ++ k ++ text ")")

abbrev pub not_found : Text → StoreError
not_found k = db (text "Workflow run not found (id: " ++ k ++ text ")")

-- The two ways to report a fault: `pause` and `update` pass on one that says "not found".
unfoldable pub prefixed : Text → Text → Text
prefixed what e = what ++ e

unfoldable pub prefixed_unless_not_found : Text → Text → Text
unfolding starts_with
prefixed_unless_not_found what e =
    if starts_with e (text "Workflow run not found") then e else what ++ e

-- Runs one guarded `UPDATE`: a fault changes nothing, and no matching row is `missing`.
unfoldable pub guarded_update :
    Option Text
    → (Text → Text)
    → StoreError
    → (Run → Bool)
    → (Run → Run)
    → Table
    → Result StoreError (Unit {0}) × Table
unfolding update_where count_where
guarded_update (some e) report missing p f t = (err (db (report e)), t)
guarded_update none report missing p f t =
    if count_where p t == 0 then (err missing, t) else (ok tt, update_where p f t)

-- `WHERE id = $1 AND status = 'running'`.
unfoldable pub running_with_id : Text → Run → Bool
unfolding has_id is_running_row
running_with_id k r = has_id k r && is_running_row r

-- `WHERE id = $1 AND status NOT IN ('completed', 'cancelled')`.
unfoldable pub cancellable_with_id : Text → Run → Bool
unfolding has_id is_one_of
cancellable_with_id k r = has_id k r && not (is_one_of r.status (completed ∷ cancelled ∷ []))

-- `WHERE id = $1 AND resumable_status_clause`.
unfoldable pub resumable_with_id : ℕ → Text → Run → Bool
unfolding has_id resumable_status_clause
resumable_with_id now k r = has_id k r && resumable_status_clause now r

-- A `Failed` update that carries a human's answer is a hand-over, not an end.
unfoldable pub is_approval_transition : WorkflowRunStatus → Option Fields → Bool
unfolding contains_key
is_approval_transition failed (some m) =
    contains_key (text "approval_response") m || contains_key (text "loop_user_input") m
is_approval_transition _ _ = false

-- The `completed_at` clause of `update_workflow_run`.
unfoldable pub ended_at : ℕ → WorkflowRunStatus → Option Fields → Option ℕ → Option ℕ
unfolding is_approval_transition is_one_of
ended_at now s m old =
    if not (is_approval_transition s m) && is_one_of s (completed ∷ failed ∷ cancelled ∷ [])
    then some now
    else old

-- The status clauses of `update_workflow_run`.
unfoldable pub set_status : ℕ → Option WorkflowRunStatus → Option Fields → Run → Run
unfolding ended_at
set_status now none m r = r
set_status now (some s) m r = record r {
  status = s;
  completed_at = ended_at now s m r.completed_at;
}

module _ (merge : Fields → Fields → Fields) where
  -- `json_merge("metadata", …)`.
  unfoldable pub merge_metadata : Option Fields → Run → Run
  merge_metadata none r = r
  merge_metadata (some m) r = record r { metadata = merge r.metadata m }

  unfoldable pub complete_workflow_run :
      ℕ → Option Text → Text → Option Fields → Table → Result StoreError (Unit {0}) × Table
  unfolding guarded_update prefixed prefixed_unless_not_found running_with_id merge_metadata
  complete_workflow_run now fault k md =
      guarded_update fault (prefixed (text "Failed to complete workflow run: ")) (not_running k)
        (running_with_id k)
        (λ r. merge_metadata md (record r { status = completed; completed_at = some now }))

  unfoldable pub fail_workflow_run :
      ℕ → Option Text → Text → Text → Table → Result StoreError (Unit {0}) × Table
  unfolding guarded_update prefixed prefixed_unless_not_found running_with_id merge_metadata
  fail_workflow_run now fault k message =
      guarded_update fault (prefixed (text "Failed to fail workflow run: ")) (not_running k)
        (running_with_id k)
        (λ r.
          merge_metadata (some (field (text "error") (string message) end))
            (record r { status = failed; completed_at = some now }))

  -- `approval` is the context as JSON.
  unfoldable pub pause_workflow_run :
      Option Text → Text → Json → Table → Result StoreError (Unit {0}) × Table
  unfolding guarded_update prefixed prefixed_unless_not_found running_with_id merge_metadata
  pause_workflow_run fault k approval =
      guarded_update fault (prefixed_unless_not_found (text "Failed to pause workflow run: "))
        (not_running k) (running_with_id k)
        (λ r.
          merge_metadata (some (field (text "approval") approval end))
            (record r { status = paused }))

  -- Whether the run was cancelled.
  unfoldable pub cancel_workflow_run :
      ℕ → Option Text → Text → Table → Result StoreError Bool × Table
  unfolding cancellable_with_id update_where count_where
  cancel_workflow_run now (some e) k t = (err (db (text "Failed to cancel workflow run: " ++ e)), t)
  cancel_workflow_run now none k t = (
    ok (ltb 0 (count_where (cancellable_with_id k) t)),
    update_where (cancellable_with_id k)
        (λ r. record r { status = cancelled; completed_at = some now }) t,
  )

  -- How many rows were failed.
  unfoldable pub fail_orphaned_runs : ℕ → Option Text → Table → Result StoreError ℕ × Table
  unfolding is_running_row update_where count_where merge_metadata
  fail_orphaned_runs now (some e) t =
      (err (db (text "Failed to fail orphaned workflow runs: " ++ e)), t)
  fail_orphaned_runs now none t = (
    ok (count_where is_running_row t),
    update_where is_running_row
        (λ r.
          merge_metadata (some (field (text "failure_reason") (string (text "server_restart")) end))
            (record r { status = failed; completed_at = some now }))
        t,
  )

  unfoldable pub update_workflow_activity :
      ℕ → Option Text → Text → Table → Result StoreError (Unit {0}) × Table
  unfolding has_id update_where
  update_workflow_activity now (some e) k t = (err (db e), t)
  update_workflow_activity now none k t =
      (ok tt, update_where (has_id k) (λ r. record r { last_activity_at = some now }) t)

  -- An update that names nothing runs no statement.
  unfoldable pub update_workflow_run :
      ℕ
      → Option Text
      → Text
      → Option WorkflowRunStatus
      → Option Fields
      → Table
      → Result StoreError (Unit {0}) × Table
  unfolding guarded_update prefixed_unless_not_found has_id set_status merge_metadata
  update_workflow_run now fault k none none t = (ok tt, t)
  update_workflow_run now fault k (some s) m t =
      guarded_update fault (prefixed_unless_not_found (text "Failed to update workflow run: "))
        (not_found k) (has_id k) (λ r. merge_metadata m (set_status now (some s) m r)) t
  update_workflow_run now fault k none (some m) t =
      guarded_update fault (prefixed_unless_not_found (text "Failed to update workflow run: "))
        (not_found k) (has_id k) (λ r. merge_metadata (some m) (set_status now none (some m) r)) t
