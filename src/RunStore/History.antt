-- ===== src/RunStore/History.antt =====
-- Sequences of writes to the run store, crates/har-db/src/workflows.rs: each method as one guarded
-- update of rows, the moves of a run's status, and what holds after any sequence.
use harness_agent_rs.Prelude.{
  ℕ, ◌≡◌, refl, ap, Bool, true, false, Option, none, some, List, [], ◌∷◌, arith, Text, text,
  if◌then◌else◌,
}
use harness_agent_rs.Schema.Json.{Json, Fields, field, end, string}
use harness_agent_rs.Schema.Run.{WorkflowRunStatus, completed, failed, cancelled, paused}
use harness_agent_rs.RunStore.Table.{Run, Table, update_where, count_where, has_id, is_running_row}
use harness_agent_rs.RunStore.Transitions.{
  running_with_id, cancellable_with_id, resumable_with_id, set_status, merge_metadata,
  complete_workflow_run, fail_workflow_run, pause_workflow_run, cancel_workflow_run,
  fail_orphaned_runs, update_workflow_activity, update_workflow_run,
}
use harness_agent_rs.RunStore.Queries.{set_resumed, resume_workflow_run}

-- A call of a writing method: its time and fault, where it has them, and its arguments.
pub data Write : Type 0 where
  complete : ℕ → Option Text → Text → Option Fields → Write
  fail : ℕ → Option Text → Text → Text → Write
  pause : Option Text → Text → Json → Write
  cancel : ℕ → Option Text → Text → Write
  fail_orphans : ℕ → Option Text → Write
  touch : ℕ → Option Text → Text → Write
  resume : ℕ → Option Text → Option Text → Text → Write
  update : ℕ → Option Text → Text → Option WorkflowRunStatus → Option Fields → Write

-- `update_workflow_run` is the one method whose statement has no guard on the status.
abbrev pub is_guarded : Write → Bool
is_guarded (update _ _ _ _ _) = false
is_guarded _ = true

module _ (merge : Fields → Fields → Fields) where
  -- The table after a call.
  unfoldable pub apply : Write → Table → Table
  apply (complete now fault k md) t = (complete_workflow_run merge now fault k md t).1
  apply (fail now fault k m) t = (fail_workflow_run merge now fault k m t).1
  apply (pause fault k a) t = (pause_workflow_run merge fault k a t).1
  apply (cancel now fault k) t = (cancel_workflow_run merge now fault k t).1
  apply (fail_orphans now fault) t = (fail_orphaned_runs merge now fault t).1
  apply (touch now fault k) t = (update_workflow_activity merge now fault k t).1
  apply (resume now fault read k) t = (resume_workflow_run now fault read (λ u. u) k t).1
  apply (update now fault k s m) t = (update_workflow_run merge now fault k s m t).1

  unfoldable pub apply_all : List Write → Table → Table
  unfolding apply
  apply_all [] t = t
  apply_all (w ∷ ws) t = apply_all ws (apply w t)

  -- The rows that a call may write. One that the engine refuses writes none.
  unfoldable pub guard : Write → Run → Bool
  unfolding running_with_id cancellable_with_id is_running_row has_id resumable_with_id
  guard (complete now none k md) r = running_with_id k r
  guard (fail now none k m) r = running_with_id k r
  guard (pause none k a) r = running_with_id k r
  guard (cancel now none k) r = cancellable_with_id k r
  guard (fail_orphans now none) r = is_running_row r
  guard (touch now none k) r = has_id k r
  guard (resume now none read k) r = resumable_with_id now k r
  guard (update now none k s m) r = has_id k r
  guard _ r = false

  -- What it writes in such a row.
  unfoldable pub write : Write → Run → Run
  unfolding merge_metadata set_status set_resumed
  write (complete now fault k md) r =
      merge_metadata merge md (record r { status = completed; completed_at = some now })
  write (fail now fault k m) r =
      merge_metadata merge (some (field (text "error") (string m) end))
        (record r { status = failed; completed_at = some now })
  write (pause fault k a) r =
      merge_metadata merge (some (field (text "approval") a end)) (record r { status = paused })
  write (cancel now fault k) r = record r { status = cancelled; completed_at = some now }
  write (fail_orphans now fault) r =
      merge_metadata merge
        (some (field (text "failure_reason") (string (text "server_restart")) end))
        (record r { status = failed; completed_at = some now })
  write (touch now fault k) r = record r { last_activity_at = some now }
  write (resume now fault read k) r = set_resumed now r
  write (update now fault k s m) r = merge_metadata merge m (set_status now s m r)

  -- A call's effect on one row.
  unfoldable pub row : Write → Run → Run
  unfolding guard write
  row w r = if guard w r then write w r else r

pub update_where_nothing :
    (p : Run → Bool) (f : Run → Run) (t : Table) → count_where p t ≡ 0 → update_where p f t ≡ t
unfolding update_where count_where
update_where_nothing p f [] h = refl
update_where_nothing p f (r ∷ t) h = ground (arith, update_where_nothing p f t)

pub update_where_never : (f : Run → Run) (t : Table) → update_where (λ _. false) f t ≡ t
unfolding update_where
update_where_never f [] = refl
update_where_never f (r ∷ t) = ap (λ u. r ∷ u) (update_where_never f t)
