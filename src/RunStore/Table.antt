-- ===== src/RunStore/Table.antt =====
-- The table of runs and its statements, crates/har-db/src/workflows.rs. A statement that the engine
-- refuses is a `fault`, the text of its error; it changes no row. Times are milliseconds.
use harness_agent_rs.Prelude.{
  ℕ, suc, ◌-◌, ◌*◌, Bool, true, ◌&&◌, ◌||◌, Option, none, some, List, [], ◌∷◌, Text, text, text_eq,
  ltb, if◌then◌else◌,
}
use harness_agent_rs.Schema.Run.{
  WorkflowRun, WorkflowRunStatus, pending, running, completed, failed, cancelled, paused, is_one_of,
}
use harness_agent_rs.Schema.Json.{Fields}

abbrev pub orphan_resume_stale_days : ℕ
orphan_resume_stale_days = 1

abbrev pub stale_pending_age_ms : ℕ
stale_pending_age_ms = 5 * 60 * 1000

abbrev pub day_ms : ℕ
day_ms = 24 * 60 * 60 * 1000

abbrev pub Run : Type 0
Run = WorkflowRun Fields

abbrev pub Table : Type 0
Table = List Run

pub data StoreError : Type 0 where
  db : Text → StoreError

unfoldable pub status_to_str : WorkflowRunStatus → Text
status_to_str pending = text "pending"
status_to_str running = text "running"
status_to_str completed = text "completed"
status_to_str failed = text "failed"
status_to_str cancelled = text "cancelled"
status_to_str paused = text "paused"

-- `UPDATE … SET set WHERE where`: the rows, and how many were written.
unfoldable pub update_where : (Run → Bool) → (Run → Run) → Table → Table
update_where p f [] = []
update_where p f (r ∷ t) = (if p r then f r else r) ∷ update_where p f t

unfoldable pub count_where : (Run → Bool) → Table → ℕ
count_where p [] = 0
count_where p (r ∷ t) = let rest = count_where p t in if p r then suc rest else rest

-- `SELECT * … WHERE id = $1`, the first row.
unfoldable pub select_by_id : Text → Table → Option Run
select_by_id k [] = none
select_by_id k (r ∷ t) = if text_eq r.id k then some r else select_by_id k t

-- `id = $1`, `id = $1 AND status = 'running'` and the like.
unfoldable pub has_id : Text → Run → Bool
has_id k r = text_eq r.id k

unfoldable pub is_running_row : Run → Bool
unfolding is_one_of
is_running_row r = is_one_of r.status (running ∷ [])

-- `last_activity_at IS NULL OR last_activity_at < cutoff`.
unfoldable pub is_stale_since : ℕ → Option ℕ → Bool
is_stale_since cutoff none = true
is_stale_since cutoff (some at) = ltb at cutoff

-- `resumable_status_clause`, at the time `now`.
unfoldable pub resumable_status_clause : ℕ → Run → Bool
unfolding is_one_of is_stale_since
resumable_status_clause now r =
    is_one_of r.status (failed ∷ paused ∷ [])
    || (is_one_of r.status (running ∷ [])
        && is_stale_since (now - orphan_resume_stale_days * day_ms) r.last_activity_at)
