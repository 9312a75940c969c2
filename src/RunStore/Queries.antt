-- ===== src/RunStore/Queries.antt =====
-- The methods of `SqlWorkflowStore` that read runs, crates/har-db/src/workflows.rs, and
-- `resume_workflow_run`, whose two statements another client may come between. `datetime` is the
-- engine's function of that name, by which SQLite compares times. Of rows that a query's order
-- leaves equal, the first is taken.
use harness_agent_rs.Prelude.{
  ℕ, ◌-◌, ◌==◌, Bool, true, false, not, ◌&&◌, ◌||◌, Option, none, some, [], ◌∷◌, ◌++◌, Text, text,
  text_eq, ltb, if◌then◌else◌, Result, ok, err, keep,
}
use harness_agent_rs.Schema.Run.{WorkflowRunStatus, pending, running, paused, is_one_of}
use harness_agent_rs.RunStore.Table.{
  Run, Table, StoreError, db, status_to_str, update_where, count_where, select_by_id,
  resumable_status_clause, stale_pending_age_ms,
}
use harness_agent_rs.RunStore.Transitions.{resumable_with_id, not_found}

unfoldable pub get_workflow_run : Option Text → Text → Table → Result StoreError (Option Run)
unfolding select_by_id
get_workflow_run (some e) k t = err (db (text "Failed to get workflow run: " ++ e))
get_workflow_run none k t = ok (select_by_id k t)

abbrev status_of : Option Run → Option WorkflowRunStatus
status_of none = none
status_of (some r) = some r.status

unfoldable pub get_workflow_run_status :
    Option Text → Text → Table → Result StoreError (Option WorkflowRunStatus)
unfolding select_by_id
get_workflow_run_status (some e) k t = err (db (text "Failed to get workflow run status: " ++ e))
get_workflow_run_status none k t = ok (status_of (select_by_id k t))

-- The order of ids as text.
unfoldable pub text_lt : Text → Text → Bool
text_lt [] [] = false
text_lt [] (b ∷ t) = true
text_lt (a ∷ s) [] = false
text_lt (a ∷ s) (b ∷ t) = ltb a b || (a == b && text_lt s t)

-- `ORDER BY … LIMIT 1`.
unfoldable pub pick : (Run → Run → Bool) → Run → Option Run → Option Run
pick before r none = some r
pick before r (some s) = if before s r then some s else some r

unfoldable pub first_by : (Run → Run → Bool) → Table → Option Run
unfolding pick
first_by before [] = none
first_by before (r ∷ t) = pick before r (first_by before t)

-- `ORDER BY started_at ASC, id ASC`.
unfoldable pub starts_before : Run → Run → Bool
unfolding text_lt
starts_before r s =
    ltb r.started_at s.started_at || (r.started_at == s.started_at && text_lt r.id s.id)

pub data Dialect : Type 0 where
  postgres sqlite : Dialect

pub record ActiveRunSelf : Type 0 where
  pub id : Text
  pub started_at : ℕ

-- The statuses that hold the lock.
unfoldable pub holds_lock : ℕ → Run → Bool
unfolding is_one_of
holds_lock now r =
    is_one_of r.status (running ∷ paused ∷ [])
    || (is_one_of r.status (pending ∷ []) && ltb (now - stale_pending_age_ms) r.started_at)

module _ (datetime : ℕ → ℕ) where
  -- The column as the dialect compares it.
  unfoldable pub instant : Dialect → ℕ → ℕ
  instant postgres at = at
  instant sqlite at = datetime at

  -- The clauses that `self_run` adds: another run, and an older one.
  unfoldable pub is_older_than : Dialect → Option ActiveRunSelf → Run → Bool
  unfolding instant text_lt
  is_older_than d none r = true
  is_older_than d (some self) r =
      not (text_eq r.id self.id)
      && (ltb (instant d r.started_at) (instant d self.started_at)
          || (instant d r.started_at == instant d self.started_at && text_lt r.id self.id))

  -- `working_path` is bound as the parameter `$1`, which no clause mentions.
  unfoldable pub get_active_workflow_run_by_path :
      Dialect
      → ℕ
      → Option Text
      → Text
      → Option ActiveRunSelf
      → Table
      → Result StoreError (Option Run)
  unfolding holds_lock is_older_than starts_before first_by
  get_active_workflow_run_by_path d now (some e) working_path self t =
      err (db (text "Failed to get active workflow run by path: " ++ e))
  get_active_workflow_run_by_path d now none working_path self t =
      ok (first_by starts_before (keep (λ r. holds_lock now r && is_older_than d self r) t))

abbrev path_is : Text → Option Text → Bool
path_is p none = false
path_is p (some q) = text_eq q p

-- `ORDER BY started_at DESC`.
unfoldable pub starts_after : Run → Run → Bool
starts_after r s = ltb s.started_at r.started_at

unfoldable pub find_resumable_run :
    ℕ → Option Text → Text → Text → Table → Result StoreError (Option Run)
unfolding resumable_status_clause first_by starts_after
find_resumable_run now (some e) workflow_name working_path t =
    err (db (text "Failed to find resumable run: " ++ e))
find_resumable_run now none workflow_name working_path t = ok (
    first_by starts_after (
      keep
        (λ r.
          text_eq r.workflow_name workflow_name
          && (path_is working_path r.working_path && resumable_status_clause now r))
        t))

-- `resume_cas_miss_probe`: why no row was resumed.
unfoldable pub miss : Text → Option WorkflowRunStatus → StoreError
unfolding status_to_str
miss k none = not_found k
miss k (some s) = db (
    text "WorkflowNotResumableError(run_id="
    ++ k
    ++ text ", current_status="
    ++ status_to_str s
    ++ text ")")

unfoldable pub resume_cas_miss_probe : Option Text → Text → Table → Result StoreError Run
unfolding select_by_id miss
resume_cas_miss_probe (some e) k t = err (db (text "Failed to resume workflow run: " ++ e))
resume_cas_miss_probe none k t = err (miss k (status_of (select_by_id k t)))

-- The second statement of `resume_workflow_run`, and what it makes of the row.
unfoldable pub or_vanished : Text → Option Run → Result StoreError Run
or_vanished k none = err (db (text "Workflow run vanished after update (id: " ++ k ++ text ")"))
or_vanished k (some r) = ok r

unfoldable pub read_back : Option Text → Text → Table → Result StoreError Run
unfolding select_by_id or_vanished
read_back (some e) k t = err (db (text "Failed to read workflow run after update: " ++ e))
read_back none k t = or_vanished k (select_by_id k t)

-- The row that a resume writes.
unfoldable pub set_resumed : ℕ → Run → Run
set_resumed now r = record r {
  status = running;
  completed_at = none;
  started_at = now;
  last_activity_at = some now;
}

-- `between` is what other clients do to the table after the update and before the next statement.
unfoldable pub resume_workflow_run :
    ℕ → Option Text → Option Text → (Table → Table) → Text → Table → Result StoreError Run × Table
unfolding resumable_with_id update_where count_where set_resumed resume_cas_miss_probe read_back
resume_workflow_run now (some e) fault between k t =
    (err (db (text "Failed to resume workflow run: " ++ e)), t)
resume_workflow_run now none fault between k t =
    if count_where (resumable_with_id now k) t == 0
    then (resume_cas_miss_probe fault k (between t), between t)
    else (
      read_back fault k (between (update_where (resumable_with_id now k) (set_resumed now) t)),
      between (update_where (resumable_with_id now k) (set_resumed now) t),
    )
