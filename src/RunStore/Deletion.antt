-- ===== src/RunStore/Deletion.antt =====
-- Clean-up of the run store, crates/har-db/src/workflows.rs: `delete_old_workflow_runs` and
-- `delete_workflow_run`. Both run in a transaction, which a fault of any statement undoes.
use harness_agent_rs.Prelude.{
  ℕ, ◌-◌, ◌*◌, ◌^◌, Bool, not, ◌&&◌, Option, none, some, List, [], ◌∷◌, ◌++◌, Text, text, text_eq,
  ltb, if◌then◌else◌, Result, ok, err, keep, any,
}
use harness_agent_rs.Schema.Json.{Fields}
use harness_agent_rs.Schema.Run.{completed, failed, cancelled, is_one_of}
use harness_agent_rs.RunStore.Table.{
  Run, Table, StoreError, db, count_where, select_by_id, has_id, day_ms,
}

-- A row of `remote_agent_workflow_events`.
pub record Event : Type 0 where
  pub workflow_run_id : Text
  pub event_type : Text
  pub step_name : Option Text
  pub payload : Fields

pub record Database : Type 0 where
  pub runs : Table
  pub events : List Event

unfoldable pub is_finished : Run → Bool
unfolding is_one_of
is_finished r = is_one_of r.status (completed ∷ failed ∷ cancelled ∷ [])

-- `status IN ('completed', 'failed', 'cancelled') AND started_at < cutoff`.
unfoldable pub is_old : ℕ → Run → Bool
unfolding is_finished
is_old cutoff r = is_finished r && ltb r.started_at cutoff

unfoldable pub delete_old_workflow_runs :
    ℕ → Option Text → ℕ → Database → Result StoreError ℕ × Database
unfolding is_old count_where
delete_old_workflow_runs now fault older_than_days d =
    if ltb (2 ^ 32 - 1) older_than_days
    then (err (db (text "Invalid olderThanDays")), d)
    else elim fault [
      | some e ↦ (err (db (text "Failed to clean up old workflow runs: " ++ e)), d)
      | none ↦ (
        ok (count_where (is_old (now - older_than_days * day_ms)) d.runs),
        record {
          runs = keep (λ r. not (is_old (now - older_than_days * day_ms) r)) d.runs;
          events =
              keep
                (λ v. not (
                  any
                    (λ r.
                      is_old (now - older_than_days * day_ms) r && text_eq r.id v.workflow_run_id)
                    d.runs))
                d.events;
        },
      )
    ]

abbrev not_terminal : Text → StoreError
not_terminal k = db (text "Workflow run not found or not terminal: " ++ k)

-- What the two `DELETE`s leave.
unfoldable pub without_run : Text → Database → Database
unfolding has_id
without_run k d = record {
  runs = keep (λ r. not (has_id k r)) d.runs;
  events = keep (λ v. not (text_eq v.workflow_run_id k)) d.events;
}

-- The guard of `delete_workflow_run`, on the row that its first statement found.
unfoldable pub delete_found :
    Option Text → Text → Option Run → Database → Result StoreError (Unit {0}) × Database
unfolding is_finished without_run
delete_found fault k none d = (err (not_terminal k), d)
delete_found (some e) k (some r) d =
    if is_finished r
    then (err (db (text "Failed to delete workflow run: " ++ e)), d)
    else (err (not_terminal k), d)
delete_found none k (some r) d =
    if is_finished r then (ok tt, without_run k d) else (err (not_terminal k), d)

-- A fault of the check is reported as a missing run, one of a `DELETE` as itself.
unfoldable pub delete_workflow_run :
    Option Text → Option Text → Text → Database → Result StoreError (Unit {0}) × Database
unfolding select_by_id delete_found
delete_workflow_run (some e) fault k d = (err (not_terminal k), d)
delete_workflow_run none fault k d = delete_found fault k (select_by_id k d.runs) d
