-- ===== src/Examples/Store.antt =====
-- The run store on concrete tables, crates/har-db/src/workflows.rs.
use harness_agent_rs.Prelude.{
  ℕ, ◌≡◌, refl, ◌⊎◌, ◌+◌, true, none, some, List, [], ◌∷◌, text, text_eq, All, arith, ok, err, inl,
  inr, Result,
}
use harness_agent_rs.Schema.Run.{completed, cancelled, running, is_one_of}
use harness_agent_rs.RunStore.Table.{
  Run, Table, StoreError, select_by_id, day_ms, count_where, has_id,
}
use harness_agent_rs.RunStore.History.{Write, complete, cancel, resume, apply, apply_all}
use harness_agent_rs.RunStore.Transitions.{cancel_workflow_run}
use harness_agent_rs.RunStore.Lifecycle.{
  finished_stays, apply_moves, IsDated, apply_all-IsDated, may_move,
}
use harness_agent_rs.RunStore.Resumption.{SparesRow, resume_once, resume_workflow_run_lem, Resumes}
use harness_agent_rs.RunStore.Matching.{IsUnique}
use harness_agent_rs.RunStore.Queries.{
  resume_workflow_run, set_resumed, sqlite, get_active_workflow_run_by_path, holds_lock,
}
use harness_agent_rs.RunStore.Deletion.{Database, delete_old_workflow_runs}
use harness_agent_rs.RunStore.Cleanup.{delete_old-keeps}
use harness_agent_rs.Examples.Samples.{done, active, held, keep_first}

abbrev three_runs : Table
three_runs = done ∷ active ∷ held ∷ []

abbrev calls : List Write
calls =
    cancel 50 none (text "done")
    ∷ resume 60 none none (text "done")
    ∷ complete 70 none (text "active") none
    ∷ []

abbrev clock : ℕ → ℕ
clock at = at

abbrev database : Database
database = record { runs = three_runs; events = [] }

-- A cancelled run reports that it was cancelled.
cancel_test :
    select_by_id (text "held") (apply keep_first (cancel 50 none (text "held")) three_runs)
    ≡ some (record held { status = cancelled; completed_at = some 50 })
unfolding apply select_by_id cancel_workflow_run text_eq
cancel_test = refl

finished_stays_example :
    (r' : Run) × (select_by_id (text "done") (apply_all keep_first calls three_runs) ≡ some r')
    × (r'.status ≡ completed)
    × (r'.completed_at ≡ some 20)
    × (r'.metadata ≡ done.metadata)
unfolding select_by_id is_one_of text_eq
finished_stays_example =
    finished_stays keep_first calls (text "done") three_runs done (refl, (refl, (refl, tt))) refl
      refl

apply_moves_example :
    (r' : Run) × (select_by_id
        (text "active")
        (apply keep_first (cancel 50 none (text "active")) three_runs)
      ≡ some r')
    × ((r'.status ≡ running) ⊎ (may_move running r'.status ≡ true))
unfolding select_by_id text_eq
apply_moves_example =
    apply_moves keep_first (cancel 50 none (text "active")) (text "active") three_runs active refl
      refl

apply_all-IsDated_example : All IsDated (apply_all keep_first calls three_runs)
unfolding is_one_of text_eq
apply_all-IsDated_example =
    apply_all-IsDated keep_first calls three_runs ((λ a h. cc), ((λ a h. cc), ((λ a h. cc), tt)))

held-IsUnique : IsUnique (text "held") three_runs
unfolding count_where has_id text_eq
held-IsUnique = omega arith

resume_workflow_run_lem_example :
    Resumes 90
      (text "held")
      three_runs
      (resume_workflow_run 90 none none (λ u. u) (text "held") three_runs)
resume_workflow_run_lem_example = resume_workflow_run_lem (text "held") 90 three_runs held-IsUnique

-- Another client's new run.
abbrev joined : Table → Table
joined t = active ∷ t

joined-SparesRow : SparesRow (text "held") joined
unfolding select_by_id count_where has_id text_eq
joined-SparesRow t = (refl, refl)

abbrev first_resume : Result StoreError Run × Table
first_resume = resume_workflow_run 90 none none joined (text "held") three_runs

resume_once_example :
    (e : StoreError) × ((resume_workflow_run 95 none none joined (text "held") first_resume.1).0
      ≡ err e)
    × (select_by_id
          (text "held")
          (resume_workflow_run 95 none none joined (text "held") first_resume.1).1
        ≡ some (set_resumed 90 held))
unfolding resume_workflow_run text_eq
resume_once_example =
    resume_once (text "held") 90 95 none none none none joined joined three_runs
      (set_resumed 90 held) held-IsUnique joined-SparesRow joined-SparesRow (omega arith) refl

-- The path does not narrow the search.
other_path_test :
    get_active_workflow_run_by_path clock sqlite 50 none (text "/other") none (active ∷ [])
    ≡ ok (some active)
unfolding get_active_workflow_run_by_path holds_lock text_eq
other_path_test = refl

delete_old-keeps_example :
    select_by_id (text "active") (delete_old_workflow_runs (day_ms + 100) none 1 database).1.runs
    ≡ select_by_id (text "active") three_runs
unfolding text_eq
delete_old-keeps_example =
    delete_old-keeps (day_ms + 100) 1 none (text "active") database (omega arith)
      ((λ h. cc), ((λ h. inr (inl refl)), ((λ h. cc), tt)))
