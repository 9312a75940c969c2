-- ===== src/RunStore/Cleanup.antt =====
-- What deleting runs removes and what it leaves, crates/har-db/src/workflows.rs.
use harness_agent_rs.Prelude.{
  All, ℕ, ◌-◌, ◌*◌, ◌^◌, ◌-◌, ◌<◌, ◌≡◌, refl, Bool, true, false, not, Option, none, some, List, [],
  ◌∷◌, arith, Text, text_eq, text_eq_iff, ok, err, keep, any, ◌⊎◌, ◌≤◌,
}
use harness_agent_rs.Schema.Run.{pending, running, paused, is_one_of}
use harness_agent_rs.RunStore.Table.{Run, Table, StoreError, select_by_id, has_id, day_ms}
use harness_agent_rs.RunStore.Deletion.{
  Event, Database, is_finished, is_old, delete_old_workflow_runs, without_run, delete_found,
  delete_workflow_run,
}

-- Removing rows that one id does not have keeps what that id finds.
select-keep :
    (p : Run → Bool) (j : Text) (t : Table)
    → ((r : Run) → text_eq r.id j ≡ true → p r ≡ true)
    → select_by_id j (keep p t) ≡ select_by_id j t
unfolding select_by_id
select-keep p j [] h = refl
select-keep p j (r ∷ t) h = ground (arith, h r, select-keep p j t h)

select-removed : (k : Text) (t : Table) → select_by_id k (keep (λ r. not (has_id k r)) t) ≡ none
unfolding select_by_id has_id
select-removed k [] = refl
select-removed k (r ∷ t) = ground (arith, select-removed k t)

events-removed :
    (k : Text) (es : List Event)
    → any (λ v. text_eq v.workflow_run_id k) (keep (λ v. not (text_eq v.workflow_run_id k)) es)
      ≡ false
events-removed k [] = refl
events-removed k (v ∷ es) = ground (arith, events-removed k es)

other-kept :
    (k j : Text) → text_eq j k ≡ false → (r : Run) → text_eq r.id j ≡ true → not (has_id k r) ≡ true
unfolding has_id
other-kept k j ne r e = ground (arith, text_eq_iff r.id j, text_eq_iff r.id k, text_eq_iff j k)

found-shape :
    (fault : Option Text) (k : Text) (o : Option Run) (d : Database)
    → (delete_found fault k o d).0 ≡ ok tt
    → (r : Run) × (o ≡ some r)
      × (is_finished r ≡ true)
      × ((delete_found fault k o d).1 ≡ without_run k d)
unfolding delete_found
found-shape fault k none d h = cc
found-shape (some e) k (some r) d h = absurd (ground arith)
found-shape none k (some r) d h = (r, refl, ground arith, ground arith)

delete-shape :
    (check fault : Option Text) (k : Text) (d : Database)
    → (delete_workflow_run check fault k d).0 ≡ ok tt
    → (r : Run) × (select_by_id k d.runs ≡ some r)
      × (is_finished r ≡ true)
      × ((delete_workflow_run check fault k d).1 ≡ without_run k d)
unfolding delete_workflow_run
delete-shape (some e) fault k d h = cc
delete-shape none fault k d h = found-shape fault k (select_by_id k d.runs) d h

-- A deletion that succeeds found a finished run. It leaves neither the run nor an event of it, and
-- every other id finds what it found before.
pub delete_workflow_run-ok :
    (check fault : Option Text) (k : Text) (d : Database)
    → (delete_workflow_run check fault k d).0 ≡ ok tt
    → (r : Run) × (select_by_id k d.runs ≡ some r)
      × (is_finished r ≡ true)
      × (select_by_id k (delete_workflow_run check fault k d).1.runs ≡ none)
      × (any (λ v. text_eq v.workflow_run_id k) (delete_workflow_run check fault k d).1.events
          ≡ false)
      × ((j : Text)
          → text_eq j k ≡ false
          → select_by_id j (delete_workflow_run check fault k d).1.runs ≡ select_by_id j d.runs)
delete_workflow_run-ok check fault k d h =
    let (r, found, finished, left) = delete-shape check fault k d h in
    (
      r,
      found,
      finished,
      rw left (unfold without_run in select-removed k d.runs),
      rw left (unfold without_run in events-removed k d.events),
      λ j ne. rw left (unfold without_run in select-keep _ j d.runs (other-kept k j ne)),
    )

-- A deletion that fails leaves the runs and the events as they were.
pub delete_workflow_run-err :
    (check fault : Option Text) (k : Text) (d : Database) (e : StoreError)
    → (delete_workflow_run check fault k d).0 ≡ err e
    → (delete_workflow_run check fault k d).1 ≡ d
unfolding delete_workflow_run
delete_workflow_run-err check fault k d e h = ground arith

select-keep-not :
    (p : Run → Bool) (j : Text) (t : Table)
    → All (λ r. text_eq r.id j ≡ true → p r ≡ false) t
    → select_by_id j (keep (λ r. not (p r)) t) ≡ select_by_id j t
unfolding select_by_id
select-keep-not p j [] h = refl
select-keep-not p j (r ∷ t) (h, hs) = ground (arith, h, select-keep-not p j t hs)

-- A run that a clean-up has to leave: it is not at an end, or it started at the cutoff or after it.
abbrev pub Spared : ℕ → Run → Type 0
Spared cutoff r =
    (r.status ≡ pending) ⊎ ((r.status ≡ running) ⊎ ((r.status ≡ paused) ⊎ (cutoff ≤ r.started_at)))

Spared-is_old : (cutoff : ℕ) (r : Run) → Spared cutoff r → is_old cutoff r ≡ false
unfolding is_old is_finished is_one_of
Spared-is_old cutoff r h = ground arith

Spared-All :
    (cutoff : ℕ) (j : Text) (t : Table)
    → All (λ r. text_eq r.id j ≡ true → Spared cutoff r) t
    → All (λ r. text_eq r.id j ≡ true → is_old cutoff r ≡ false) t
Spared-All cutoff j [] a = _
Spared-All cutoff j (r ∷ t) (a, rest) =
    (λ e. Spared-is_old cutoff r (a e), Spared-All cutoff j t rest)

-- If every run of the table with an id is pending, running or paused, or started no earlier than the
-- given number of days ago, that id finds after the clean-up, whether or not the engine fails, what it
-- found before. The number of days has 32 bits.
pub delete_old-keeps :
    (now days : ℕ) (fault : Option Text) (j : Text) (d : Database)
    → days < 2 ^ 32
    → All (λ r. text_eq r.id j ≡ true → Spared (now - days * day_ms) r) d.runs
    → select_by_id j (delete_old_workflow_runs now fault days d).1.runs ≡ select_by_id j d.runs
unfolding delete_old_workflow_runs
delete_old-keeps now days (some e) j d h k = ground arith
delete_old-keeps now days none j d h k =
    let cutoff = now - days * day_ms in
    ground (arith, select-keep-not (is_old cutoff) j d.runs (Spared-All cutoff j d.runs k))
