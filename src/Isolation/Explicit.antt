-- ===== src/Isolation/Explicit.antt =====
-- `resolve` of crates/har-isolation/src/resolver.rs keeps its promise on every request: the explicit
-- environment, and the whole.
use harness_agent_rs.Prelude.{
  ◌≡◌, refl, sym, subst, ◌⊎◌, inl, inr, Text, text, Bool, true, false, Option, none, some, [], ◌∷◌,
  ◌++◌, All, All-append, Result, ok, err, if◌then◌else◌,
}
use harness_agent_rs.Isolation.{
  IsolationError, IsolationHints, IsolationEnvironmentRow, existing, ResolvedPayload,
  IsolationResolution, resolved, stale_cleaned,
}
use harness_agent_rs.Isolation.Calls.{Done, Log, give, Outside, looked, status_set, fetched}
use harness_agent_rs.Isolation.Checks.{or_false}
use harness_agent_rs.Isolation.Reuse.{
  check_existing, check_row, reuse_with_warnings, give_up, reused,
}
use harness_agent_rs.Isolation.Resolve.{stage_existing}
use harness_agent_rs.Isolation.Ensures.{
  Ensures, give-rule, weaken, then-rule, tried-rule, on_disk-rule,
}
use harness_agent_rs.Isolation.Contract.{Occurs, Marks, All-Reads-Marks, InPlace, Occurs-left}
use harness_agent_rs.Isolation.Stages.{
  GivesUp, give_up-Ensures, Reuses, reuse_with_warnings-Ensures, last,
}

-- What the check of an explicit environment promises.
unfoldable pub ExistingPromise :
    Text → Result IsolationError (Option IsolationResolution) → Log → Type 0
ExistingPromise id (err e) l = All (Marks id) l
ExistingPromise id (ok none) l =
    All (Marks id) l
    × (Occurs (fetched id (ok none)) l
        ⊎ ((r : Result IsolationError Done) × Occurs (status_set id (text "destroyed") r) l))
ExistingPromise id (ok (some r)) l =
    (p : ResolvedPayload) × (r ≡ resolved p) × InPlace id p l × All (Marks id) l

module _ (o : Outside) (id : Text) (hints : Option IsolationHints) where
  taken-ExistingPromise :
      (row : IsolationEnvironmentRow) (r : Result IsolationError (Option IsolationResolution))
      (new : Log)
      → Reuses row existing r new
      → ExistingPromise id r
          ((new ++ looked row.working_path (ok true) ∷ []) ++ fetched id (ok (some row)) ∷ [])
  unfolding Reuses ExistingPromise reused
  taken-ExistingPromise row r new h =
      let path = row.working_path in
      let mid : Log = new ++ looked path (ok true) ∷ [] in
      let oldest : Log = fetched id (ok (some row)) ∷ [] in
      subst (λ t. ExistingPromise id t (mid ++ oldest)) (sym h.0.1)
        (
          record { env = row; cwd = path; method = existing; warnings = h.0.0 },
          refl,
          (
            refl,
            refl,
            last (fetched id (ok (some row))) mid,
            Occurs-left (looked path (ok true)) mid oldest (last (looked path (ok true)) new),
          ),
          All-append (Marks id) mid oldest
              (All-append (Marks id) new (looked path (ok true) ∷ []) (All-Reads-Marks id new h.1)
                (_, _))
              (_, _),
        )

  gone-ExistingPromise :
      (a : Result Text Bool) (row : IsolationEnvironmentRow)
      → Ensures (give_up o id) (λ r new.
        ExistingPromise id r
          ((new ++ looked row.working_path a ∷ []) ++ fetched id (ok (some row)) ∷ []))
  unfolding ExistingPromise GivesUp
  gone-ExistingPromise a row =
      weaken _ (give_up o id) (GivesUp id) (give_up-Ensures o id) (λ r new h.
        subst
          (λ t.
            ExistingPromise id r
              ((t ++ looked row.working_path a ∷ []) ++ fetched id (ok (some row)) ∷ []))
          (sym h.1.1)
          (subst
            (λ t. ExistingPromise id t (
              status_set id (text "destroyed") h.1.0
              ∷ looked row.working_path a
              ∷ fetched id (ok (some row))
              ∷ []))
            (sym h.0) (((refl, refl), (_, (_, _))), inr (h.1.0, inl refl))))

  check_row-Ensures :
      (row : IsolationEnvironmentRow)
      → Ensures
          (check_row o id hints row)
          (λ r new. ExistingPromise id r (new ++ fetched id (ok (some row)) ∷ []))
  unfolding check_row ExistingPromise
  check_row-Ensures row =
      on_disk-rule (λ r new. ExistingPromise id r (new ++ fetched id (ok (some row)) ∷ [])) o
        row.working_path _ (λ x. (_, _))
        (λ a.
          elim a
            as (λ b.
              Ensures
                (if or_false b then reuse_with_warnings o row existing hints else give_up o id)
                (λ r new.
                  ExistingPromise id r
                    ((new ++ looked row.working_path b ∷ []) ++ fetched id (ok (some row)) ∷ []))) [
                      | err x ↦ gone-ExistingPromise (err x) row
                      | ok false ↦ gone-ExistingPromise (ok false) row
                      | ok true ↦
                          weaken _ (reuse_with_warnings o row existing hints) (Reuses row existing)
                            (reuse_with_warnings-Ensures o row existing hints)
                            (taken-ExistingPromise row)
                    ])

  pub check_existing-Ensures : Ensures (check_existing o id hints) (ExistingPromise id)
  unfolding check_existing ExistingPromise
  check_existing-Ensures =
      tried-rule (ExistingPromise id) (λ l. o.get_by_id l id) (fetched id) _ (λ x. (_, _)) go
    where
      go :
          (b : Option IsolationEnvironmentRow)
          → Ensures
              (elim b [ none ↦ give (ok none) | some row ↦ check_row o id hints row ])
              (λ r new. ExistingPromise id r (new ++ fetched id (ok b) ∷ []))
      go none =
          give-rule (λ r new. ExistingPromise id r (new ++ fetched id (ok none) ∷ [])) (ok none)
            ((_, _), inl (inl refl))
      go (some row) = check_row-Ensures row

-- The whole stage.
unfoldable pub ExplicitPromise : Text → Result IsolationError IsolationResolution → Log → Type 0
ExplicitPromise id (err e) l = All (Marks id) l
ExplicitPromise id (ok (resolved p)) l = InPlace id p l × All (Marks id) l
ExplicitPromise id (ok (stale_cleaned d)) l = (d ≡ id) × ExistingPromise id (ok none) l
ExplicitPromise id (ok _) l = ⊥

pub stage_existing-Ensures :
    (o : Outside) (id : Text) (hints : Option IsolationHints)
    → Ensures (stage_existing o id hints) (ExplicitPromise id)
unfolding stage_existing ExplicitPromise ExistingPromise
stage_existing-Ensures o id hints =
    then-rule (ExplicitPromise id) (ExistingPromise id) (check_existing o id hints) _
      (check_existing-Ensures o id hints) (λ e old p. p) go
  where
    go :
        (b : Option IsolationResolution) (old : Log)
        → ExistingPromise id (ok b) old
        → Ensures
            (elim b [ some found ↦ give (ok found) | none ↦ give (ok (stale_cleaned id)) ])
            (λ r new. ExplicitPromise id r (new ++ old))
    go none old p =
        give-rule (λ r new. ExplicitPromise id r (new ++ old)) (ok (stale_cleaned id)) (refl, p)
    go (some r) old p =
        give-rule (λ s new. ExplicitPromise id s (new ++ old)) (ok r)
          (subst (λ s. ExplicitPromise id (ok s) old) (sym p.1) (p.2, p.3))
