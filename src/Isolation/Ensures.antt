-- ===== src/Isolation/Ensures.antt =====
-- What a computation that logs ensures: for every log it starts from it adds some events, and its
-- result and those events satisfy a condition. The rules follow the steps of a computation.
use harness_agent_rs.Prelude.{
  ◌≡◌, refl, sym, ◌∙◌, ap, subst, ◌⊎◌, inl, inr, Text, text, Bool, Bool-cases, [], ◌∷◌, ◌++◌,
  Result, ok, err, is_empty,
}
use harness_agent_rs.Isolation.{IsolationError, other}
use harness_agent_rs.Isolation.Calls.{
  Done, done, Event, Log, Run, give, continue, ◌>>>◌, asked, Outside, looked, verified,
}
use harness_agent_rs.Isolation.Checks.{
  to_repo_path, to_worktree_path, or_false, on_disk, assert_worktree_ownership,
}

unfoldable pub Ensures : {A : Type 0} → Run A → (Result IsolationError A → Log → Type 0) → Type 0
Ensures m Q = (l : Log) → (new : Log) × ((m l).1 ≡ new ++ l) × Q (m l).0 new

pub append_assoc : (a b c : Log) → a ++ (b ++ c) ≡ (a ++ b) ++ c
append_assoc [] b c = refl
append_assoc (x ∷ a) b c = ap (λ t. x ∷ t) (append_assoc a b c)

pub append_nil : (a : Log) → a ++ [] ≡ a
append_nil [] = refl
append_nil (x ∷ a) = ap (λ t. x ∷ t) (append_nil a)

-- What the two checks of a path come to.
path_cases :
    (o : Outside) (path : Text)
    → ((x : IsolationError) × ((l : Log) → on_disk o path l ≡ (err x, l)))
      ⊎ ((l : Log)
          → on_disk o path l ≡ (
            ok (or_false (o.worktree_exists l path)),
            looked path (o.worktree_exists l path) ∷ l,
          ))
unfolding on_disk to_worktree_path
path_cases o path = elim (Bool-cases (is_empty path)) [
  | inl e ↦
      inl (other (text "WorktreePath cannot be empty"), λ l. rw (on_disk, to_worktree_path, e) refl)
  | inr e ↦ inr (λ l. rw (on_disk, to_worktree_path, e) refl)
]

verdict_cases : (r : Result Text Done) → ((t : Text) × (r ≡ err t)) ⊎ (r ≡ ok done)
verdict_cases (ok done) = inr refl
verdict_cases (err t) = inl (t, refl)

owner_cases :
    (o : Outside) (repo path : Text) (l : Log)
    → ((x : IsolationError) × (assert_worktree_ownership o repo path l ≡ (err x, l)))
      ⊎ (((t : Text) × (assert_worktree_ownership o repo path l
              ≡ (err (other t), verified path repo (err t) ∷ l)))
          ⊎ (assert_worktree_ownership o repo path l ≡ (ok done, verified path repo (ok done) ∷ l)))
unfolding assert_worktree_ownership to_worktree_path to_repo_path
owner_cases o repo path l = elim (Bool-cases (is_empty repo)) [
  | inl e ↦ inl (
    other (text "RepoPath cannot be empty"),
    rw (assert_worktree_ownership, to_repo_path, e) refl,
  )
  | inr e ↦ elim (Bool-cases (is_empty path)) [
    | inl f ↦ inl (
      other (text "WorktreePath cannot be empty"),
      rw (assert_worktree_ownership, to_repo_path, to_worktree_path, e, f) refl,
    )
    | inr f ↦ elim (verdict_cases (o.verify_worktree_ownership l path repo)) [
      | inl h ↦ inr (
          inl (h.0, rw (assert_worktree_ownership, to_repo_path, to_worktree_path, e, f, h.1) refl))
      | inr h ↦
          inr (inr (rw (assert_worktree_ownership, to_repo_path, to_worktree_path, e, f, h) refl))
    ]
  ]
]

module _ {A : Type 0} (Q : Result IsolationError A → Log → Type 0) where
  pub give-rule : (r : Result IsolationError A) → Q r [] → Ensures (give r) Q
  unfolding Ensures
  give-rule r h l = ([], refl, h)

  pub weaken :
      (m : Run A) (P : Result IsolationError A → Log → Type 0)
      → Ensures m P
      → ((r : Result IsolationError A) (new : Log) → P r new → Q r new)
      → Ensures m Q
  unfolding Ensures
  weaken m P h w l = let s = h l in (s.0, s.1, w _ s.0 s.2)

  continue-rule :
      {B : Type 0} (P : Result IsolationError B → Log → Type 0) (f : B → Run A)
      → ((e : IsolationError) (old : Log) → P (err e) old → Q (err e) old)
      → ((b : B) (old : Log) → P (ok b) old → Ensures (f b) (λ r new. Q r (new ++ old)))
      → (r : Result IsolationError B) (l mid old : Log) → mid ≡ old ++ l
      → P r old
      → (new : Log) × ((continue (r, mid) f).1 ≡ new ++ l) × Q (continue (r, mid) f).0 new
  unfolding Ensures
  continue-rule P f fails goes (err e) l mid old h p = (old, h, fails e old p)
  continue-rule P f fails goes (ok b) l mid old h p =
      let s = goes b old p mid in
      (s.0 ++ old, s.1 ∙ ap (λ t. s.0 ++ t) h ∙ append_assoc s.0 old l, s.2)

  pub then-rule :
      {B : Type 0} (P : Result IsolationError B → Log → Type 0) (m : Run B) (f : B → Run A)
      → Ensures m P
      → ((e : IsolationError) (old : Log) → P (err e) old → Q (err e) old)
      → ((b : B) (old : Log) → P (ok b) old → Ensures (f b) (λ r new. Q r (new ++ old)))
      → Ensures (m >>> f) Q
  unfolding Ensures
  then-rule P m f h fails goes l =
      let s = h l in continue-rule P f fails goes (m l).0 l (m l).1 s.0 s.1 s.2

  -- A test before any call.
  pub given-rule :
      {B : Type 0} (r : Result IsolationError B) (k : B → Run A)
      → ((x : IsolationError) → Q (err x) [])
      → ((b : B) → Ensures (k b) Q)
      → Ensures (give r >>> k) Q
  unfolding Ensures
  given-rule (ok b) k fails goes l = goes b l
  given-rule (err e) k fails goes l = ([], refl, fails e)

  -- A call, whatever its answer.
  pub asked-rule :
      {B : Type 0} (f : Log → B) (e : B → Event) (k : B → Run A)
      → ((b : B) → Ensures (k b) (λ r new. Q r (new ++ e b ∷ [])))
      → Ensures (asked f e >>> k) Q
  unfolding Ensures
  asked-rule f e k h l =
      let s = h (f l) (e (f l) ∷ l) in
      (s.0 ++ e (f l) ∷ [], s.1 ∙ append_assoc s.0 (e (f l) ∷ []) l, s.2)

  -- A call whose error ends the computation.
  pub tried-rule :
      {B : Type 0} (f : Log → Result IsolationError B) (e : Result IsolationError B → Event)
      (k : B → Run A)
      → ((x : IsolationError) → Q (err x) (e (err x) ∷ []))
      → ((b : B) → Ensures (k b) (λ r new. Q r (new ++ e (ok b) ∷ [])))
      → Ensures (asked f e >>> give >>> k) Q
  unfolding Ensures
  tried-rule f e k fails goes l =
      continue-rule (λ r old. old ≡ e r ∷ []) k
        (λ x old h. subst (λ t. Q (err x) t) (sym h) (fails x))
        (λ b old h. subst (λ t. Ensures (k b) (λ r new. Q r (new ++ t))) (sym h) (goes b)) (f l) l
        (e (f l) ∷ l) (e (f l) ∷ []) refl refl

  -- A computation whose value at a log is known.
  at_value :
      {B : Type 0} (m : Run B) (k : B → Run A) (l : Log) (v : Result IsolationError B × Log)
      → m l ≡ v
      → ((new : Log) × ((continue v k).1 ≡ new ++ l) × Q (continue v k).0 new)
      → (new : Log) × (((m >>> k) l).1 ≡ new ++ l) × Q ((m >>> k) l).0 new
  at_value m k l v h s =
      subst (λ w. (new : Log) × ((continue w k).1 ≡ new ++ l) × Q (continue w k).0 new) (sym h) s

  -- The look at the disk.
  pub on_disk-rule :
      (o : Outside) (path : Text) (k : Bool → Run A)
      → ((x : IsolationError) → Q (err x) [])
      → ((a : Result Text Bool)
          → Ensures (k (or_false a)) (λ r new. Q r (new ++ looked path a ∷ [])))
      → Ensures (on_disk o path >>> k) Q
  unfolding Ensures
  on_disk-rule o path k fails goes l = elim (path_cases o path) [
    | inl h ↦ at_value (on_disk o path) k l (err h.0, l) (h.1 l) ([], refl, fails h.0)
    | inr h ↦
        at_value (on_disk o path) k l (_, _) (h l)
          (let s = goes (o.worktree_exists l path) (looked path (o.worktree_exists l path) ∷ l) in
            (
              s.0 ++ looked path (o.worktree_exists l path) ∷ [],
              s.1 ∙ append_assoc s.0 (looked path (o.worktree_exists l path) ∷ []) l,
              s.2,
            ))
  ]

  -- The check of the clone that the worktree belongs to.
  pub owned-rule :
      (o : Outside) (repo path : Text) (k : Done → Run A)
      → ((x : IsolationError) → Q (err x) [])
      → ((x : IsolationError) (t : Text) → Q (err x) (verified path repo (err t) ∷ []))
      → Ensures (k done) (λ r new. Q r (new ++ verified path repo (ok done) ∷ []))
      → Ensures (assert_worktree_ownership o repo path >>> k) Q
  unfolding Ensures
  owned-rule o repo path k fails refused goes l = elim (owner_cases o repo path l) [
    | inl h ↦
        at_value (assert_worktree_ownership o repo path) k l (err h.0, l) h.1 ([], refl, fails h.0)
    | inr h ↦ elim h [
      | inl t ↦
          at_value (assert_worktree_ownership o repo path) k l (_, _) t.1
            (verified path repo (err t.0) ∷ [], refl, refused (other t.0) t.0)
      | inr e ↦
          at_value (assert_worktree_ownership o repo path) k l (_, _) e
            (let s = goes (verified path repo (ok done) ∷ l) in
              (
                s.0 ++ verified path repo (ok done) ∷ [],
                s.1 ∙ append_assoc s.0 (verified path repo (ok done) ∷ []) l,
                s.2,
              ))
    ]
  ]
