-- ===== src/Dag/Session/Isolation.antt =====
-- Which sessions an AI node can come to resume, crates/har-dag-executor/src/dag_executor.rs.
use harness_agent_rs.Prelude.{
  ◌≡◌, refl, Bool, true, false, Option, none, some, Text, arith, Result, ok,
}
use harness_agent_rs.Schema.Node.{DagNode, base, ContextMode, fresh, shared}
use harness_agent_rs.Dag.Retry.{NodeExecutionResult}
use harness_agent_rs.Dag.Session.{
  bypasses_persistence, persists, threaded, looked_up, with_scope, resume_session, no_write,
  persist_session,
}

fresh-bypasses : (w : Option ContextMode) → w ≡ some fresh → bypasses_persistence w ≡ true
unfolding bypasses_persistence
fresh-bypasses none h = cc
fresh-bypasses (some fresh) h = refl
fresh-bypasses (some shared) h = ground arith

fresh-never_persists :
    (n : DagNode) (p : Bool) → (base n).context ≡ some fresh → persists n p ≡ false
unfolding persists
fresh-never_persists n p h = ground (arith, fresh-bypasses (base n).context h)

-- A node with a fresh context starts without a session, whatever the layers before it, the store, the
-- provider and the workflow's settings say, and its own session is neither stored nor removed.
pub fresh_isolated :
    (n : DagNode) (is_parallel_layer persist_sessions session_resume : Bool) (scope : Option Text)
    (lookup : Text → Result Text (Option Text)) (last : Option Text) (r : NodeExecutionResult)
    → (base n).context ≡ some fresh
    → (resume_session is_parallel_layer n persist_sessions session_resume scope lookup last
        ≡ ok none)
      × (persist_session n persist_sessions scope r ≡ no_write)
unfolding resume_session threaded persist_session
fresh_isolated n b p s none lookup last r h =
    let e = fresh-bypasses (base n).context h in
    let f = fresh-never_persists n p h in (ground (arith, e, f), refl)
fresh_isolated n b p s (some k) lookup last r h =
    let e = fresh-bypasses (base n).context h in
    let f = fresh-never_persists n p h in (ground (arith, e, f), ground (arith, f))

-- A node of a parallel layer resumes no session but one that the store holds for its scope, and only
-- if it persists sessions and its provider can resume them.
pub parallel_resumes_persisted :
    (n : DagNode) (persist_sessions session_resume : Bool) (scope : Option Text)
    (lookup : Text → Result Text (Option Text)) (last : Option Text) (sid : Text)
    → resume_session true n persist_sessions session_resume scope lookup last ≡ ok (some sid)
    → (persists n persist_sessions ≡ true)
      × (session_resume ≡ true)
      × (k : Text) × (scope ≡ some k)
      × (lookup k ≡ ok (some sid))
unfolding resume_session threaded with_scope looked_up
parallel_resumes_persisted n p s none lookup last sid h = absurd (ground arith)
parallel_resumes_persisted n p s (some k) lookup last sid h =
    (ground arith, ground arith, k, refl, ground arith)
