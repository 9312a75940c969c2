-- ===== src/Isolation/Copy/Guard.antt =====
-- Where the guard on the paths of copied files leads, crates/har-isolation/src/worktree_copy.rs.
use harness_agent_rs.Prelude.{Text, List, []}
use harness_agent_rs.Isolation.Copy.{Component, CopyFileEntry, node_join}
use harness_agent_rs.Isolation.Copy.Location.{go_to, IsBelow}

-- The path of the entry leads to the root or to a place below it.
abbrev pub StaysBelow : List Component → Text → Type 0
StaysBelow root f = IsBelow (go_to [] (node_join root f)) (go_to [] root)

-- Both ends of a copy stay below their roots.
abbrev pub Confined : List Component → List Component → CopyFileEntry → Type 0
Confined from to e = StaysBelow from e.source × StaysBelow to e.destination
