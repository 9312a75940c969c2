-- ===== src/Examples/Copies.antt =====
-- Files copied between two absolute roots, crates/har-isolation/src/worktree_copy.rs.
use harness_agent_rs.Prelude.{◌≡◌, refl, Text, text, Bool, true, false, Option, some, List, [], ◌∷◌}
use harness_agent_rs.Isolation.Copy.{Component, root_dir, normal, copy_worktree_files}

abbrev repository : List Component
repository = root_dir ∷ normal (text "repo") ∷ []

abbrev worktree : List Component
worktree = root_dir ∷ normal (text "wt") ∷ []

abbrev configured : List Text
configured = text ".env" ∷ text "../x" ∷ text " " ∷ text "/etc/hosts" ∷ []

abbrev found : List Component → Option Bool
found p = some false

abbrev made : List Component → Bool
made p = true

abbrev copied : Bool → List Component → List Component → Bool
copied d p q = true

copied_entries :
    copy_worktree_files found made copied repository worktree configured
    ≡ record { source = text ".env"; destination = text ".env" }
      ∷ record { source = text "/etc/hosts"; destination = text "/etc/hosts" }
      ∷ []
unfolding copy_worktree_files
copied_entries = refl
