-- ===== src/Isolation/Copy.antt =====
-- The copying of configured files into a new worktree, crates/har-isolation/src/worktree_copy.rs. A
-- path is the list of its components; on Unix there are no prefixes. The file system answers through
-- the parameters `stat`, which tells a directory from a file, `make_parent` and `copy`.
pub mod Location
pub mod Guard
use harness_agent_rs.Prelude.{
  ◌==◌, ◌||◌, not, Text, text, text_eq, Bool, true, false, Option, none, some, List, [], ◌∷◌, ◌++◌,
  trim, is_empty, if◌then◌else◌, Result, ok, err,
}

pub data Component : Type 0 where
  root_dir cur_dir parent_dir : Component
  normal : Text → Component

unfoldable pub component_eq : Component → Component → Bool
unfolding text_eq
component_eq root_dir root_dir = true
component_eq cur_dir cur_dir = true
component_eq parent_dir parent_dir = true
component_eq (normal s) (normal t) = text_eq s t
component_eq _ _ = false

pub record CopyFileEntry : Type 0 where
  pub source : Text
  pub destination : Text

unfoldable pub parse_copy_file_entry : Text → Result Text CopyFileEntry
unfolding trim is_empty
parse_copy_file_entry e =
    if is_empty (trim e)
    then err (text "Copy entry cannot be empty")
    else ok (record { source = trim e; destination = trim e })

abbrev push_char : Text → List Text → List Text
push_char c [] = c ∷ []
push_char c (t ∷ ts) = (c ++ t) ∷ ts

-- The parts between slashes.
unfoldable pub segments : Text → List Text
segments [] = [] ∷ []
segments (c ∷ s) = let rest = segments s in if c == 0x2f then [] ∷ rest else push_char (c ∷ []) rest

-- `Path::components` of a relative path below another: empty parts and dots are dropped.
unfoldable pub components : List Text → List Component
unfolding is_empty text_eq
components [] = []
components (t ∷ ts) =
    let rest = components ts in
    if is_empty t || text_eq t (text ".")
    then rest
    else if text_eq t (text "..")
    then parent_dir ∷ rest
    else normal t ∷ rest

-- `trim_start_matches(['/', '\\'])`.
unfoldable pub trim_separators : Text → Text
trim_separators [] = []
trim_separators (c ∷ s) =
    let rest = trim_separators s in if c == 0x2f || c == 0x5c then rest else c ∷ s

unfoldable pub node_join : List Component → Text → List Component
unfolding components segments trim_separators
node_join root file_path = root ++ components (segments (trim_separators file_path))

-- One component, on what is kept so far, the last component first.
unfoldable pub step : List Component → Component → List Component
step out cur_dir = out
step out root_dir = root_dir ∷ out
step out (normal t) = normal t ∷ out
step (normal t ∷ out) parent_dir = out
step (root_dir ∷ out) parent_dir = root_dir ∷ out
step out parent_dir = parent_dir ∷ out

unfoldable pub walk : List Component → List Component → List Component
unfolding step
walk out [] = out
walk out (c ∷ cs) = walk (step out c) cs

unfoldable pub in_order : List Component → List Component → List Component
in_order [] done = done
in_order (c ∷ out) done = in_order out (c ∷ done)

unfoldable pub normalize_path : List Component → List Component
unfolding walk in_order
normalize_path p = in_order (walk [] p) []

-- `Path::strip_prefix`.
unfoldable pub strip_prefix : List Component → List Component → Option (List Component)
unfolding component_eq
strip_prefix [] full = some full
strip_prefix (p ∷ ps) [] = none
strip_prefix (p ∷ ps) (c ∷ cs) =
    let rest = strip_prefix ps cs in if component_eq p c then rest else none

abbrev is_some {ℓ} : {A : Type ℓ} → Option A → Bool
is_some none = false
is_some (some a) = true

unfoldable pub is_path_within_root : List Component → Text → Bool
unfolding strip_prefix normalize_path node_join
is_path_within_root root file_path =
    is_some (strip_prefix (normalize_path root) (normalize_path (node_join root file_path)))

module _ (stat : List Component → Option Bool) (make_parent : List Component → Bool)
    (copy : Bool → List Component → List Component → Bool) where
  -- After the guard: the source is looked at, the directory made, the copy done.
  unfoldable pub transfer : List Component → List Component → Bool
  transfer source_path dest_path = elim (stat source_path) [
    | none ↦ false
    | some is_dir ↦ if make_parent dest_path then copy is_dir source_path dest_path else false
  ]

  unfoldable pub copy_worktree_file : List Component → List Component → CopyFileEntry → Bool
  unfolding is_path_within_root node_join transfer
  copy_worktree_file source_root dest_root e =
      if not (is_path_within_root source_root e.source)
      then false
      else if not (is_path_within_root dest_root e.destination)
      then false
      else transfer (node_join source_root e.source) (node_join dest_root e.destination)

  unfoldable pub copy_entry :
      List Component → List Component → Result Text CopyFileEntry → List CopyFileEntry
  unfolding copy_worktree_file
  copy_entry canonical worktree (err m) = []
  copy_entry canonical worktree (ok e) =
      if copy_worktree_file canonical worktree e then e ∷ [] else []

  unfoldable pub copy_worktree_files :
      List Component → List Component → List Text → List CopyFileEntry
  unfolding parse_copy_file_entry copy_entry
  copy_worktree_files canonical worktree [] = []
  copy_worktree_files canonical worktree (f ∷ fs) =
      copy_entry canonical worktree (parse_copy_file_entry f)
      ++ copy_worktree_files canonical worktree fs
