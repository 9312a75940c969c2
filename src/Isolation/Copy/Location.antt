-- ===== src/Isolation/Copy/Location.antt =====
-- The guard on the paths of files copied into a worktree, crates/har-isolation/src/worktree_copy.rs: a
-- path that it lets through leads to a place below the root. Where a path leads is followed here one
-- component at a time, as a file system without links does.
use mathlib.Core.List.{append-nil}
use harness_agent_rs.Prelude.{
  ◌≡◌, refl, sym, subst, ap, ◌∙◌, arith, Text, text_eq_iff, true, some, List, [], ◌∷◌, ◌++◌, All,
}
use harness_agent_rs.Isolation.Copy.{
  Component, root_dir, cur_dir, parent_dir, normal, step, walk, in_order, normalize_path,
  strip_prefix, component_eq,
}

abbrev pub IsNotRoot : Component → Type 0
IsNotRoot root_dir = ⊥
IsNotRoot _ = Unit

-- An absolute path, as it is written.
abbrev pub IsAbsolutePath : List Component → Type 0
IsAbsolutePath (root_dir ∷ cs) = All IsNotRoot cs
IsAbsolutePath _ = ⊥

-- A directory is the names that lead to it, the innermost first. A name enters, two dots leave, and
-- the top has no parent but itself.
abbrev pub go_to : List Text → List Component → List Text
go_to here [] = here
go_to here (normal t ∷ p) = go_to (t ∷ here) p
go_to here (cur_dir ∷ p) = go_to here p
go_to here (root_dir ∷ p) = go_to [] p
go_to [] (parent_dir ∷ p) = go_to [] p
go_to (t ∷ here) (parent_dir ∷ p) = go_to here p

-- The place is the other one or below it: one gets to it by names alone.
abbrev pub IsBelow : List Text → List Text → Type 0
IsBelow place top = (names : List Text) × (place ≡ names ++ top)

-- The components that the walk keeps for a directory.
kept : List Text → List Component
kept [] = root_dir ∷ []
kept (t ∷ here) = normal t ∷ kept here

walk-kept :
    (cs : List Component) (here : List Text)
    → All IsNotRoot cs
    → walk (kept here) cs ≡ kept (go_to here cs)
unfolding walk step kept
walk-kept [] here a = refl
walk-kept (root_dir ∷ cs) here a = elim a.0 [ ]
walk-kept (cur_dir ∷ cs) here a = walk-kept cs here a.1
walk-kept (normal t ∷ cs) here a = walk-kept cs (t ∷ here) a.1
walk-kept (parent_dir ∷ cs) [] a = walk-kept cs [] a.1
walk-kept (parent_dir ∷ cs) (t ∷ here) a = walk-kept cs here a.1

-- The components in the order of writing, without the root.
pub listed : List Text → List Component → List Component
listed [] done = done
listed (t ∷ here) done = listed here (normal t ∷ done)

in_order-kept :
    (here : List Text) (done : List Component)
    → in_order (kept here) done ≡ root_dir ∷ listed here done
unfolding in_order kept listed
in_order-kept [] done = refl
in_order-kept (t ∷ here) done = in_order-kept here (normal t ∷ done)

pub normalize-go_to :
    (p : List Component) → IsAbsolutePath p → normalize_path p ≡ root_dir ∷ listed (go_to [] p) []
unfolding normalize_path walk step kept
normalize-go_to [] a = elim a [ ]
normalize-go_to (root_dir ∷ cs) a =
    ap (λ o. in_order o []) (walk-kept cs [] a) ∙ in_order-kept (go_to [] cs) []
normalize-go_to (cur_dir ∷ cs) a = elim a [ ]
normalize-go_to (parent_dir ∷ cs) a = elim a [ ]
normalize-go_to (normal t ∷ cs) a = elim a [ ]

-- Back from components to names, the innermost first.
names_of : List Text → List Component → List Text
names_of here [] = here
names_of here (normal t ∷ cs) = names_of (t ∷ here) cs
names_of here (_ ∷ cs) = names_of here cs

names_of-listed :
    (here top : List Text) (done : List Component)
    → names_of top (listed here done) ≡ names_of (here ++ top) done
unfolding names_of listed
names_of-listed [] top done = refl
names_of-listed (t ∷ here) top done = names_of-listed here top (normal t ∷ done)

names_of-append :
    (here : List Text) (cs ds : List Component)
    → names_of here (cs ++ ds) ≡ names_of (names_of here cs) ds
unfolding names_of
names_of-append here [] ds = refl
names_of-append here (normal t ∷ cs) ds = names_of-append (t ∷ here) cs ds
names_of-append here (root_dir ∷ cs) ds = names_of-append here cs ds
names_of-append here (cur_dir ∷ cs) ds = names_of-append here cs ds
names_of-append here (parent_dir ∷ cs) ds = names_of-append here cs ds

append-cons :
    (names : List Text) (t : Text) (here : List Text)
    → names ++ t ∷ here ≡ (names ++ t ∷ []) ++ here
append-cons [] t here = refl
append-cons (n ∷ names) t here = ap (λ l. n ∷ l) (append-cons names t here)

IsBelow-cons : (t : Text) (place here : List Text) → IsBelow place (t ∷ here) → IsBelow place here
IsBelow-cons t place here (names, e) = (names ++ t ∷ [], e ∙ append-cons names t here)

names_of-IsBelow : (here : List Text) (cs : List Component) → IsBelow (names_of here cs) here
unfolding names_of
names_of-IsBelow here [] = ([], refl)
names_of-IsBelow here (normal t ∷ cs) =
    IsBelow-cons t (names_of (t ∷ here) cs) here (names_of-IsBelow (t ∷ here) cs)
names_of-IsBelow here (root_dir ∷ cs) = names_of-IsBelow here cs
names_of-IsBelow here (cur_dir ∷ cs) = names_of-IsBelow here cs
names_of-IsBelow here (parent_dir ∷ cs) = names_of-IsBelow here cs

component_eq_sound : (c d : Component) → component_eq c d ≡ true → c ≡ d
unfolding component_eq
component_eq_sound root_dir root_dir h = refl
component_eq_sound cur_dir cur_dir h = refl
component_eq_sound parent_dir parent_dir h = refl
component_eq_sound (normal s) (normal t) h = ap normal ((text_eq_iff s t).0 h)
component_eq_sound c d h = cc

strip_prefix-append :
    (ps cs rest : List Component) → strip_prefix ps cs ≡ some rest → cs ≡ ps ++ rest
unfolding strip_prefix
strip_prefix-append [] cs rest h = ground (arith, h)
strip_prefix-append (p ∷ ps) [] rest h = cc
strip_prefix-append (p ∷ ps) (c ∷ cs) rest h =
    ground (arith, h, strip_prefix-append ps cs rest, component_eq_sound p c)

names_of-whole : (here : List Text) → names_of [] (listed here []) ≡ here
unfolding names_of
names_of-whole here = names_of-listed here [] [] ∙ append-nil here

pub prefix-IsBelow :
    (top place : List Text) (rest : List Component)
    → strip_prefix (root_dir ∷ listed top []) (root_dir ∷ listed place []) ≡ some rest
    → IsBelow place top
unfolding strip_prefix component_eq names_of
prefix-IsBelow top place rest h =
    let split : listed place [] ≡ listed top [] ++ rest =
      strip_prefix-append (listed top []) (listed place []) rest h in
    let back : names_of [] (listed place []) ≡ names_of top rest =
      ap (names_of []) split
      ∙ names_of-append [] (listed top []) rest
      ∙ ap (λ here. names_of here rest) (names_of-whole top) in
    subst (λ p. IsBelow p top) (sym back ∙ names_of-whole place) (names_of-IsBelow top rest)
