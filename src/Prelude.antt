-- ===== src/Prelude.antt =====
-- The names that the other modules share: the libraries' and those of the child modules.
mod Tests
mod Lists
mod Texts
mod Dicts
mod Results
pub use Tests.*
pub use Lists.*
pub use Results.*
unfoldable pub use Texts.{
  Text, text, text_eq, is_whitespace, trim_start, trim, starts_with, contains, is_empty,
}
pub use Texts.{text_eq→eq, text_eq_refl, text_eq_iff}
unfoldable pub use Dicts.{Dict, get, insert}
pub use Dicts.{get-insert, get-insert_self, AllEntries, AllEntries-insert, AllEntries-get}
pub use Prim.Native.Nat.{ℕ, zero, suc, ◌+◌, ◌-◌, ◌*◌, ◌/◌, ◌%◌, ◌^◌, ◌≤◌, ◌<◌, min, max}
pub use mathlib.Core.Path.{◌≡◌, refl, sym, ap, ◌∙◌, subst}
pub use mathlib.Core.Logic.{◌≢◌, ◌↔◌, ◌⊎◌, inl, inr}
pub use mathlib.Core.Bool.{Bool, true, false, not, ◌&&◌, ◌||◌}
pub use mathlib.Core.Option.{Option, none, some}
pub use mathlib.Core.List.{List, [], ◌∷◌, ◌++◌, map, reverse}
pub use native.Mathlib.Omega.{arith}
