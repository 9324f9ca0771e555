-- ===== src/Base.antt =====
-- The names that the other modules share: the libraries', passed on, and those of the children.
mod Booleans
mod Lists
mod Sorting
mod Dicts
mod Names
mod Texts
mod Ranges
mod Integers
mod Indexing
pub use Booleans.*
pub use Lists.*
unfoldable pub use Sorting.{insert_by, sort_by, sorted_by, sorted}
pub use Sorting.{str_leb, sort_by-perm, length-sort_by, All-sort_by, All-unsort, Any-unsort}
unfoldable pub use Dicts.{lookup, has, insert, remove}
pub use Dicts.*
unfoldable pub use Names.{difference, add}
pub use Names.*
unfoldable pub use Texts.{starts_with, partition, rstrip, separated, decimal, split}
pub use Texts.*
unfoldable pub use Ranges.{range_from, range}
pub use Ranges.*
pub use Integers.*
unfoldable pub use Indexing.{indexed}
pub use Indexing.*
pub use Prim.Native.Nat.{ℕ, zero, suc, ◌+◌, ◌-◌, ◌*◌, ◌/◌, ◌%◌, ◌^◌, ◌≤◌, ◌<◌, min, max}
pub use Prim.Native.String.{String}
pub use mathlib.Core.Path.{◌≡◌, refl, sym, ap, ◌∙◌, subst}
pub use mathlib.Core.Logic.{◌≢◌, ◌↔◌, ◌⊎◌, inl, inr}
pub use mathlib.Core.Bool.{Bool, true, false, not, ◌&&◌, ◌||◌}
pub use mathlib.Core.Option.{Option, none, some}
pub use mathlib.Core.List.{List, [], ◌∷◌, ◌++◌, map, append-nil, append_assoc}
pub use native.Mathlib.Omega.{arith}
pub use text.Mathlib.Text.{◌==◌}
pub use text.Mathlib.TextEquality.{eq_iff}
