-- ===== src/Prelude.antt =====
-- The names that every module shares: the libraries', passed on, and those of the children, with
-- tests on numbers, lists over the native numbers, and the rows of a table.
mod Tests
mod Lists
mod Rows
mod Dicts
mod Tables
mod Sort
pub mod Int
pub use Tests.*
pub use Lists.*
pub use Rows.*
unfoldable pub use Rows.{find, select, update, delete, count, any}
pub use Dicts.*
unfoldable pub use Dicts.{lookup, without, put}
pub use Tables.*
pub use Sort.*
unfoldable pub use Sort.{sort, insert_sorted}
pub use Prim.Native.Nat.{ℕ, zero, suc, ◌+◌, ◌-◌, ◌*◌, ◌/◌, ◌%◌, ◌≤◌, ◌<◌, min}
pub use Prim.Native.String.{String}
pub use mathlib.Core.Path.{◌≡◌, refl, sym, ap, ◌∙◌}
pub use mathlib.Core.Logic.{◌≢◌, ◌↔◌, ◌⊎◌, inl, inr}
pub use mathlib.Core.Bool.{Bool, true, false, not, ◌&&◌, ◌||◌}
pub use mathlib.Core.Option.{Option, none, some}
pub use mathlib.Core.List.{List, [], ◌∷◌, ◌++◌, map}
pub use native.Mathlib.Omega.{arith}
pub use text.Mathlib.Text.{◌==◌ as str_eq}
pub use text.Mathlib.TextEquality.{eq_iff}
