-- ===== src/Base.antt =====
-- The names that the other modules share: the libraries', passed on, and those of its children.
-- `Base.Tests` has the Boolean tests, `Base.Lists` what Python's lists do, `Base.Texts` its
-- slices of texts, `Base.Results` calls that may raise, and `Base.Rows` the statements that the stores
-- send to the database, over a table as the list of its rows; `Base.RowLaws` and `Base.Counts` have
-- their laws, `Base.Orders` those of ORDER BY with WHERE.
mod Tests
mod Lists
mod Rows
mod RowLaws
mod Counts
mod Orders
mod Results
mod Texts
pub use Tests.*
pub use Lists.*
pub use Rows.*
pub use RowLaws.*
pub use Counts.*
pub use Orders.*
pub use Results.*
unfoldable pub use Texts.*
pub use Prim.Native.Nat.{ℕ, zero, suc, ◌+◌, ◌-◌, ◌*◌, ◌/◌, ◌%◌, ◌^◌, ◌≤◌, ◌<◌, min, max}
pub use Prim.Native.String.{String}
pub use mathlib.Core.Path.{◌≡◌, refl, sym, ap, ◌∙◌, subst}
pub use mathlib.Core.Logic.{◌≢◌, ◌↔◌, ◌⊎◌, inl, inr}
pub use mathlib.Core.Bool.{Bool, true, false, not, ◌&&◌, ◌||◌}
pub use mathlib.Core.Option.{Option, none, some}
pub use mathlib.Core.List.{List, [], ◌∷◌, ◌++◌, map}
pub use native.Mathlib.Omega.{arith}
pub use text.Mathlib.Text.{◌==◌ as str_eq}
pub use text.Mathlib.TextEquality.{eq_iff}
