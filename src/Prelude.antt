-- ===== src/Prelude.antt =====
-- The names that the other modules share: the libraries', passed on, and those of the children.
mod Tests
mod Lists
mod Text
pub mod Options
pub mod Spaces
pub mod Slices
pub mod Maps
pub mod Perms
pub mod Int
pub mod Sorting
pub mod Rank
pub mod Regex
pub use Tests.*
pub use Lists.*
pub use Text.{str_eq, concat, byte_length, byte_length-concat, trim_prefix-concat}
unfoldable pub use Text.{
  before_last_dash, split_commas, contains, has_prefix, itoa, itoa_ℤ, remove_all, trim_prefix,
}
pub use Prim.Native.Nat.{ℕ, zero, suc, ◌+◌, ◌-◌, ◌*◌, ◌/◌, ◌%◌, ◌^◌, ◌≤◌, ◌<◌}
pub use Prim.Native.String.{String}
pub use mathlib.Core.Path.{◌≡◌, refl, sym, ap, ◌∙◌, subst, fun_ext}
pub use mathlib.Core.Logic.{◌≢◌, ◌↔◌, ◌⊎◌, inl, inr}
pub use mathlib.Core.Bool.{Bool, true, false, not, ◌&&◌, ◌||◌}
pub use mathlib.Core.Option.{Option, none, some}
pub use mathlib.Core.List.{List, [], ◌∷◌, ◌++◌, map, reverse}
pub use native.Mathlib.Omega.{arith}
