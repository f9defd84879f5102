-- ===== src/Base.antt =====
-- The names that the other modules share: the libraries', passed on, and those of the children.
mod Tests
mod Strings
mod Integers
mod Actions
mod Int64
mod Maps
mod Lists
pub mod Keeps
pub mod Triples
pub use Tests.*
pub use Strings.*
pub use Integers.*
pub use Int64.*
pub use Actions.*
pub use Maps.*
pub use Lists.*
unfoldable pub use Strings.{bytes, text_eq, has_prefix, split_first, text_drop}
unfoldable pub use Integers.{◌+ℤ◌, ◌-ℤ◌, wrap64, wrap32}
unfoldable pub use Int64.{add64, mul64, div64, total64, sum}
unfoldable pub use Actions.{for_each}
unfoldable pub use Maps.{lookup, insert, delete}
pub use Prim.Native.Nat.{ℕ, zero, suc, ◌+◌, ◌-◌, ◌*◌, ◌/◌, ◌%◌, ◌^◌, ◌≤◌, ◌<◌}
pub use Prim.Native.String.{String}
pub use mathlib.Core.Path.{◌≡◌, refl, sym, ap, ◌∙◌}
pub use mathlib.Core.Logic.{◌≢◌, ◌↔◌, ◌⊎◌, inl, inr}
pub use mathlib.Core.Bool.{Bool, true, false, not, ◌&&◌, ◌||◌}
pub use mathlib.Core.Option.{Option, none, some}
pub use mathlib.Core.List.{List, [], ◌∷◌, ◌++◌, map}
pub use native.Mathlib.Omega.{arith}
