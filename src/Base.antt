-- ===== src/Base.antt =====
-- The names that every other module shares: the libraries' names, passed on, and those of the
-- children (tests and conditionals, lists, integers, machine words, text, equality).
mod Tests
mod Lists
mod Equality
mod Int
mod Word
mod Text
mod Sorting
pub use Tests.*
pub use Lists.*
pub use Equality.*
pub use Text.Digits.*
unfoldable pub use Text.Decimal.*
unfoldable pub use Text.Fields.*
unfoldable pub use Int.*
unfoldable pub use Word.*
unfoldable pub use Text.*
unfoldable pub use Sorting.*
pub use Prim.Native.Nat.{
  ℕ, zero, suc, ◌+◌, ◌-◌, ◌*◌, ◌/◌, ◌%◌, ◌^◌, ◌≤◌, ◌<◌, bit_and, bit_or, bit_xor,
}
pub use Prim.Native.String.{String}
pub use mathlib.Core.Path.{◌≡◌, refl, sym, ap, subst, ◌∙◌}
pub use mathlib.Core.Logic.{◌≢◌, ◌↔◌, ◌⊎◌, inl, inr}
pub use mathlib.Core.Bool.{Bool, true, false, not, ◌&&◌, ◌||◌}
pub use mathlib.Core.Option.{Option, none, some}
pub use mathlib.Core.List.{List, [], ◌∷◌, ◌++◌, map}
pub use native.Mathlib.Omega.{arith}
pub use text.Mathlib.TextEquality.{eq_iff}
