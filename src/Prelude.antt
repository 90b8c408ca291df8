-- ===== src/Prelude.antt =====
-- The names that all parts share: the libraries', passed on, and those of the children below
-- (tests on numbers, lists over the native numbers, Go strings as byte lists, ordered keys).
mod Tests
mod Lists
mod Keys
mod Text
mod Sort
pub mod Int
pub mod Digits
pub mod Pairs
pub use Tests.*
pub use Lists.*
unfoldable pub use Keys.{text_leb, text_beq}
pub use Keys.{
  Key, ◌==◌, ◌⊑◌, nat_key, text_key, Key-refl, Key-sound, Key-false, text_beq_iff, elem, Distinct,
  elem-append, le_refl,
}
unfoldable pub use Sort.{sort, sort_insert}
pub use Sort.{
  elem-sort, length-sort, IsSorted, sort-IsSorted, Below, sorted_unique, Distinct-sort, Below-elem,
}
unfoldable pub use Text.{lit}
pub use Text.{GoString}
pub use Prim.Native.Nat.{ℕ, zero, suc, ◌+◌, ◌-◌, ◌*◌, ◌/◌, ◌%◌, ◌^◌, ◌≤◌, ◌<◌}
pub use mathlib.Core.Path.{◌≡◌, refl, sym, ap, ap₂, ◌∙◌}
pub use mathlib.Core.Logic.{◌≢◌, ◌↔◌, ◌⊎◌, inl, inr}
pub use mathlib.Core.Bool.{Bool, true, false, ◌&&◌, ◌||◌, not}
pub use mathlib.Core.Option.{Option, none, some}
pub use mathlib.Core.List.{List, [], ◌∷◌, ◌++◌, map}
pub use native.Mathlib.Omega.{arith}
