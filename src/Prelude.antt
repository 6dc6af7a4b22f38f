-- ===== src/Prelude.antt =====
-- The names that the other modules share: the libraries' names, passed on, and those of the
-- children: Boolean tests, lists over the native numbers, and Go strings.
mod Tests
mod Lists
mod Strings
mod Tokens
pub mod Unicode
pub mod Int
pub mod Sort
pub mod Trim
pub mod Encoding
pub mod First
pub mod Pairs
pub use Tests.*
pub use Lists.*
pub use Tokens.*
unfoldable pub use Strings.{
  rune_length, byte_length, text_eq, has_prefix, trim_prefix, is_space, push_token, fields_from,
  fields, join, trim_left, trim_right, trim, contains_rune, before, after, split_two,
}
pub use Strings.{
  Text, codes, text_eq_refl, text_eq→eq, text_eq_iff, has_prefix-append, prefix-trim_prefix,
}
pub use Prim.Native.Nat.{ℕ, zero, suc, ◌+◌, ◌-◌, ◌*◌, ◌/◌, ◌%◌, ◌^◌, ◌≤◌, ◌<◌, min, max}
pub use Prim.Native.String.{String}
pub use mathlib.Core.Path.{◌≡◌, refl, sym, ap, ◌∙◌}
pub use mathlib.Core.Logic.{◌≢◌, ◌↔◌, ◌⊎◌, inl, inr}
pub use mathlib.Core.Bool.{Bool, true, false, ◌&&◌, ◌||◌, not}
pub use mathlib.Core.Option.{Option, none, some}
pub use mathlib.Core.List.{List, [], ◌∷◌, ◌++◌, map}
pub use native.Mathlib.Omega.{arith}
