-- ===== src/Prelude.antt =====
-- The names that the other modules share: the libraries', passed on, and those of the children.
mod Tests
mod Lists
mod Results
mod Strings
pub mod StringLaws
pub mod Utf8
pub mod Numbers
pub mod IpAddr
pub mod Sorting
pub mod FilePath
pub mod Splitting
pub use Tests.*
pub use Lists.*
pub use Results.*
unfoldable pub use Strings.{
  Text, codes, str_eq, is_empty, strip_prefix, starts_with, ends_with, contains_char, contains,
  trim_start_matches, trim_end_matches, is_whitespace, trim, split_once, rsplit_once,
  is_ascii_digit, all_digits, to_lower, to_ascii_lowercase, replace, parse_digits, parse_uint,
  split, join, print_digits, print_uint,
}
pub use Prim.Native.Nat.{ℕ, zero, suc, ◌+◌, ◌-◌, ◌*◌, ◌/◌, ◌%◌, ◌^◌, ◌≤◌, ◌<◌}
pub use mathlib.Core.Path.{◌≡◌, refl, sym, ap, ◌∙◌}
pub use mathlib.Core.Logic.{◌≢◌, ◌↔◌, ◌⊎◌, inl, inr}
pub use mathlib.Core.Bool.{Bool, true, false, not, ◌&&◌, ◌||◌}
pub use mathlib.Core.Option.{Option, none, some}
pub use mathlib.Core.List.{List, [], ◌∷◌, ◌++◌, map, append_assoc, append-nil}
pub use native.Mathlib.Omega.{arith}
