-- ===== src/Prelude.antt =====
-- The names that all modules share: the libraries', passed on, and those of three children.
mod Tests
mod Lists
mod Chars
mod Assoc
pub mod Strings
mod Ids
mod Ints
pub use Ints.{ℤ, pos, negsuc}
pub use Tests.*
pub use Lists.*
pub use Chars.*
pub use Strings.{
  join, split, replace_crlf, replace_cr, has_char, contains, text_lt, is_hex, is_space, lstrip,
  is_digit, Number, natural, signed, has_suffix, is_line_end, negative,
}
unfoldable pub use Strings.{
  ascii_digits, decimal, strip, rstrip_char, lower, parse_int, splitlines, strip_bytes,
}
unfoldable pub use Ids.{max_id, next_id}
pub use Ids.{All-le-max_id}
unfoldable pub use Assoc.{Dict, lookup, insert, remove}
pub use Assoc.{lookup-insert, lookup-remove}
pub use Prim.Native.Nat.{ℕ, zero, suc, ◌+◌, ◌-◌, ◌*◌, ◌/◌, ◌%◌, ◌^◌, ◌≤◌, ◌<◌, min}
pub use mathlib.Core.Path.{◌≡◌, refl, sym, ap, subst, ◌∙◌}
pub use mathlib.Core.Logic.{◌≢◌, ◌↔◌, ◌⊎◌, inl, inr}
pub use mathlib.Core.Bool.{Bool, true, false, not, ◌&&◌, ◌||◌}
pub use mathlib.Core.Option.{Option, none, some}
pub use mathlib.Core.List.{List, [], ◌∷◌, ◌++◌, map, reverse}
pub use native.Mathlib.Omega.{arith}
