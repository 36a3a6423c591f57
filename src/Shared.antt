-- ===== src/Shared.antt =====
-- The names that the other modules share: the libraries', passed on, and those of seven children.
mod Tests
mod Lists
mod Text
mod Decimal
mod Int
mod Trim
mod Assoc
pub use Tests.*
pub use Lists.*
pub use Text.{Bytes, codes, has_suffix, eq_bytes_iff, eq_bytes_refl}
pub use Assoc.*
pub use Decimal.{
  format_int-injective, IsDigit, format_int-IsDigit, decimal-format_int, format_int_nonempty,
}
unfoldable pub use Decimal.{format_int, decimal}
pub use Int.{ℤ, pos, negsuc, below, above, outside, wrap64}
unfoldable pub use Int.{parse_int}
pub use Trim.{
  IsInk, trim_space_id, take-append, IsDigit-IsInk, to_upper_digits, has_prefix_digits,
  reverse-IsDigit, parse_int_digits, parse_int-IsInk,
}
unfoldable pub use Text.{
  eq_bytes, has_prefix, contains, split_at, to_lower, to_upper, is_space, trim_space,
}
pub use Prim.Native.Nat.{ℕ, zero, suc, ◌+◌, ◌-◌, ◌*◌, ◌/◌, ◌%◌, ◌^◌, ◌≤◌, ◌<◌, min}
pub use Prim.Native.String.{String}
pub use mathlib.Core.Path.{◌≡◌, refl, sym, ap, ◌∙◌, subst}
pub use mathlib.Core.Logic.{◌≢◌, ◌↔◌, ◌⊎◌, inl, inr}
pub use mathlib.Core.Bool.{Bool, true, false, not, ◌&&◌, ◌||◌}
pub use mathlib.Core.Option.{Option, none, some}
pub use mathlib.Core.List.{List, [], ◌∷◌, ◌++◌, map}
pub use native.Mathlib.Omega.{arith}
