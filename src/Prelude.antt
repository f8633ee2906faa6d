-- ===== src/Prelude.antt =====
-- The names that every other module shares: the libraries', passed on, and Boolean tests, options
-- and lists over the native numbers.
mod Tests
mod Lists
mod Texts
mod Maps
mod Splits
mod Decimal
pub use Texts.{present-inv, to_lower_case-dotted}
pub use Splits.{strip_brackets-dotted}
pub use Decimal.{decimal-injective}
unfoldable pub use Decimal.{decimal}
pub use Tests.*
pub use Lists.*
pub use Maps.*
unfoldable pub use Texts.{
  is_truthy, present, is_space, is_blank, to_lower_case, trim, local_part, normalise_pem,
  starts_with, is_dotted,
}
unfoldable pub use Splits.{
  break_at, split_on, remove_spaces, strip_prefix, octet, captured, text_length, has_any_char,
  has_inner_dot, after_last, strip_brackets, title_case, to_upper_case, unescape_newlines, wrap_64,
  drop_at, drop_slash,
}
pub use Prim.Native.Nat.{ℕ, zero, suc, ◌+◌, ◌-◌, ◌*◌, ◌/◌, ◌%◌, ◌^◌, ◌≤◌, ◌<◌}
pub use Prim.Native.String.{String}
pub use mathlib.Core.Path.{◌≡◌, refl, sym, ap, ◌∙◌, subst}
pub use mathlib.Core.Logic.{◌≢◌, ◌↔◌, ◌⊎◌, inl, inr}
pub use mathlib.Core.Bool.{Bool, true, false, ◌&&◌, ◌||◌, not}
pub use mathlib.Core.Option.{Option, none, some}
pub use mathlib.Core.List.{List, [], ◌∷◌, ◌++◌, map}
pub use native.Mathlib.Omega.{arith}
pub use text.Mathlib.Text.{◌==◌}
pub use text.Mathlib.TextEquality.{eq_iff}
