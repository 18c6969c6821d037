-- ===== src/Base.antt =====
-- The names that the other modules share: those of the libraries, passed on, and those of the
-- children (Boolean tests, lists, Go strings as bytes, int, Go maps, results).
mod Tests
mod Lists
mod Text
mod Assoc
mod Errors
pub mod Int
pub mod Decimal
pub mod Spaces
pub use Tests.*
pub use Lists.*
pub use Errors.*
unfoldable pub use Assoc.{find, insert, remove}
pub use Assoc.{
  find-insert, find-insert_self, find-remove, find-remove_self, find-insert_ne, find-remove_ne,
  find-insert_cases, find-insert_keys, find-remove-some, length-insert, length-insert_old,
  length-insert-le,
}
pub use Text.{
  Str, count_all, count-append, count-join, count_all-append, Str-eq_iff, str_eq-false, str_eq_refl,
  Str_eq,
}
unfoldable pub use Text.{text, str_eq, concat, join, count, strip_prefix, trim_prefix}
pub use Prim.Native.Nat.{ℕ, zero, suc, ◌+◌, ◌-◌, ◌*◌, ◌/◌, ◌%◌, ◌^◌, ◌≤◌, ◌<◌, min}
pub use Prim.Native.String.{String}
pub use mathlib.Core.Path.{◌≡◌, refl, sym, ap, subst, ◌∙◌}
pub use mathlib.Core.Logic.{◌≢◌, ◌↔◌, ◌⊎◌, inl, inr}
pub use mathlib.Core.Bool.{Bool, true, false, not, ◌&&◌, ◌||◌}
pub use mathlib.Core.Option.{Option, none, some}
pub use mathlib.Core.List.{List, [], ◌∷◌, ◌++◌, map, append-nil, append_assoc}
pub use native.Mathlib.Omega.{arith}
