-- ===== src/Base.antt =====
-- The names that the other modules share: the libraries', passed on, and those of the children.
mod Tests
mod Lists
mod Strings
mod Text
mod Maps
mod Integers
mod Results
pub use Tests.*
pub use Lists.*
pub use Strings.{
  Bytes, codes, equal_iff, equal_refl, equal-false, has_prefix-append, all_bytes, AllBytes,
  all_bytes_iff, all_bytes-append, no_byte, Lacks, Lacks-append, nonempty, is_empty-false,
  is_empty-true,
}
unfoldable pub use Strings.{equal, has_prefix, contains, is_empty}
pub use Text.{space_width-is_plain, is_plain, emit, rest_of}
unfoldable pub use Text.{space_width, all_space, trim_space, fields, fields_from}
pub use Results.{
  Result, Result-cases, >>=-eq-ok, ok, err, ◌>>=◌, of_option, of_option-ok, map_err, map_err-ok,
}
pub use Integers.{ℤ, pos, negsuc, pos_part}
unfoldable pub use Integers.{is_positive}
pub use Maps.{Dict, lookup-insert, lookup-delete, lookup-nil}
unfoldable pub use Maps.{lookup, insert, delete}
pub use Prim.Native.Nat.{ℕ, zero, suc, ◌+◌, ◌-◌, ◌*◌, ◌/◌, ◌%◌, ◌≤◌, ◌<◌}
pub use mathlib.Core.Path.{◌≡◌, refl, sym, ap, ◌∙◌, subst}
pub use mathlib.Core.Logic.{◌≢◌, ◌↔◌, ◌⊎◌, inl, inr}
pub use mathlib.Core.Bool.{Bool, true, false, not, ◌&&◌, ◌||◌}
pub use mathlib.Core.Option.{Option, none, some}
pub use mathlib.Core.List.{List, [], ◌∷◌, ◌++◌, map, append-nil, append_assoc}
pub use native.Mathlib.Omega.{arith}
