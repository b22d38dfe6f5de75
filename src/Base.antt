-- ===== src/Base.antt =====
-- Names shared by every module: the libraries' names passed on, Boolean tests on numbers, lists
-- measured by native numbers, byte strings, and the key maps that stand for the C++ containers.
mod Tests
mod Lists
mod ByteStrings
mod Keys
mod Maps
mod Words
mod Sets
mod OrderedMaps
mod Decimals
pub use Words.*
pub use Tests.*
pub use Lists.*
pub use Keys.*
unfoldable pub use ByteStrings.{bytes_eq, bytes_lt, is_prefix}
pub use ByteStrings.{Bytes, bytes_eq_iff}
unfoldable pub use Sets.{elem, discard, set_insert}
pub use Sets.{NoDup, elem-cong, elem-append, elem-discard, NoDup-snoc, All-set_insert}
unfoldable pub use Maps.{find, put, erase, remove_if, keys, contains}
pub use Maps.{
  or_empty, find-put, find-erase, find-remove_if, find_unless, length-erase-le, length-put-le,
  length-put_new, remove_if-All, All-remove_if, All-put, All-erase, All-find, HasKey, find-cong,
  Distinct, put-Distinct, erase-Distinct, remove_if-Distinct,
}
unfoldable pub use OrderedMaps.{map_find, map_put, map_emplace, Above, Ascending}
unfoldable pub use Decimals.{digits}
pub use OrderedMaps.{
  map_find_below, Above-all, find-map_emplace, map_emplace-Ascending, map_put-Ascending,
  Ascending-Distinct,
}
pub use Prim.Native.Nat.{ℕ, zero, suc, ◌+◌, ◌-◌, ◌*◌, ◌/◌, ◌%◌, ◌^◌, ◌≤◌, ◌<◌}
pub use mathlib.Core.Path.{◌≡◌, refl, sym, ap, subst, ◌∙◌}
pub use mathlib.Core.Logic.{◌≢◌, ◌↔◌, ◌⊎◌, inl, inr}
pub use mathlib.Core.Bool.{Bool, true, false, not, ◌&&◌, ◌||◌}
pub use mathlib.Core.Option.{Option, none, some}
pub use mathlib.Core.List.{List, [], ◌∷◌, ◌++◌, map, append_assoc, append-nil}
pub use native.Mathlib.Omega.{arith}
unfoldable pub use native.Mathlib.Decide.{dec_lt, dec_le, ℕ_discrete}
