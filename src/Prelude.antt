-- ===== src/Prelude.antt =====
-- The names that the other modules share: the libraries', passed on, and those of the children.
mod Tests
mod Lists
mod Arith
mod Texts
mod Maps
mod Keyed
pub use Tests.*
pub use Lists.*
pub use Arith.*
pub use Maps.{
  Map, Distinct, Only, lookup-insert, lookup-delete-none, lookup-keep_values-none, insert-Distinct,
  delete-Distinct, keep_values-Distinct, length-keep_values, length-Only,
}
unfoldable pub use Maps.{lookup, insert, delete, keep_values}
pub use Keyed.{Key, number_key, text_key, find-put, find-drop_if}
unfoldable pub use Keyed.{find, put, drop_if}
pub use Texts.{Text, codes, text_eq_refl, text_eq_iff}
unfoldable pub use Texts.{text_eq}
pub use Prim.Native.Nat.{ℕ, zero, suc, ◌+◌, ◌-◌, ◌*◌, ◌/◌, ◌%◌, ◌^◌, ◌≤◌, ◌<◌, min, max}
pub use mathlib.Core.Path.{◌≡◌, refl, sym, ap, ap₂, subst, subst₂, ◌∙◌}
pub use mathlib.Core.Logic.{◌≢◌, ◌↔◌, ◌⊎◌, inl, inr}
pub use mathlib.Core.Bool.{Bool, true, false, not, ◌&&◌, ◌||◌}
pub use mathlib.Core.Option.{Option, none, some}
pub use mathlib.Core.List.{List, [], ◌∷◌, ◌++◌, map, Memᴰ}
pub use native.Mathlib.Omega.{arith}
