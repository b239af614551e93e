-- ===== src/Base.antt =====
-- The names that the other modules share: the libraries', passed on, and those of the children.
pub mod Tests
pub mod Lists
pub mod Slices
pub mod Maps
pub mod Word
pub mod Results
pub mod Search
pub mod Texts
pub mod Deletes
pub use Tests.*
pub use Lists.*
pub use Slices.*
unfoldable pub use Maps.{get, put, delete, insert}
pub use Maps.{
  Map, is_some, get_or_else, has, keys, HasKeysOnce, All-get, All-put, All-delete, put_new,
  HasKeysOnce-IsFound, contains-insert, get-put, get-put_self, put-HasKeysOnce,
}
pub use Word.*
pub use Results.*
pub use Texts.*
pub use Deletes.*
pub use Prim.Native.Nat.{ℕ, zero, suc, ◌+◌, ◌-◌, ◌*◌, ◌/◌, ◌%◌, ◌^◌, ◌≤◌, ◌<◌}
pub use mathlib.Core.Path.{◌≡◌, refl, sym, ap, ap₂, ◌∙◌}
pub use mathlib.Core.Logic.{◌≢◌, ◌↔◌, ◌⊎◌, inl, inr}
pub use mathlib.Core.Bool.{Bool, true, false, not, ◌&&◌, ◌||◌}
pub use mathlib.Core.Option.{Option, none, some}
pub use mathlib.Core.List.{List, [], ◌∷◌, ◌++◌, map}
pub use native.Mathlib.Omega.{arith}
