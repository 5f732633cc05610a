-- ===== src/Base.antt =====
-- What the components share: library names passed on, Boolean tests, lists with native indices, the
-- outcome of a C call, and machine words.
mod Tests
mod Lists
mod Calls
mod Strings
mod Arrays
pub mod Tokens
pub use Tests.*
pub use Lists.*
pub use Calls.*
unfoldable pub use Arrays.{store, put}
pub use Arrays.{store-same, store_ne, put-same, put_ne}
pub use Strings.*
pub use Prim.Native.Nat.{ℕ, zero, suc, ◌+◌, ◌-◌, ◌*◌, ◌/◌, ◌%◌, ◌^◌, ◌≤◌, ◌<◌, min}
pub use mathlib.Core.Path.{◌≡◌, refl, sym, ap, ap₂, ◌∙◌}
pub use mathlib.Core.Logic.{◌≢◌, ◌↔◌, ◌⊎◌, inl, inr}
pub use mathlib.Core.Bool.{Bool, true, false, not, ◌&&◌, ◌||◌}
pub use mathlib.Core.Option.{Option, none, some}
pub use mathlib.Core.List.{List, [], ◌∷◌, ◌++◌, map}
pub use native.Mathlib.Omega.{arith}
