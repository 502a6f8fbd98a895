-- ===== src/Common.antt =====
-- What the modules share: names of the libraries, tests, lists, texts, dictionaries and sorting.
mod Tests
mod Lists
mod Reverse
mod Drop
pub mod Mapped
pub mod Keyed
pub mod Text
pub mod Dict
pub mod Sort
pub mod TextOrder
pub mod Int
pub mod PyInt
pub mod Json
pub mod Sets
pub mod Fraction
pub mod Pick
pub mod Format
pub use Tests.*
pub use Lists.*
pub use Reverse.*
pub use Drop.*
pub use Prim.Native.Nat.{ℕ, zero, suc, ◌+◌, ◌-◌, ◌*◌, ◌/◌, ◌%◌, ◌^◌, ◌≤◌, ◌<◌, min, max}
pub use mathlib.Core.Path.{◌≡◌, refl, sym, ap, subst, ◌∙◌}
pub use mathlib.Core.Logic.{◌≢◌, ◌↔◌, ◌⊎◌, inl, inr}
pub use mathlib.Core.Bool.{Bool, true, false, not, ◌&&◌, ◌||◌}
pub use mathlib.Core.Option.{Option, none, some}
pub use mathlib.Core.List.{List, [], ◌∷◌, ◌++◌, map}
pub use native.Mathlib.Omega.{arith}
