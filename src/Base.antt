-- ===== src/Base.antt =====
-- What the modules share: the libraries' names passed on, tests and lists over the native numbers,
-- signed seconds, and the JavaScript containers `Map<string, V>` and `Set<string>`.
mod Tests
mod Lists
pub mod Int
pub mod Dict
pub mod StringSet
pub mod Numbers
pub mod Keyed
pub mod Unique
pub mod Visits
pub mod Doubles
pub use Tests.*
pub use Lists.*
pub use Prim.Native.Nat.{ℕ, zero, suc, ◌+◌, ◌-◌, ◌*◌, ◌/◌, ◌%◌, ◌^◌, ◌≤◌, ◌<◌, min, max}
pub use Prim.Native.String.{String}
pub use mathlib.Core.Path.{◌≡◌, refl, sym, ap, ap₂, ◌∙◌, subst}
pub use mathlib.Core.Logic.{◌≢◌, ◌↔◌, ◌⊎◌, inl, inr}
pub use mathlib.Core.Bool.{Bool, true, false, not, ◌&&◌, ◌||◌}
pub use mathlib.Core.Option.{Option, none, some}
pub use mathlib.Core.List.{List, [], ◌∷◌, ◌++◌, map, foldl}
pub use native.Mathlib.Omega.{arith}
