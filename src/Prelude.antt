-- ===== src/Prelude.antt =====
-- Shared by the whole development: library names, Boolean tests, lists over the native numbers,
-- byte strings and 64-bit integers, and the outcomes of a call.
mod Tests
mod Lists
mod ByteStrings
mod Int
mod Outcomes
mod Maps
mod Hex
mod Http
mod TrimSpace
pub use Tests.*
pub use Lists.*
unfoldable pub use ByteStrings.*
unfoldable pub use Http.*
unfoldable pub use TrimSpace.*
unfoldable pub use Hex.*
pub use Int.*
unfoldable pub use Outcomes.*
unfoldable pub use Maps.*
pub use Prim.Native.Nat.{ℕ, zero, suc, ◌+◌, ◌-◌, ◌*◌, ◌/◌, ◌%◌, ◌^◌, ◌≤◌, ◌<◌}
pub use Prim.Native.String.{String}
pub use mathlib.Core.Path.{◌≡◌, refl, sym, ap, ◌∙◌}
pub use mathlib.Core.Logic.{◌≢◌, ◌↔◌, ◌⊎◌, inl, inr}
pub use mathlib.Core.Bool.{Bool, true, false, ◌&&◌, ◌||◌, not}
pub use mathlib.Core.Option.{Option, none, some}
pub use mathlib.Core.List.{List, [], ◌∷◌, ◌++◌, map, append-nil, append_assoc}
pub use native.Mathlib.Omega.{arith}
