-- ===== src/Prelude.antt =====
-- What the modules of the library share: names of the libraries, Boolean tests on numbers, lists
-- over the native numbers, and texts as lists of code points.
mod Tests
pub mod Bits
pub mod Failing
mod Lists
mod Texts
mod Int
mod Decimal
mod Sorting
mod Perms
mod Dict
pub use Tests.*
pub use Lists.*
unfoldable pub use Texts.*
pub use Int.*
unfoldable pub use Decimal.*
unfoldable pub use Sorting.*
pub use Perms.{front-Perm, ends-Perm, All-Permᴰ, sort_by-Perm}
unfoldable pub use Dict.*
pub use Prim.Native.Nat.{ℕ, zero, suc, ◌+◌, ◌-◌, ◌*◌, ◌/◌, ◌%◌, ◌^◌, ◌≤◌, ◌<◌, min, max}
pub use mathlib.Core.Path.{◌≡◌, refl, sym, ap, ◌∙◌}
pub use mathlib.Core.Logic.{◌≢◌, ◌↔◌, ◌⊎◌, inl, inr}
pub use mathlib.Core.Bool.{Bool, true, false, not, ◌&&◌, ◌||◌}
pub use mathlib.Core.Option.{Option, none, some}
pub use mathlib.Core.List.{List, [], ◌∷◌, ◌++◌, map, append-nil, append_assoc}
pub use native.Mathlib.Omega.{arith}
