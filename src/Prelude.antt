-- ===== src/Prelude.antt =====
-- The names that all modules share: those of the libraries, passed on, and the helpers of the
-- children (Boolean tests, lists indexed by native numbers, C strings, results with faults).
mod Tests
mod Lists
mod Strings
mod Results
mod Int
mod Decimal
mod Dicts
mod Scanning
mod Hex
mod Indexing
pub use Tests.*
pub use Lists.*
unfoldable pub use Strings.*
pub use Results.*
pub use Int.*
unfoldable pub use Decimal.*
unfoldable pub use Dicts.*
unfoldable pub use Scanning.*
unfoldable pub use Hex.*
unfoldable pub use Indexing.*
pub use Prim.Native.Nat.{ℕ, zero, suc, ◌+◌, ◌-◌, ◌*◌, ◌/◌, ◌%◌, ◌^◌, ◌≤◌, ◌<◌, bit_xor}
pub use mathlib.Core.Path.{◌≡◌, refl, sym, ap, ◌∙◌, fun_ext}
pub use mathlib.Core.Logic.{◌≢◌, ◌↔◌, ◌⊎◌, inl, inr}
pub use mathlib.Core.Bool.{Bool, true, false, ◌&&◌, ◌||◌, not}
pub use mathlib.Core.Option.{Option, none, some}
pub use mathlib.Core.List.{List, [], ◌∷◌, ◌++◌, map}
pub use native.Mathlib.Omega.{arith}
