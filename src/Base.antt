-- ===== src/Base.antt =====
-- What the modules share: the libraries' names passed on, and the helpers of the children, which
-- stand for the parts of Rust's language and standard library that the code uses.
mod Tests
mod Lists
mod Word
mod Int
mod Text
mod Results
pub mod Decimal
pub mod Bits
pub mod Words
unfoldable pub use Decimal.{to_string, parse_u32, parse_u64}
unfoldable pub use Tests.*
pub use Lists.*
pub use Word.*
pub use Int.*
unfoldable pub use Text.*
pub use Results.*
pub use Prim.Native.Nat.{ℕ, zero, suc, ◌+◌, ◌-◌, ◌*◌, ◌/◌, ◌%◌, ◌^◌, bit_or, ◌≤◌, ◌<◌, min, max}
pub use Prim.Native.Char.{Char, code}
pub use Prim.Native.String.{String, ◌++◌ as ◌<>◌}
pub use mathlib.Core.Path.{◌≡◌, refl, sym, ap, ◌∙◌}
pub use mathlib.Core.Logic.{◌≢◌, ◌↔◌, ◌⊎◌, inl, inr}
pub use mathlib.Core.Bool.{Bool, true, false, not, ◌&&◌, ◌||◌}
pub use mathlib.Core.Option.{Option, none, some}
pub use mathlib.Core.List.{List, [], ◌∷◌, ◌++◌, map, append_assoc, append-nil}
pub use native.Mathlib.Omega.{arith}
