-- ===== src/Base/Int.antt =====
-- Signed integers over the native numbers.
use Prim.Native.Nat.{ℕ, ◌^◌}
use mathlib.Core.Bool.{Bool}
use mathlib.Core.Option.{Option, none, some}
use pgsleuth.Base.Tests.{ltb, leb, if◌then◌else◌}

-- `negsuc n` is -(n + 1).
pub data ℤ : Type 0 where
  pos : ℕ → ℤ
  negsuc : ℕ → ℤ

-- `uN::try_from` of a signed value, at the unsigned type with this bound.
abbrev pub unsigned_try_from : ℕ → ℤ → Option ℕ
unsigned_try_from bound (pos n) = if leb n bound then some n else none
unsigned_try_from bound (negsuc n) = none

-- Whether an integer is an i64.
abbrev pub is_i64 : ℤ → Bool
is_i64 (pos n) = ltb n (2 ^ 63)
is_i64 (negsuc n) = ltb n (2 ^ 63)
