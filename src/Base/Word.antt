-- ===== src/Base/Word.antt =====
-- Rust's unsigned integers: a value is a plain number, its range is stated where it matters, and the
-- saturating operations write their bounds out.
use Prim.Native.Nat.{ℕ, ◌+◌, ◌-◌, ◌*◌, ◌/◌, ◌^◌, min}
use mathlib.Core.Option.{Option, none, some}
use mathlib.Core.Path.{◌≡◌, refl}
use native.Mathlib.Omega.{arith}
use pgsleuth.Base.Tests.{leb, ◌==◌, if◌then◌else◌}

abbrev pub u8_max : ℕ
u8_max = 255

abbrev pub u32_max : ℕ
u32_max = 2 ^ 32 - 1

abbrev pub u64_max : ℕ
u64_max = 2 ^ 64 - 1

abbrev pub u128_max : ℕ
u128_max = 2 ^ 128 - 1

abbrev pub i64_max : ℕ
i64_max = 2 ^ 63 - 1

-- `a.saturating_add(b)` at a type whose largest value is the bound.
abbrev pub saturating_add : ℕ → ℕ → ℕ → ℕ
saturating_add bound a b = min (a + b) bound

abbrev pub saturating_mul : ℕ → ℕ → ℕ → ℕ
saturating_mul bound a b = min (a * b) bound

-- Subtraction on ℕ stops at 0, as `saturating_sub` does at every unsigned type.
abbrev pub saturating_sub : ℕ → ℕ → ℕ
saturating_sub a b = a - b

abbrev pub checked_div : ℕ → ℕ → Option ℕ
checked_div a b = if b == 0 then none else some (a / b)

abbrev pub unwrap_or {ℓ} : {A : Type ℓ} → Option A → A → A
unwrap_or none d = d
unwrap_or (some a) d = a

abbrev pub and_then {ℓ κ} : {A : Type ℓ} {B : Type κ} → Option A → (A → Option B) → Option B
and_then none f = none
and_then (some a) f = f a

-- `uN::try_from` of a number, at the type with this bound.
abbrev pub try_from : ℕ → ℕ → Option ℕ
try_from bound n = if leb n bound then some n else none

-- A result behind `and_then` comes of a value.
pub and_then-some {ℓ κ} :
    {A : Type ℓ} {B : Type κ} (o : Option A) (f : A → Option B) (b : B)
    → and_then o f ≡ some b
    → (a : A) × (o ≡ some a) × (f a ≡ some b)
and_then-some none f b h = ground arith
and_then-some (some a) f b h = (a, refl, h)
