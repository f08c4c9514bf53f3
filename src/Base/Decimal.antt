-- ===== src/Base/Decimal.antt =====
-- `to_string` of an unsigned integer, and `str::parse` into one.
pub mod RoundTrip
pub mod Signed
use pgsleuth.Base.Tests.{ltb, ◌==◌, if◌then◌else◌}
use pgsleuth.Base.Word.{u32_max, u64_max}
use Prim.Native.Nat.{ℕ, zero, suc, ◌+◌, ◌-◌, ◌*◌, ◌/◌, ◌%◌}
use Prim.Native.Char.{Char, code}
use Prim.Native.String.{String}
use mathlib.Core.Bool.{◌||◌}
use mathlib.Core.Option.{Option, none, some}

-- The character of a decimal digit.
unfoldable pub digit : ℕ → Char
digit zero = "0"
digit (suc zero) = "1"
digit (suc (suc zero)) = "2"
digit (suc (suc (suc zero))) = "3"
digit (suc (suc (suc (suc zero)))) = "4"
digit (suc (suc (suc (suc (suc zero))))) = "5"
digit (suc (suc (suc (suc (suc (suc zero)))))) = "6"
digit (suc (suc (suc (suc (suc (suc (suc zero))))))) = "7"
digit (suc (suc (suc (suc (suc (suc (suc (suc zero)))))))) = "8"
digit _ = "9"

-- The digits of `n` in front of a text; each round drops a digit, so `n` rounds are enough.
unfoldable pub digits : ℕ → ℕ → String → String
unfolding digit
digits zero n out = String.◌∷◌ (digit n) out
digits (suc fuel) n out =
    let rest = digits fuel (n / 10) (String.◌∷◌ (digit (n % 10)) out) in
    if ltb n 10 then String.◌∷◌ (digit n) out else rest

unfoldable pub to_string : ℕ → String
unfolding digits
to_string n = digits n n ""

-- The digits of a number at the unsigned type with this bound, read behind `n`.
unfoldable pub parse_digits : ℕ → ℕ → String → Option ℕ
parse_digits bound n String.[] = some n
parse_digits bound n (String.◌∷◌ c s) =
    let m = n * 10 + (code c - b'0') in
    let rest = parse_digits bound m s in
    if ltb (code c) b'0' || ltb b'9' (code c) || ltb bound m then none else rest

-- `str::parse` at an unsigned type: one `+` may stand in front, and a digit is wanted.
unfoldable pub parse_unsigned : ℕ → String → Option ℕ
unfolding parse_digits
parse_unsigned bound String.[] = none
parse_unsigned bound (String.◌∷◌ c String.[]) =
    if code c == b'+' || code c == b'-' then none else parse_digits bound 0 (String.◌∷◌ c "")
parse_unsigned bound (String.◌∷◌ c (String.◌∷◌ d s)) =
    if code c == b'+'
    then parse_digits bound 0 (String.◌∷◌ d s)
    else parse_digits bound 0 (String.◌∷◌ c (String.◌∷◌ d s))

unfoldable pub parse_u32 : String → Option ℕ
unfolding parse_unsigned
parse_u32 = parse_unsigned u32_max

unfoldable pub parse_u64 : String → Option ℕ
unfolding parse_unsigned
parse_u64 = parse_unsigned u64_max
