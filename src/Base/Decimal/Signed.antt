-- ===== src/Base/Decimal/Signed.antt =====
-- `to_string` of a signed integer.
use pgsleuth.Base.Tests.{str_eq, str_eq_iff}
use pgsleuth.Base.Int.{ℤ, pos, negsuc}
use pgsleuth.Base.Decimal.{to_string, parse_unsigned}
use pgsleuth.Base.Decimal.RoundTrip.{parse_unsigned-to_string, AllDigits, to_string-AllDigits}
use Prim.Native.Nat.{ℕ, suc, ◌+◌}
use Prim.Native.String.{String}
use mathlib.Core.Path.{subst, ◌≡◌, ap, sym, ◌∙◌}
use mathlib.Core.Logic.{◌↔◌}
use mathlib.Core.Bool.{true}
use mathlib.Core.Option.{Option, none, some}
use native.Mathlib.Omega.{arith}

unfoldable pub int_to_string : ℤ → String
int_to_string (pos n) = to_string n
int_to_string (negsuc n) = String.◌∷◌ "-" (to_string (suc n))

abbrev get_or : Option ℕ → ℕ
get_or none = 0
get_or (some n) = n

to_string-injective : (m n : ℕ) → to_string m ≡ to_string n → m ≡ n
to_string-injective m n h = ap get_or (
    sym (parse_unsigned-to_string (m + n) m (omega arith))
    ∙ (ap (parse_unsigned (m + n)) h ∙ parse_unsigned-to_string (m + n) n (omega arith)))

abbrev tail : String → String
tail String.[] = ""
tail (String.◌∷◌ c s) = s

-- Digits have no sign.
to_string-ne-minus : (m n : ℕ) → to_string m ≡ String.◌∷◌ "-" (to_string n) → ⊥
to_string-ne-minus m n h =
    let digits : AllDigits (String.◌∷◌ "-" (to_string n)) =
      subst AllDigits (h) (to_string-AllDigits m) in
    absurd (omega (arith, digits.0))

int_to_string-injective : (a b : ℤ) → int_to_string a ≡ int_to_string b → a ≡ b
unfolding int_to_string
int_to_string-injective (pos m) (pos n) h = ap pos (to_string-injective m n h)
int_to_string-injective (pos m) (negsuc n) h = absurd (to_string-ne-minus m (suc n) h)
int_to_string-injective (negsuc m) (pos n) h = absurd (to_string-ne-minus n (suc m) (sym h))
int_to_string-injective (negsuc m) (negsuc n) h =
    let e : suc m ≡ suc n = to_string-injective (suc m) (suc n) (ap tail h) in
    ap negsuc (omega arith)

-- Two numbers have one text only if they are one.
pub str_eq-int_to_string : (a b : ℤ) → (str_eq (int_to_string a) (int_to_string b) ≡ true) ↔ (a ≡ b)
str_eq-int_to_string a b = (
  λ h. int_to_string-injective a b ((str_eq_iff _ _).0 h),
  λ e. (str_eq_iff _ _).1 (ap int_to_string e),
)
