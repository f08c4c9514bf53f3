-- ===== src/Base/Decimal/RoundTrip.antt =====
-- A number's decimal text: it is read back, and it is digits only.
use pgsleuth.Base.Text.{is_whitespace, trim_start, push_trimmed, trim_end, trim, split_once}
use mathlib.Core.Logic.{◌≢◌}
use mathlib.Core.Bool.{Bool, true, false}
use mathlib.Core.Option.{some}
use pgsleuth.Base.Decimal.{digit, digits, to_string, parse_digits, parse_unsigned}
use Prim.Native.Nat.{ℕ, zero, suc, ◌+◌, ◌*◌, ◌/◌, ◌%◌, ◌≤◌, ◌<◌}
use Prim.Native.Char.{code, Char}
use Prim.Native.String.{String, ◌++◌ as ◌<>◌}
use mathlib.Core.Path.{◌≡◌, refl, ap, ◌∙◌}
use text.Mathlib.TextLemmas.{nil-append, cons-append}
use native.Mathlib.Omega.{arith}

code-digit : (n : ℕ) → n < 10 → code (digit n) ≡ b'0' + n
unfolding digit
code-digit zero h = refl
code-digit (suc zero) h = refl
code-digit (suc (suc zero)) h = refl
code-digit (suc (suc (suc zero))) h = refl
code-digit (suc (suc (suc (suc zero)))) h = refl
code-digit (suc (suc (suc (suc (suc zero))))) h = refl
code-digit (suc (suc (suc (suc (suc (suc zero)))))) h = refl
code-digit (suc (suc (suc (suc (suc (suc (suc zero))))))) h = refl
code-digit (suc (suc (suc (suc (suc (suc (suc (suc zero)))))))) h = refl
code-digit (suc (suc (suc (suc (suc (suc (suc (suc (suc n))))))))) h = omega arith

-- A text of decimal digits.
abbrev pub AllDigits : String → Type 0
AllDigits String.[] = Unit
AllDigits (String.◌∷◌ c s) = (b'0' ≤ code c) × (code c ≤ b'9') × AllDigits s

digit-AllDigits : (n : ℕ) (s : String) → n < 10 → AllDigits s → AllDigits (String.◌∷◌ (digit n) s)
digit-AllDigits n s h d = (omega (arith, code-digit n h), omega (arith, code-digit n h), d)

digits-AllDigits :
    (fuel n : ℕ) (out : String) → n ≤ fuel → AllDigits out → AllDigits (digits fuel n out)
unfolding digits
digits-AllDigits zero n out h d = digit-AllDigits n out (omega arith) d
digits-AllDigits (suc fuel) n out h d = ground (
  arith,
  digit-AllDigits n out,
  digits-AllDigits fuel (n / 10) (String.◌∷◌ (digit (n % 10)) out),
  digit-AllDigits (n % 10) out,
)

pub to_string-AllDigits : (n : ℕ) → AllDigits (to_string n)
unfolding to_string
to_string-AllDigits n = digits-AllDigits n n "" (omega arith) tt

parse_digits-digit :
    (bound acc d : ℕ) (s : String)
    → d < 10
    → acc * 10 + d ≤ bound
    → parse_digits bound acc (String.◌∷◌ (digit d) s) ≡ parse_digits bound (acc * 10 + d) s
unfolding parse_digits
parse_digits-digit bound acc d s h fits = ground (arith, code-digit d h)

parse_digits-digits :
    (bound fuel n : ℕ) (out : String)
    → n ≤ fuel
    → n ≤ bound
    → parse_digits bound 0 (digits fuel n out) ≡ parse_digits bound n out
unfolding digits
parse_digits-digits bound zero n out h fits = ground (arith, parse_digits-digit bound 0 n out)
parse_digits-digits bound (suc fuel) n out h fits = ground (
  arith,
  parse_digits-digit bound 0 n out,
  parse_digits-digits bound fuel (n / 10) (String.◌∷◌ (digit (n % 10)) out),
  parse_digits-digit bound (n / 10) (n % 10) out,
)

-- A text that digits start is read as digits.
parse_unsigned-AllDigits :
    (bound : ℕ) (s : String)
    → s ≢ ""
    → AllDigits s
    → parse_unsigned bound s ≡ parse_digits bound 0 s
unfolding parse_unsigned
parse_unsigned-AllDigits bound String.[] ne h = absurd (ne refl)
parse_unsigned-AllDigits bound (String.◌∷◌ c String.[]) ne h = ground arith
parse_unsigned-AllDigits bound (String.◌∷◌ c (String.◌∷◌ d s)) ne h = ground arith

abbrev pub is_text : String → Bool
is_text String.[] = false
is_text (String.◌∷◌ c s) = true

digits-is_text : (fuel n : ℕ) (out : String) → is_text (digits fuel n out) ≡ true
unfolding digits
digits-is_text zero n out = refl
digits-is_text (suc fuel) n out =
    ground (arith, digits-is_text fuel (n / 10) (String.◌∷◌ (digit (n % 10)) out))

pub to_string-is_text : (n : ℕ) → is_text (to_string n) ≡ true
unfolding to_string
to_string-is_text n = digits-is_text n n ""

text-ne-empty : (s : String) → is_text s ≡ true → s ≢ ""
text-ne-empty s h e = ground (arith, ap (λ t. is_text t) e)

-- Every number that fits is read back from its text.
pub parse_unsigned-to_string :
    (bound n : ℕ) → n ≤ bound → parse_unsigned bound (to_string n) ≡ some n
unfolding to_string parse_digits
parse_unsigned-to_string bound n h =
    parse_unsigned-AllDigits bound _ (text-ne-empty _ (digits-is_text n n ""))
      (digits-AllDigits n n "" (omega arith) tt)
    ∙ parse_digits-digits bound n n "" (omega arith) h

trim_start-AllDigits : (s : String) → AllDigits s → trim_start s ≡ s
unfolding trim_start is_whitespace
trim_start-AllDigits String.[] h = refl
trim_start-AllDigits (String.◌∷◌ c s) h = ground arith

push_trimmed-AllDigits :
    (c : Char) (s : String) → AllDigits (String.◌∷◌ c s) → push_trimmed c s ≡ String.◌∷◌ c s
unfolding push_trimmed is_whitespace
push_trimmed-AllDigits c String.[] h = ground arith
push_trimmed-AllDigits c (String.◌∷◌ d s) h = refl

trim_end-AllDigits : (s : String) → AllDigits s → trim_end s ≡ s
unfolding trim_end
trim_end-AllDigits String.[] h = refl
trim_end-AllDigits (String.◌∷◌ c s) (p, q, h) =
    rw (trim_end-AllDigits s h) (push_trimmed-AllDigits c s (p, q, h))

pub trim-AllDigits : (s : String) → AllDigits s → trim s ≡ s
unfolding trim
trim-AllDigits s h = rw (trim_start-AllDigits s h) (trim_end-AllDigits s h)

-- A text of digits ends where the separator stands.
pub split_once-AllDigits :
    (s t : String) → AllDigits s → split_once b':' (s <> (":" <> t)) ≡ some (s, t)
unfolding split_once
split_once-AllDigits String.[] t h =
    rw (nil-append (":" <> t), cons-append ":" "" t, nil-append t) refl
split_once-AllDigits (String.◌∷◌ c s) t (p, q, h) =
    rw (cons-append c s (":" <> t)) (ground (arith, split_once-AllDigits s t h))
