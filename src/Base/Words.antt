-- ===== src/Base/Words.antt =====
-- Texts of lines that are words: the lines and the words are read back.
use Prim.Native.Nat.{ℕ, ◌≤◌}
use pgsleuth.Base.Tests.{◌==◌, ==_iff, Bool-cases}
use pgsleuth.Base.Text.{is_whitespace, push_line, lines, push_word, starts_word, split_whitespace}
use pgsleuth.Base.Decimal.{to_string}
use pgsleuth.Base.Decimal.RoundTrip.{AllDigits, to_string-AllDigits, is_text, to_string-is_text}
use Prim.Native.Char.{code}
use Prim.Native.String.{String, ◌++◌ as ◌<>◌}
use mathlib.Core.Path.{◌≡◌, refl, ap, ◌∙◌}
use mathlib.Core.Logic.{inl, inr}
use mathlib.Core.Bool.{Bool, true, false, not, ◌&&◌}
use mathlib.Core.List.{[], ◌∷◌}
use text.Mathlib.TextLemmas.{nil-append, cons-append}
use native.Mathlib.Omega.{arith}

-- No character is white space.
abbrev pub no_space : String → Bool
no_space String.[] = true
no_space (String.◌∷◌ c s) = not (is_whitespace (code c)) && no_space s

abbrev pub is_word : String → Bool
is_word String.[] = false
is_word (String.◌∷◌ c s) = not (is_whitespace (code c)) && no_space s

-- No character ends a line.
abbrev no_break : String → Bool
no_break String.[] = true
no_break (String.◌∷◌ c s) = not (code c == 0xa) && not (code c == 0xd) && no_break s

no_break-append : (s t : String) → no_break s ≡ true → no_break t ≡ true → no_break (s <> t) ≡ true
no_break-append String.[] t h k = rw (nil-append t) k
no_break-append (String.◌∷◌ c s) t h k =
    rw (cons-append c s t) (ground (arith, no_break-append s t))

-- A character that is not white space is not this white space.
not_whitespace : (k c : ℕ) → is_whitespace k ≡ true → is_whitespace c ≡ false → (c == k) ≡ false
not_whitespace k c h n = elim (Bool-cases (c == k)) [
  | inl e ↦ cc ((==_iff c k).0 e, h, n)
  | inr e ↦ e
]

line_feed : is_whitespace 0xa ≡ true
unfolding is_whitespace
line_feed = refl

carriage_return : is_whitespace 0xd ≡ true
unfolding is_whitespace
carriage_return = refl

no_space-no_break : (s : String) → no_space s ≡ true → no_break s ≡ true
no_space-no_break String.[] h = refl
no_space-no_break (String.◌∷◌ c s) h = ground (
  arith,
  not_whitespace 0xa (code c) line_feed,
  not_whitespace 0xd (code c) carriage_return,
  no_space-no_break s,
)

lines-break : (s t : String) → no_break s ≡ true → lines (s <> ("\n" <> t)) ≡ s ∷ lines t
unfolding lines push_line
lines-break String.[] t h = rw (nil-append ("\n" <> t), cons-append "\n" "" t, nil-append t) refl
lines-break (String.◌∷◌ c s) t h =
    rw (cons-append c s ("\n" <> t)) (ground (arith, lines-break s t))

split_whitespace-word : (s : String) → is_word s ≡ true → split_whitespace s ≡ s ∷ []
unfolding split_whitespace push_word starts_word
split_whitespace-word String.[] h = ground arith
split_whitespace-word (String.◌∷◌ c String.[]) h = ground arith
split_whitespace-word (String.◌∷◌ c (String.◌∷◌ d s)) h =
    ground (arith, split_whitespace-word (String.◌∷◌ d s))

space-words : (t : String) → split_whitespace (" " <> t) ≡ split_whitespace t
unfolding split_whitespace is_whitespace
space-words t = rw (cons-append " " "" t, nil-append t) refl

starts-space : (t : String) → starts_word (" " <> t) ≡ false
unfolding starts_word is_whitespace
starts-space t = rw (cons-append " " "" t) refl

split_whitespace-words :
    (s t : String) → is_word s ≡ true → split_whitespace (s <> (" " <> t)) ≡ s ∷ split_whitespace t
unfolding split_whitespace push_word starts_word
split_whitespace-words String.[] t h = ground arith
split_whitespace-words (String.◌∷◌ c String.[]) t h =
    rw (cons-append c "" (" " <> t), nil-append (" " <> t))
      (ground (arith, starts-space t, space-words t))
split_whitespace-words (String.◌∷◌ c (String.◌∷◌ d s)) t h =
    rw (cons-append c (String.◌∷◌ d s) (" " <> t), cons-append d s (" " <> t))
      (ground (arith, cons-append d s (" " <> t), split_whitespace-words (String.◌∷◌ d s) t))

digit-no_space : (c : ℕ) → b'0' ≤ c → c ≤ b'9' → is_whitespace c ≡ false
unfolding is_whitespace
digit-no_space c h k = ground arith

AllDigits-no_space : (s : String) → AllDigits s → no_space s ≡ true
AllDigits-no_space String.[] h = refl
AllDigits-no_space (String.◌∷◌ c s) (p, q, h) =
    ground (arith, digit-no_space (code c) p q, AllDigits-no_space s h)

AllDigits-is_word : (s : String) → is_text s ≡ true → AllDigits s → is_word s ≡ true
AllDigits-is_word String.[] t h = ground arith
AllDigits-is_word (String.◌∷◌ c s) t h = AllDigits-no_space (String.◌∷◌ c s) h

to_string-is_word : (n : ℕ) → is_word (to_string n) ≡ true
to_string-is_word n = AllDigits-is_word (to_string n) (to_string-is_text n) (to_string-AllDigits n)

is_word-no_break : (s : String) → is_word s ≡ true → no_break s ≡ true
is_word-no_break String.[] h = refl
is_word-no_break (String.◌∷◌ c s) h = no_space-no_break (String.◌∷◌ c s) h

-- A line of a key and a number, in front of more lines.
abbrev pub print_line : String → ℕ → String → String
print_line key n rest = (key <> (" " <> to_string n)) <> ("\n" <> rest)

space-no_break : (s : String) → no_break s ≡ true → no_break (" " <> s) ≡ true
space-no_break s h = rw (cons-append " " "" s, nil-append s) h

-- Such a line is read as itself, and as its two words.
pub lines-print_line :
    (key : String) (n : ℕ) (rest : String)
    → is_word key ≡ true
    → lines (print_line key n rest) ≡ (key <> (" " <> to_string n)) ∷ lines rest
lines-print_line key n rest h = lines-break (key <> (" " <> to_string n)) rest (
    no_break-append key (" " <> to_string n) (is_word-no_break key h)
      (space-no_break (to_string n) (is_word-no_break (to_string n) (to_string-is_word n))))

pub words-print_line :
    (key : String) (n : ℕ)
    → is_word key ≡ true
    → split_whitespace (key <> (" " <> to_string n)) ≡ key ∷ to_string n ∷ []
words-print_line key n h =
    split_whitespace-words key (to_string n) h
    ∙ ap (◌∷◌ key) (split_whitespace-word (to_string n) (to_string-is_word n))
