-- ===== src/Cli/CgroupThrottle/RoundTrip.antt =====
-- `cpu.stat` as the kernel prints it, and what the parser reads of it.
use pgsleuth.Base.{
  to_string, ℕ, String, ◌<>◌, ◌≡◌, refl, true, false, ◌&&◌, some, List, [], ◌∷◌, arith, leb,
  if◌then◌else◌, str_eq, str_eq_iff, leb→le, u64_max, lines, split_whitespace,
}
use mathlib.Core.Bool.{Bool}
use pgsleuth.Base.Decimal.{parse_u64}
use pgsleuth.Base.Decimal.RoundTrip.{parse_unsigned-to_string}
use pgsleuth.Base.Words.{is_word, print_line, words-print_line, lines-print_line}
use pgsleuth.Cli.CgroupThrottle.{
  CpuStat, set_field, set_parsed, parse_words, parse_lines, default_stat, parse,
}

-- The fields of a file, a line each.
abbrev pub print_stat : List (String × ℕ) → String
print_stat [] = ""
print_stat ((key, n) ∷ fields) = print_line key n (print_stat fields)

-- The keys are words, and the values u64s.
abbrev pub are_fields : List (String × ℕ) → Bool
are_fields [] = true
are_fields ((key, n) ∷ fields) = is_word key && leb n u64_max && are_fields fields

-- The value of the last field with this key.
abbrev pub value_of : String → ℕ → List (String × ℕ) → ℕ
value_of key d [] = d
value_of key d ((k, n) ∷ fields) = value_of key (if str_eq k key then n else d) fields

abbrev stat_of : List (String × ℕ) → CpuStat → CpuStat
stat_of fields out = record {
  nr_periods = value_of "nr_periods" out.nr_periods fields;
  nr_throttled = value_of "nr_throttled" out.nr_throttled fields;
  throttled_usec = value_of "throttled_usec" out.throttled_usec fields;
}

one_key : (k a b : String) → str_eq a b ≡ false → str_eq k a ≡ true → str_eq k b ≡ false
one_key k a b h e = rw ((str_eq_iff k a).0 e) h

periods-throttled : str_eq "nr_periods" "nr_throttled" ≡ false
unfolding str_eq
periods-throttled = refl

periods-usec : str_eq "nr_periods" "throttled_usec" ≡ false
unfolding str_eq
periods-usec = refl

throttled-usec : str_eq "nr_throttled" "throttled_usec" ≡ false
unfolding str_eq
throttled-usec = refl

set_field-stat_of :
    (k : String) (n : ℕ) (fields : List (String × ℕ)) (out : CpuStat)
    → stat_of fields (set_field k n out) ≡ stat_of ((k, n) ∷ fields) out
unfolding set_field
set_field-stat_of k n fields out = ground (
  arith,
  one_key k "nr_periods" "nr_throttled" periods-throttled,
  one_key k "nr_periods" "throttled_usec" periods-usec,
  one_key k "nr_throttled" "throttled_usec" throttled-usec,
)

parse_u64-to_string : (n : ℕ) → leb n u64_max ≡ true → parse_u64 (to_string n) ≡ some n
unfolding parse_u64
parse_u64-to_string n h = parse_unsigned-to_string u64_max n (leb→le n u64_max h)

parse_words-print_line :
    (key : String) (n : ℕ) (out : CpuStat)
    → is_word key ≡ true
    → leb n u64_max ≡ true
    → parse_words (split_whitespace (key <> (" " <> to_string n))) out ≡ set_field key n out
unfolding parse_words set_parsed
parse_words-print_line key n out w h = rw (words-print_line key n w, parse_u64-to_string n h) refl

parse_lines-nil : (out : CpuStat) → parse_lines (lines "") out ≡ out
unfolding parse_lines lines
parse_lines-nil out = refl

parse_lines-cons :
    (line : String) (later : List String) (out : CpuStat)
    → parse_lines (line ∷ later) out ≡ parse_lines later (parse_words (split_whitespace line) out)
unfolding parse_lines
parse_lines-cons line later out = refl

fields_split : (a b c : Bool) → (a && b && c) ≡ true → (a ≡ true) × ((b ≡ true) × (c ≡ true))
fields_split a b c h = ground arith

parse_lines-print_stat :
    (fields : List (String × ℕ)) (out : CpuStat)
    → are_fields fields ≡ true
    → parse_lines (lines (print_stat fields)) out ≡ stat_of fields out
parse_lines-print_stat [] out h = parse_lines-nil out
parse_lines-print_stat ((key, n) ∷ fields) out h =
    let (w, (fits, rest)) = fields_split (is_word key) (leb n u64_max) (are_fields fields) h in
    rw
      (
        lines-print_line key n (print_stat fields) w,
        parse_lines-cons (key <> (" " <> to_string n)) (lines (print_stat fields)) out,
        parse_words-print_line key n out w fits,
        parse_lines-print_stat fields (set_field key n out) rest,
      )
      (set_field-stat_of key n fields out)

-- Of a file that lists fields, a word and a u64 on each line, the parser keeps the last value of each of its three keys, 0 for a key that is not there, and ignores every other field.
pub parse-print_stat :
    (fields : List (String × ℕ))
    → are_fields fields ≡ true
    → parse (print_stat fields) ≡ record {
      nr_periods = value_of "nr_periods" 0 fields;
      nr_throttled = value_of "nr_throttled" 0 fields;
      throttled_usec = value_of "throttled_usec" 0 fields;
    }
unfolding parse
parse-print_stat fields h = parse_lines-print_stat fields default_stat h
