-- ===== src/Base/Text.antt =====
-- What the code uses of Rust's `str`: walks over its characters.
use Prim.Native.Nat.{ℕ}
use Prim.Native.Char.{Char, code}
use Prim.Native.String.{String}
use mathlib.Core.Bool.{Bool, true, false, ◌&&◌, ◌||◌}
use mathlib.Core.Option.{Option, none, some}
use mathlib.Core.List.{List, [], ◌∷◌}
use pgsleuth.Base.Tests.{leb, ◌==◌, if◌then◌else◌}

-- Unicode's `White_Space`, which `char::is_whitespace` tests.
unfoldable pub is_whitespace : ℕ → Bool
is_whitespace c =
    (leb 0x9 c && leb c 0xd)
    || c == 0x20
    || c == 0x85
    || c == 0xa0
    || c == 0x1680
    || (leb 0x2000 c && leb c 0x200a)
    || c == 0x2028
    || c == 0x2029
    || c == 0x202f
    || c == 0x205f
    || c == 0x3000

unfoldable pub trim_start : String → String
unfolding is_whitespace
trim_start String.[] = ""
trim_start (String.◌∷◌ c s) =
    let rest = trim_start s in if is_whitespace (code c) then rest else String.◌∷◌ c s

-- Drops the white space at the end: what is left of a text is empty if all of it is white space.
unfoldable pub push_trimmed : Char → String → String
unfolding is_whitespace
push_trimmed c String.[] = if is_whitespace (code c) then "" else String.◌∷◌ c ""
push_trimmed c (String.◌∷◌ d t) = String.◌∷◌ c (String.◌∷◌ d t)

unfoldable pub trim_end : String → String
unfolding push_trimmed
trim_end String.[] = ""
trim_end (String.◌∷◌ c s) = push_trimmed c (trim_end s)

unfoldable pub trim : String → String
unfolding trim_start trim_end
trim s = trim_end (trim_start s)

unfoldable pub push_before : Char → Option (String × String) → Option (String × String)
push_before c none = none
push_before c (some (before, after)) = some (String.◌∷◌ c before, after)

-- `s.split_once(c)`: the texts before and after the first `c`.
unfoldable pub split_once : ℕ → String → Option (String × String)
unfolding push_before
split_once k String.[] = none
split_once k (String.◌∷◌ c s) = if code c == k then some ("", s) else push_before c (split_once k s)

abbrev pub is_empty : String → Bool
is_empty String.[] = true
is_empty (String.◌∷◌ c s) = false

-- A character joins the first line behind it, or makes one.
unfoldable pub push_line : Char → List String → List String
push_line c [] = String.◌∷◌ c "" ∷ []
push_line c (l ∷ ls) = String.◌∷◌ c l ∷ ls

abbrev starts_at : ℕ → String → Bool
starts_at k String.[] = false
starts_at k (String.◌∷◌ c s) = code c == k

-- `str::lines`: a line ends at a line feed, with or without a carriage return before it.
unfoldable pub lines : String → List String
unfolding push_line
lines String.[] = []
lines (String.◌∷◌ c s) =
    let rest = lines s in
    if code c == 0xa
    then "" ∷ rest
    else if code c == 0xd && starts_at 0xa s
    then rest
    else push_line c rest

-- A character joins the word behind it, if that stands right behind.
unfoldable pub push_word : Char → Bool → List String → List String
push_word c true (w ∷ ws) = String.◌∷◌ c w ∷ ws
push_word c _ ws = String.◌∷◌ c "" ∷ ws

unfoldable pub starts_word : String → Bool
unfolding is_whitespace
starts_word String.[] = false
starts_word (String.◌∷◌ c s) = if is_whitespace (code c) then false else true

-- `str::split_whitespace`.
unfoldable pub split_whitespace : String → List String
unfolding is_whitespace push_word starts_word
split_whitespace String.[] = []
split_whitespace (String.◌∷◌ c s) =
    let rest = split_whitespace s in
    if is_whitespace (code c) then rest else push_word c (starts_word s) rest
