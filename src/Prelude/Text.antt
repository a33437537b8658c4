-- ===== src/Prelude/Text.antt =====
-- `str` as the list of its characters' code points, with the operations of the standard library that
-- the parsers use. White space is that of ASCII.
pub mod Numbers
pub mod Words
use Prim.Native.Char.{code}
use Prim.Native.Nat.{ℕ, zero, suc, ◌+◌, ◌-◌, ◌*◌, ◌/◌, ◌%◌, ◌^◌, ◌≤◌, ◌<◌}
use Prim.Native.String
use Prim.Native.String.{String}
use mathlib.Core.Bool.{Bool, true, false, ◌&&◌, ◌||◌, not}
use mathlib.Core.Option.{Option, none, some}
use mathlib.Core.List.{List, [], ◌∷◌, ◌++◌}
use lmkd_linux.Prelude.Lists.{◌>>=◌}
use lmkd_linux.Prelude.Int.{ℤ, pos, negsuc}
use lmkd_linux.Prelude.Tests.{ltb, leb, ◌==◌, if◌then◌else◌}

abbrev pub Text : Type 0
Text = List ℕ

-- A literal.
abbrev pub text : String → Text
text String.[] = []
text (String.◌∷◌ c s) = code c ∷ text s

abbrev pub is_space : ℕ → Bool
is_space c = c == 32 || (leb 9 c && leb c 13)

abbrev pub is_digit : ℕ → Bool
is_digit c = leb 48 c && leb c 57

abbrev pub is_blank : Text → Bool
is_blank [] = true
is_blank (c ∷ cs) = false

unfoldable pub same : Text → Text → Bool
same [] [] = true
same [] (d ∷ ds) = false
same (c ∷ cs) [] = false
same (c ∷ cs) (d ∷ ds) = c == d && same cs ds

-- `strip_prefix`: what follows the first text in the second.
unfoldable pub strip_prefix : Text → Text → Option Text
strip_prefix [] s = some s
strip_prefix (p ∷ ps) [] = none
strip_prefix (p ∷ ps) (c ∷ cs) = if p == c then strip_prefix ps cs else none

-- `split_whitespace`, with the word read so far.
unfoldable pub words_from : Text → Text → List Text
words_from word [] = if is_blank word then [] else word ∷ []
words_from word (c ∷ cs) =
    let rest = words_from [] cs in
    let longer = words_from (word ++ c ∷ []) cs in
    if is_space c then (if is_blank word then rest else word ∷ rest) else longer

unfoldable pub split_whitespace : Text → List Text
split_whitespace s = words_from [] s

strip_cr : Text → Text
strip_cr [] = []
strip_cr (c ∷ []) = if c == 13 then [] else c ∷ []
strip_cr (c ∷ d ∷ cs) = c ∷ strip_cr (d ∷ cs)

-- `lines`: a carriage return goes with the line feed that follows it.
unfoldable pub lines_from : Text → Text → List Text
unfolding strip_cr
lines_from line [] = if is_blank line then [] else line ∷ []
lines_from line (c ∷ cs) =
    let rest = lines_from [] cs in
    let longer = lines_from (line ++ c ∷ []) cs in if c == 10 then strip_cr line ∷ rest else longer

unfoldable pub lines : Text → List Text
lines s = lines_from [] s

abbrev pub u64_limit : ℕ
u64_limit = 2 ^ 64

-- The digits of a number below `limit`, behind those read so far.
unfoldable pub digits_from : ℕ → ℕ → Text → Option ℕ
digits_from limit acc [] = some acc
digits_from limit acc (c ∷ cs) =
    let rest = digits_from limit (acc * 10 + (c - 48)) cs in
    if is_digit c && ltb (acc * 10 + (c - 48)) limit then rest else none

-- `parse::<u64>`, which allows a plus sign.
unfoldable pub parse_u64 : Text → Option ℕ
parse_u64 [] = none
parse_u64 (c ∷ []) = if c == 43 then none else digits_from u64_limit 0 (c ∷ [])
parse_u64 (c ∷ d ∷ cs) =
    if c == 43 then digits_from u64_limit 0 (d ∷ cs) else digits_from u64_limit 0 (c ∷ d ∷ cs)

-- `{}` of a number with at most the given count of digits.
unfoldable pub digits : ℕ → ℕ → Text
digits zero n = []
digits (suc k) n =
    let rest = digits k (n / 10) in if ltb n 10 then (48 + n) ∷ [] else rest ++ (48 + n % 10) ∷ []

unfoldable pub show : ℕ → Text
show n = digits 20 n

unfoldable pub trim_start : Text → Text
trim_start [] = []
trim_start (c ∷ cs) = if is_space c then trim_start cs else c ∷ cs

unfoldable pub trim_end : Text → Text
trim_end [] = []
trim_end (c ∷ cs) = let rest = trim_end cs in if is_space c && is_blank rest then [] else c ∷ rest

unfoldable pub trim : Text → Text
trim s = trim_end (trim_start s)

-- The integer under a minus sign.
abbrev pub negative : ℕ → ℤ
negative zero = pos 0
negative (suc n) = negsuc n

-- `parse::<i32>`.
unfoldable pub parse_i32 : Text → Option ℤ
parse_i32 [] = none
parse_i32 (c ∷ cs) =
    if is_blank cs
    then (if is_digit c then some (pos (c - 48)) else none)
    else if c == 45
    then (digits_from (2 ^ 31 + 1) 0 cs >>= λ n. some (negative n))
    else (digits_from (2 ^ 31) 0 (if c == 43 then cs else c ∷ cs) >>= λ n. some (pos n))

-- `rsplit('/')`, its first part, with what was read so far behind the last slash.
unfoldable pub after_slash_from : Text → Text → Text
after_slash_from word [] = word
after_slash_from word (c ∷ cs) =
    let cut = after_slash_from [] cs in
    let longer = after_slash_from (word ++ c ∷ []) cs in if c == 47 then cut else longer

unfoldable pub after_slash : Text → Text
after_slash s = after_slash_from [] s

unfoldable pub starts_with : Text → Text → Bool
starts_with prefix s = elim (strip_prefix prefix s) [ none ↦ false | some rest ↦ true ]

unfoldable pub contains : Text → Text → Bool
contains part [] = is_blank part
contains part (c ∷ cs) = starts_with part (c ∷ cs) || contains part cs
