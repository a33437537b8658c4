-- ===== src/Meminfo/Printed.antt =====
-- mgd/src/monitor/meminfo.rs: the figures read from a printed /proc/meminfo.
use lmkd_linux.Prelude.{
  ℕ, ◌<◌, ◌≡◌, refl, ap, ◌∙◌, zero, suc, true, Option, none, some, List, [], ◌∷◌, ◌++◌, All, map,
  unwrap_or, ◌>>=◌,
}
use lmkd_linux.Prelude.Text.{
  Text, text, strip_prefix, split_whitespace, words_from, parse_u64, show, u64_limit,
}
use lmkd_linux.Prelude.Text.Numbers.{All-append, show-Digits, show-blank, parse_u64-show}
use lmkd_linux.Prelude.Text.Words.{
  IsWord, IsLine, join, unlines, words-join, lines-unlines, join-IsLine, Digits-Solid, Solid-IsLine,
  is_solid, is_solid-Solid,
}
use lmkd_linux.Meminfo.{MemInfo}
use lmkd_linux.Meminfo.Parse.{first_word, parse_kb, read_line, read_each, no_memory, read_meminfo}

-- A line of /proc/meminfo: one of the four figures, or another text.
pub data Entry : Type 0 where
  total available swap_total swap_free : ℕ → Entry
  other : Text → Entry

unfoldable pub spaces : ℕ → Text → Text
spaces zero s = s
spaces (suc n) s = 32 ∷ spaces n s

-- The kernel pads the number and puts the unit behind it.
unfoldable pub kb : ℕ → ℕ → Text
kb pad n = spaces pad (join (show n ∷ text "kB" ∷ []))

-- The line for an entry, with the padding that it has.
unfoldable pub entry_line : ℕ × Entry → Text
entry_line (pad, total n) = text "MemTotal:" ++ kb pad n
entry_line (pad, available n) = text "MemAvailable:" ++ kb pad n
entry_line (pad, swap_total n) = text "SwapTotal:" ++ kb pad n
entry_line (pad, swap_free n) = text "SwapFree:" ++ kb pad n
entry_line (pad, other s) = s

-- The figure of an entry is a u64; another line is a line, and has none of the four labels.
abbrev pub IsEntry : ℕ × Entry → Type 0
IsEntry (pad, total n) = n < u64_limit
IsEntry (pad, available n) = n < u64_limit
IsEntry (pad, swap_total n) = n < u64_limit
IsEntry (pad, swap_free n) = n < u64_limit
IsEntry (pad, other s) =
    IsLine s
    × (strip_prefix (text "MemTotal:") s ≡ none)
    × (strip_prefix (text "MemAvailable:") s ≡ none)
    × (strip_prefix (text "SwapTotal:") s ≡ none)
    × (strip_prefix (text "SwapFree:") s ≡ none)

-- The last figure of a kind, by what picks it from an entry.
unfoldable pub last_of : (Entry → Option ℕ) → ℕ → List (ℕ × Entry) → ℕ
last_of pick n [] = n
last_of pick n (e ∷ es) = last_of pick (unwrap_or (pick e.1) n) es

abbrev pub pick_total : Entry → Option ℕ
pick_total (total n) = some n
pick_total e = none

abbrev pub pick_available : Entry → Option ℕ
pick_available (available n) = some n
pick_available e = none

abbrev pub pick_swap_total : Entry → Option ℕ
pick_swap_total (swap_total n) = some n
pick_swap_total e = none

abbrev pub pick_swap_free : Entry → Option ℕ
pick_swap_free (swap_free n) = some n
pick_swap_free e = none

words-spaces : (pad : ℕ) (s : Text) → split_whitespace (spaces pad s) ≡ split_whitespace s
unfolding split_whitespace words_from spaces
words-spaces zero s = refl
words-spaces (suc pad) s = words-spaces pad s

kb-IsWord : (n : ℕ) → All IsWord (show n ∷ text "kB" ∷ [])
kb-IsWord n =
    ((show-blank n, Digits-Solid (show n) (show-Digits n)), ((refl, (refl, (refl, _))), _))

parse_kb-kb : (pad n : ℕ) → n < u64_limit → parse_kb (kb pad n) ≡ n
unfolding parse_kb kb
parse_kb-kb pad n h =
    ap (λ ws. unwrap_or (first_word ws >>= parse_u64) 0)
      (words-spaces pad (join (show n ∷ text "kB" ∷ []))
        ∙ words-join (show n ∷ text "kB" ∷ []) (kb-IsWord n))
    ∙ ap (λ o. unwrap_or o 0) (parse_u64-show n h)

spaces-IsLine : (pad : ℕ) (s : Text) → IsLine s → IsLine (spaces pad s)
unfolding spaces
spaces-IsLine zero s h = h
spaces-IsLine (suc pad) s h = ((refl, refl), spaces-IsLine pad s h)

kb-IsLine : (pad n : ℕ) → IsLine (kb pad n)
unfolding kb
kb-IsLine pad n =
    spaces-IsLine pad (join (show n ∷ text "kB" ∷ []))
      (join-IsLine (show n ∷ text "kB" ∷ []) (kb-IsWord n))

label_kb-IsLine : (l : Text) (pad n : ℕ) → is_solid l ≡ true → IsLine (l ++ kb pad n)
label_kb-IsLine l pad n h =
    All-append _ l (kb pad n) (Solid-IsLine l (is_solid-Solid l h)) (kb-IsLine pad n)

entry_line-IsLine : (e : ℕ × Entry) → IsEntry e → IsLine (entry_line e)
unfolding entry_line is_solid
entry_line-IsLine (pad, total n) h = label_kb-IsLine (text "MemTotal:") pad n refl
entry_line-IsLine (pad, available n) h = label_kb-IsLine (text "MemAvailable:") pad n refl
entry_line-IsLine (pad, swap_total n) h = label_kb-IsLine (text "SwapTotal:") pad n refl
entry_line-IsLine (pad, swap_free n) h = label_kb-IsLine (text "SwapFree:") pad n refl
entry_line-IsLine (pad, other s) h = h.0

entry_lines-IsLine : (es : List (ℕ × Entry)) → All IsEntry es → All IsLine (map entry_line es)
entry_lines-IsLine [] h = _
entry_lines-IsLine (e ∷ es) h = (entry_line-IsLine e h.0, entry_lines-IsLine es h.1)

-- The figures with those of one entry put in.
abbrev pub with_entry : Entry → MemInfo → MemInfo
with_entry e m = record {
  total_kb = unwrap_or (pick_total e) m.total_kb;
  available_kb = unwrap_or (pick_available e) m.available_kb;
  swap_total_kb = unwrap_or (pick_swap_total e) m.swap_total_kb;
  swap_free_kb = unwrap_or (pick_swap_free e) m.swap_free_kb;
}

read_line-other :
    (s : Text) (m : MemInfo)
    → strip_prefix (text "MemTotal:") s ≡ none
    → strip_prefix (text "MemAvailable:") s ≡ none
    → strip_prefix (text "SwapTotal:") s ≡ none
    → strip_prefix (text "SwapFree:") s ≡ none
    → read_line s m ≡ m
unfolding read_line strip_prefix
read_line-other s m a b c d = simp (a, b, c, d)

read_line-entry :
    (e : ℕ × Entry) (m : MemInfo) → IsEntry e → read_line (entry_line e) m ≡ with_entry e.1 m
unfolding read_line entry_line strip_prefix
read_line-entry (pad, total n) m h = ap (λ v. record m { total_kb = v }) (parse_kb-kb pad n h)
read_line-entry (pad, available n) m h =
    ap (λ v. record m { available_kb = v }) (parse_kb-kb pad n h)
read_line-entry (pad, swap_total n) m h =
    ap (λ v. record m { swap_total_kb = v }) (parse_kb-kb pad n h)
read_line-entry (pad, swap_free n) m h =
    ap (λ v. record m { swap_free_kb = v }) (parse_kb-kb pad n h)
read_line-entry (pad, other s) m h = read_line-other s m h.1 h.2 h.3 h.4

-- The last figure of each kind, over those given.
abbrev pub figures : MemInfo → List (ℕ × Entry) → MemInfo
figures m es = record {
  total_kb = last_of pick_total m.total_kb es;
  available_kb = last_of pick_available m.available_kb es;
  swap_total_kb = last_of pick_swap_total m.swap_total_kb es;
  swap_free_kb = last_of pick_swap_free m.swap_free_kb es;
}

read_each-figures :
    (es : List (ℕ × Entry)) (m : MemInfo)
    → All IsEntry es
    → read_each (map entry_line es) m ≡ figures m es
unfolding read_each last_of
read_each-figures [] m h = refl
read_each-figures (e ∷ es) m h =
    ap (read_each (map entry_line es)) (read_line-entry e m h.0)
    ∙ read_each-figures es (with_entry e.1 m) h.1

-- Of a file made of lines in any order, each a figure with some padding and its unit or a line without one
-- of the four labels, every figure is read as the last of its kind, and as 0 where there is none.
pub read_meminfo-figures :
    (es : List (ℕ × Entry))
    → All IsEntry es
    → read_meminfo (some (unlines (map entry_line es))) ≡ figures no_memory es
unfolding read_meminfo
read_meminfo-figures es h =
    ap (λ ls. read_each ls no_memory) (lines-unlines (map entry_line es) (entry_lines-IsLine es h))
    ∙ read_each-figures es no_memory h
