-- ===== src/Prelude/Text/Words.antt =====
-- Words and lines printed and read back.
use mathlib.Core.Path.{◌≡◌, refl, sym, ap, ◌∙◌}
use mathlib.Core.Bool.{Bool, true, false, not, ◌&&◌}
use mathlib.Core.List.{List, [], ◌∷◌, ◌++◌, append_assoc, append-nil}
use lmkd_linux.Prelude.Tests.{◌==◌, if◌then◌else◌}
use lmkd_linux.Prelude.Lists.{All}
use native.Mathlib.Omega.{arith}
use mathlib.Core.Option.{some}
use lmkd_linux.Prelude.Text.Numbers.{Digits, All-append}
use lmkd_linux.Prelude.Text.{
  strip_prefix, Text, is_space, is_blank, words_from, split_whitespace, strip_cr, lines_from, lines,
}

abbrev pub Solid : Text → Type 0
Solid w = All (λ c. is_space c ≡ false) w

abbrev pub IsWord : Text → Type 0
IsWord w = (is_blank w ≡ false) × Solid w

-- The words with one space between them.
unfoldable pub join : List Text → Text
join [] = []
join (w ∷ []) = w
join (w ∷ v ∷ ws) = w ++ 32 ∷ join (v ∷ ws)

-- What is read before a space, or before the end, is one word.
words_from-Solid :
    (acc w rest : Text) → Solid w → words_from acc (w ++ rest) ≡ words_from (acc ++ w) rest
unfolding words_from
words_from-Solid acc [] rest h = ap (λ a. words_from a rest) (sym (append-nil acc))
words_from-Solid acc (c ∷ w) rest h =
    ap
      (λ b.
        if b
        then (if is_blank acc then words_from [] (w ++ rest) else acc ∷ words_from [] (w ++ rest))
        else words_from (acc ++ c ∷ []) (w ++ rest))
      h.0
    ∙ words_from-Solid (acc ++ c ∷ []) w rest h.1
    ∙ ap (λ a. words_from a rest) (append_assoc acc (c ∷ []) w)

pub words-join : (ws : List Text) → All IsWord ws → split_whitespace (join ws) ≡ ws
unfolding split_whitespace words_from join
words-join [] h = refl
words-join (w ∷ []) h =
    ap (words_from []) (sym (append-nil w))
    ∙ words_from-Solid [] w [] h.0.1
    ∙ ap (λ b. if b then [] else w ∷ []) h.0.0
words-join (w ∷ v ∷ ws) h =
    words_from-Solid [] w (32 ∷ join (v ∷ ws)) h.0.1
    ∙ ap (λ b. if b then words_from [] (join (v ∷ ws)) else w ∷ words_from [] (join (v ∷ ws))) h.0.0
    ∙ ap (λ r. w ∷ r) (words-join (v ∷ ws) h.1)

-- No line feed and no carriage return.
abbrev pub IsLine : Text → Type 0
IsLine l = All (λ c. (c == 10 ≡ false) × (c == 13 ≡ false)) l

unfoldable pub unlines : List Text → Text
unlines [] = []
unlines (l ∷ ls) = l ++ 10 ∷ unlines ls

lines_from-line :
    (acc l rest : Text) → IsLine l → lines_from acc (l ++ rest) ≡ lines_from (acc ++ l) rest
unfolding lines_from
lines_from-line acc [] rest h = ap (λ a. lines_from a rest) (sym (append-nil acc))
lines_from-line acc (c ∷ l) rest h =
    ap
      (λ b.
        if b
        then strip_cr acc ∷ lines_from [] (l ++ rest)
        else lines_from (acc ++ c ∷ []) (l ++ rest))
      h.0.0
    ∙ lines_from-line (acc ++ c ∷ []) l rest h.1
    ∙ ap (λ a. lines_from a rest) (append_assoc acc (c ∷ []) l)

strip_cr-line : (l : Text) → IsLine l → strip_cr l ≡ l
unfolding strip_cr
strip_cr-line [] h = refl
strip_cr-line (c ∷ []) h = ap (λ b. if b then [] else c ∷ []) h.0.1
strip_cr-line (c ∷ d ∷ l) h = ap (λ r. c ∷ r) (strip_cr-line (d ∷ l) h.1)

pub lines-unlines : (ls : List Text) → All IsLine ls → lines (unlines ls) ≡ ls
unfolding lines lines_from unlines
lines-unlines [] h = refl
lines-unlines (l ∷ ls) h =
    lines_from-line [] l (10 ∷ unlines ls) h.0
    ∙ ap (λ s. s ∷ lines_from [] (unlines ls)) (strip_cr-line l h.0)
    ∙ ap (λ r. l ∷ r) (lines-unlines ls h.1)

unfoldable pub is_solid : Text → Bool
is_solid [] = true
is_solid (c ∷ w) = not (is_space c) && is_solid w

pub is_solid-Solid : (w : Text) → is_solid w ≡ true → Solid w
unfolding is_solid
is_solid-Solid [] h = _
is_solid-Solid (c ∷ w) h = (ground (arith, h), is_solid-Solid w (ground (arith, h)))

-- A label and what follows it are one word.
pub label-IsWord : (l v : Text) → not (is_blank l) && is_solid l ≡ true → Solid v → IsWord (l ++ v)
unfolding is_solid
label-IsWord [] v h hv = ground (arith, h)
label-IsWord (c ∷ l) v h hv = (refl, All-append _ (c ∷ l) v (is_solid-Solid (c ∷ l) h) hv)

pub Digits-Solid : (s : Text) → Digits s → Solid s
Digits-Solid [] h = _
Digits-Solid (c ∷ cs) h = (ground (arith, h.0), Digits-Solid cs h.1)

pub Solid-IsLine : (w : Text) → Solid w → IsLine w
Solid-IsLine [] h = _
Solid-IsLine (c ∷ w) h = ((ground (arith, h.0), ground (arith, h.0)), Solid-IsLine w h.1)

pub join-IsLine : (ws : List Text) → All IsWord ws → IsLine (join ws)
unfolding join
join-IsLine [] h = _
join-IsLine (w ∷ []) h = Solid-IsLine w h.0.1
join-IsLine (w ∷ v ∷ ws) h =
    All-append _ w (32 ∷ join (v ∷ ws)) (Solid-IsLine w h.0.1)
      ((refl, refl), join-IsLine (v ∷ ws) h.1)

pub strip_prefix-append : (p s : Text) → strip_prefix p (p ++ s) ≡ some s
unfolding strip_prefix
strip_prefix-append [] s = refl
strip_prefix-append (c ∷ p) s = ground (arith, strip_prefix-append p s)
