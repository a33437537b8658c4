-- ===== src/Psi/Printed.antt =====
-- mgd/src/monitor/psi.rs: what the kernel prints as memory pressure is read back as it was.
use lmkd_linux.Prelude.{
  ℕ, ◌+◌, ◌/◌, ◌%◌, ◌<◌, ◌≡◌, refl, ap, ◌∙◌, false, Option, some, List, [], ◌∷◌, ◌++◌, All, none,
  ◌⊎◌, inl, inr, arith,
}
use lmkd_linux.Prelude.Text.{
  trim, trim_start, trim_end, Text, text, is_space, parse_u64, show, u64_limit, same,
}
use lmkd_linux.Prelude.Text.Numbers.{All-append, show-Digits, parse_u64-show}
use lmkd_linux.Prelude.Text.Words.{
  Solid, IsWord, join, unlines, words-join, lines-unlines, join-IsLine, strip_prefix-append,
  Digits-Solid, is_solid, label-IsWord,
}
use lmkd_linux.Psi.{MemoryPressure, PressureLevel, normal, elevated, high, critical, emergency}
use lmkd_linux.Psi.Parse.{
  MgdError, parse, Stall, parse_kv, parse_kv_u64, parse_stall, store, parse_line, parse_lines,
  no_pressure, parse_pressure, parse_level, as_str,
}

-- The kernel prints an average with two digits after the point.
unfoldable pub hundredths : ℕ → Text
hundredths v = show (v / 100) ++ 46 ∷ (48 + v / 10 % 10) ∷ (48 + v % 10) ∷ []

unfoldable pub stall_words : Text → Stall → List Text
stall_words kind s =
    kind
    ∷ (text "avg10=" ++ hundredths s.avg10)
    ∷ (text "avg60=" ++ hundredths s.avg60)
    ∷ (text "avg300=" ++ hundredths s.avg300)
    ∷ (text "total=" ++ show s.total)
    ∷ []

abbrev some_stall : MemoryPressure → Stall
some_stall p = record {
  avg10 = p.some_avg10;
  avg60 = p.some_avg60;
  avg300 = p.some_avg300;
  total = p.some_total;
}

abbrev full_stall : MemoryPressure → Stall
full_stall p = record {
  avg10 = p.full_avg10;
  avg60 = p.full_avg60;
  avg300 = p.full_avg300;
  total = p.full_total;
}

-- The text of /proc/pressure/memory.
unfoldable pub printed : MemoryPressure → Text
printed p = unlines (
    join (stall_words (text "some") (some_stall p))
    ∷ join (stall_words (text "full") (full_stall p))
    ∷ [])

-- The decimals of a line are read as they are printed, and its total is a u64.
abbrev pub Reads : (Text → Option ℕ) → Stall → Type 0
Reads parse_f64 s =
    (parse_f64 (hundredths s.avg10) ≡ some s.avg10)
    × (parse_f64 (hundredths s.avg60) ≡ some s.avg60)
    × (parse_f64 (hundredths s.avg300) ≡ some s.avg300)
    × (s.total < u64_limit)

hundredths-Solid : (v : ℕ) → Solid (hundredths v)
unfolding hundredths
hundredths-Solid v =
    All-append (λ c. is_space c ≡ false) (show (v / 100)) _
      (Digits-Solid (show (v / 100)) (show-Digits (v / 100)))
      (refl, (ground arith, (ground arith, _)))

stall_words-IsWord : (kind : Text) (s : Stall) → IsWord kind → All IsWord (stall_words kind s)
unfolding stall_words is_solid
stall_words-IsWord kind s k = (
  k,
  (
    label-IsWord (text "avg10=") (hundredths s.avg10) refl (hundredths-Solid s.avg10),
    (
      label-IsWord (text "avg60=") (hundredths s.avg60) refl (hundredths-Solid s.avg60),
      (
        label-IsWord (text "avg300=") (hundredths s.avg300) refl (hundredths-Solid s.avg300),
        (
          label-IsWord (text "total=") (show s.total) refl
              (Digits-Solid (show s.total) (show-Digits s.total)),
          _,
        ),
      ),
    ),
  ),
)

some-IsWord : IsWord (text "some")
some-IsWord = (refl, (refl, (refl, (refl, (refl, _)))))

full-IsWord : IsWord (text "full")
full-IsWord = (refl, (refl, (refl, (refl, (refl, _)))))

parse_kv-append :
    (parse_f64 : Text → Option ℕ) (prefix v : Text)
    → parse_kv parse_f64 (prefix ++ v) prefix ≡ parse_f64 v
unfolding parse_kv
parse_kv-append parse_f64 prefix v =
    ap (λ o. elim o as (λ _. Option ℕ) [ none ↦ none | some w ↦ parse_f64 w ])
      (strip_prefix-append prefix v)

parse_kv_u64-append : (prefix v : Text) → parse_kv_u64 (prefix ++ v) prefix ≡ parse_u64 v
unfolding parse_kv_u64
parse_kv_u64-append prefix v =
    ap (λ o. elim o as (λ _. Option ℕ) [ none ↦ none | some w ↦ parse_u64 w ])
      (strip_prefix-append prefix v)

parse_stall-printed :
    (parse_f64 : Text → Option ℕ) (s : Stall)
    → Reads parse_f64 s
    → parse_stall parse_f64
        (text "avg10=" ++ hundredths s.avg10)
        (text "avg60=" ++ hundredths s.avg60)
        (text "avg300=" ++ hundredths s.avg300)
        (text "total=" ++ show s.total)
      ≡ some s
unfolding parse_stall
parse_stall-printed parse_f64 s h = simp (
  parse_kv-append parse_f64 (text "avg10=") (hundredths s.avg10),
  parse_kv-append parse_f64 (text "avg60=") (hundredths s.avg60),
  parse_kv-append parse_f64 (text "avg300=") (hundredths s.avg300),
  parse_kv_u64-append (text "total=") (show s.total),
  h.0,
  h.1,
  h.2,
  parse_u64-show s.total h.3,
)

parse_line-printed :
    (parse_f64 : Text → Option ℕ) (kind : Text) (s : Stall) (p : MemoryPressure)
    → Reads parse_f64 s
    → parse_line parse_f64 (stall_words kind s) p ≡ inr (store kind s p)
unfolding parse_line stall_words
parse_line-printed parse_f64 kind s p h =
    ap
      (λ o. elim o as (λ _. MgdError ⊎ MemoryPressure) [
        | none ↦ inl parse
        | some t ↦ inr (store kind t p)
      ])
      (parse_stall-printed parse_f64 s h)

parse_lines-printed :
    (parse_f64 : Text → Option ℕ) (kind : Text) (s : Stall) (ls : List Text) (p : MemoryPressure)
    → IsWord kind
    → Reads parse_f64 s
    → parse_lines parse_f64 (join (stall_words kind s) ∷ ls) p
      ≡ parse_lines parse_f64 ls (store kind s p)
unfolding parse_lines
parse_lines-printed parse_f64 kind s ls p k h =
    let after : MgdError ⊎ MemoryPressure → MgdError ⊎ MemoryPressure =
      λ r. elim r [ inl e ↦ inl e | inr q ↦ parse_lines parse_f64 ls q ] in
    ap (λ ws. after (parse_line parse_f64 ws p))
      (words-join (stall_words kind s) (stall_words-IsWord kind s k))
    ∙ ap after (parse_line-printed parse_f64 kind s p h)

-- What the kernel prints for a pressure is read back as that pressure, given that `parse::<f64>` reads
-- each of the six averages, printed with two digits after the point, as the number that it is, and that
-- both totals are below 2^64.
pub parse_pressure-printed :
    (parse_f64 : Text → Option ℕ) (p : MemoryPressure)
    → Reads parse_f64 (some_stall p)
    → Reads parse_f64 (full_stall p)
    → parse_pressure parse_f64 (printed p) ≡ inr p
unfolding parse_pressure parse_lines printed store same
parse_pressure-printed parse_f64 p hs hf =
    let some_words = stall_words (text "some") (some_stall p) in
    let full_words = stall_words (text "full") (full_stall p) in
    let after_some = store (text "some") (some_stall p) no_pressure in
    ap (λ ls. parse_lines parse_f64 ls no_pressure)
      (lines-unlines (join some_words ∷ join full_words ∷ []) (
        join-IsLine some_words (stall_words-IsWord (text "some") (some_stall p) some-IsWord),
        (join-IsLine full_words (stall_words-IsWord (text "full") (full_stall p) full-IsWord), _),
      ))
    ∙ parse_lines-printed parse_f64 (text "some") (some_stall p) (join full_words ∷ []) no_pressure
        some-IsWord hs
    ∙ parse_lines-printed parse_f64 (text "full") (full_stall p) [] after_some full-IsWord hf

pub parse_level-as_str : (l : PressureLevel) → parse_level (as_str l) ≡ some l
unfolding parse_level as_str same trim trim_start trim_end
parse_level-as_str normal = refl
parse_level-as_str elevated = refl
parse_level-as_str high = refl
parse_level-as_str critical = refl
parse_level-as_str emergency = refl
