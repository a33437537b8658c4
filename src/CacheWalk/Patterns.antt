-- ===== src/CacheWalk/Patterns.antt =====
-- mgd/src/monitor/cache.rs: what a segment with a star matches.
use lmkd_linux.Prelude.{
  ℕ, ◌+◌, ◌-◌, ◌≤◌, ◌≡◌, ◌↔◌, zero, suc, refl, sym, ap, ◌∙◌, Bool, true, false, ◌&&◌, none, some,
  [], ◌∷◌, ◌++◌, ◌==◌, All, length, drop, take, leb, arith,
}
use mathlib.Core.List.{append_assoc}
use lmkd_linux.Prelude.Text.{Text, same, strip_prefix}
use lmkd_linux.Prelude.Text.Words.{strip_prefix-append}
use lmkd_linux.Prelude.Text.{starts_with}
use lmkd_linux.CacheWalk.{ends_with, split_star, segment_matches}

same_sound : (s t : Text) → same s t ≡ true → s ≡ t
unfolding same
same_sound [] [] h = refl
same_sound [] (d ∷ t) h = ground (arith, h)
same_sound (c ∷ s) [] h = ground (arith, h)
same_sound (c ∷ s) (d ∷ t) h =
    let heads : c ≡ d = ground (arith, h) in
    let tails : same s t ≡ true = ground (arith, h) in cc (heads, same_sound s t tails)

same_refl : (s : Text) → same s s ≡ true
unfolding same
same_refl [] = refl
same_refl (c ∷ s) = ground (arith, same_refl s)

starts_with_sound :
    (p s : Text) → starts_with p s ≡ true → (length p ≤ length s) × (s ≡ p ++ drop (length p) s)
unfolding starts_with strip_prefix
starts_with_sound [] s h = (omega arith, refl)
starts_with_sound (c ∷ p) [] h = ground (arith, h)
starts_with_sound (c ∷ p) (d ∷ s) h =
    let heads : c ≡ d = ground (arith, h) in
    let tails : starts_with p s ≡ true = ground (arith, h) in
    let rest = starts_with_sound p s tails in (omega (arith, rest.0), cc (heads, rest.1))

starts_with-append : (p s : Text) → starts_with p (p ++ s) ≡ true
unfolding starts_with
starts_with-append p s =
    ap (λ o. elim o as (λ _. Bool) [ none ↦ false | some rest ↦ true ]) (strip_prefix-append p s)

length-append : (s t : Text) → length (s ++ t) ≡ length s + length t
length-append [] t = omega arith
length-append (c ∷ s) t = omega (arith, length-append s t)

drop-append : (s t : Text) → drop (length s) (s ++ t) ≡ t
drop-append [] t = refl
drop-append (c ∷ s) t = drop-append s t

drop-nil : (n : ℕ) → drop {A = ℕ} n [] ≡ []
drop-nil zero = refl
drop-nil (suc n) = refl

drop-drop : (m n k : ℕ) (s : Text) → n + m ≡ k → drop m (drop n s) ≡ drop k s
drop-drop m zero k s h = let same_count : m ≡ k = omega (arith, h) in ap (λ j. drop j s) same_count
drop-drop m (suc n) k [] h = drop-nil m ∙ sym (drop-nil k)
drop-drop m (suc n) zero (c ∷ s) h = absurd (omega (arith, h))
drop-drop m (suc n) (suc k) (c ∷ s) h = drop-drop m n k s (omega (arith, h))

take-drop : (n : ℕ) (s : Text) → take n s ++ drop n s ≡ s
take-drop zero s = refl
take-drop (suc n) [] = refl
take-drop (suc n) (c ∷ s) = ap (λ r. c ∷ r) (take-drop n s)

-- A text without a star.
abbrev pub Plain : Text → Type 0
Plain s = All (λ c. c == 42 ≡ false) s

split_star-append : (p s : Text) → Plain p → split_star (p ++ 42 ∷ s) ≡ some (p, s)
unfolding split_star
split_star-append [] s h = refl
split_star-append (c ∷ p) s h = ground (arith, h.0, split_star-append p s h.1)

ends_with_sound :
    (t s : Text) → ends_with t s ≡ true → (length t ≤ length s) × (t ≡ drop (length s - length t) s)
unfolding ends_with
ends_with_sound t s h =
    let fits : length t ≤ length s = ground (arith, h) in
    let ends : same t (drop (length s - length t) s) ≡ true = ground (arith, h) in
    (fits, same_sound t (drop (length s - length t) s) ends)

ends_with-append : (s t : Text) → ends_with t (s ++ t) ≡ true
unfolding ends_with
ends_with-append s t =
    let size = length-append s t in
    let count : length (s ++ t) - length t ≡ length s = omega (arith, size) in
    let suffix : drop (length (s ++ t) - length t) (s ++ t) ≡ t =
      ap (λ n. drop n (s ++ t)) count ∙ drop-append s t in
    let found : same t (drop (length (s ++ t) - length t) (s ++ t)) ≡ true =
      ap (same t) suffix ∙ same_refl t in
    ground (arith, size, found)

-- Whether the two parts of a pattern match.
abbrev parts_match : Text → Text → Text → Bool
parts_match p s name =
    leb (length p + length s) (length name) && starts_with p name && ends_with s name

segment_matches-star :
    (p s name : Text) → Plain p → segment_matches (p ++ 42 ∷ s) name ≡ parts_match p s name
unfolding segment_matches
segment_matches-star p s name h =
    ap
      (λ o. elim o as (λ _. Bool) [
        | none ↦ same (p ++ 42 ∷ s) name
        | some parts ↦ parts_match parts.0 parts.1 name
      ])
      (split_star-append p s h)

parts_match_sound :
    (p s name : Text) → parts_match p s name ≡ true → (m : Text) × (name ≡ p ++ m ++ s)
parts_match_sound p s name h =
    let room : length p + length s ≤ length name = ground (arith, h) in
    let front = starts_with_sound p name (ground (arith, h)) in
    let back = ends_with_sound s name (ground (arith, h)) in
    let rest = drop (length p) name in
    let k = length name - length s - length p in
    let tail : drop k rest ≡ s =
      drop-drop k (length p) (length name - length s) name (omega (arith, room)) ∙ sym back.1 in
    (
      take k rest,
      front.1
          ∙ ap (λ r. p ++ r) (sym (take-drop k rest) ∙ ap (λ t. take k rest ++ t) tail)
          ∙ sym (append_assoc p (take k rest) s),
    )

parts_match_complete : (p m s : Text) → parts_match p s (p ++ m ++ s) ≡ true
parts_match_complete p m s =
    let front : starts_with p (p ++ m ++ s) ≡ true =
      ap (starts_with p) (append_assoc p m s) ∙ starts_with-append p (m ++ s) in
    ground (arith, length-append (p ++ m) s, length-append p m, front, ends_with-append (p ++ m) s)

-- A segment whose first star stands between `p` and `s` matches exactly the names that begin with `p` and
-- end with `s` without the two overlapping.
pub segment_matches_iff :
    (p s name : Text)
    → Plain p
    → (segment_matches (p ++ 42 ∷ s) name ≡ true) ↔ ((m : Text) × (name ≡ p ++ m ++ s))
segment_matches_iff p s name h = (
  λ e. parts_match_sound p s name (sym (segment_matches-star p s name h) ∙ e),
  λ (m, q). segment_matches-star p s name h ∙ ap (parts_match p s) q ∙ parts_match_complete p m s,
)
