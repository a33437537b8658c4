-- ===== src/Prelude/Text/Numbers.antt =====
-- Numbers printed and read back.
use Prim.Native.Nat.{ℕ, zero, suc, ◌+◌, ◌*◌, ◌/◌, ◌%◌, ◌^◌, ◌<◌}
use Prim.Native.Nat.pow.{suc as pow_suc}
use mathlib.Core.Path.{◌≡◌, refl, sym, ap, ◌∙◌, subst}
use mathlib.Core.Bool.{Bool, true, false}
use mathlib.Core.Option.{some}
use mathlib.Core.List.{[], ◌∷◌, ◌++◌, append_assoc, append-nil}
use native.Mathlib.Omega.{arith}
use lmkd_linux.Prelude.Tests.{ltb, if◌then◌else◌}
use lmkd_linux.Prelude.Lists.{All}
use lmkd_linux.Prelude.Text.{
  Text, is_digit, is_blank, u64_limit, digits_from, parse_u64, digits, show,
}

digits_from-digit :
    (limit acc d : ℕ) (cs : Text)
    → d < 10
    → acc * 10 + d < limit
    → digits_from limit acc ((48 + d) ∷ cs) ≡ digits_from limit (acc * 10 + d) cs
unfolding digits_from
digits_from-digit limit acc d cs small fits = ground arith

digits-read :
    (limit k n : ℕ) (cs : Text)
    → n < 10 ^ k
    → n < limit
    → digits_from limit 0 (digits k n ++ cs) ≡ digits_from limit n cs
unfolding digits
digits-read limit zero n cs small fits =
    let none_left : 0 ≡ n = omega (arith, small) in ap (λ m. digits_from limit m cs) none_left
digits-read limit (suc k) n cs small fits =
    by_size (ltb n 10) refl (λ rest. digits-read limit k (n / 10) rest)
  where
    tenth : (p : ℕ) → n < p * 10 → n / 10 < p
    tenth p h = omega (arith, h)

    by_size :
        (b : Bool)
        → b ≡ ltb n 10
        → ((rest : Text)
            → n / 10 < 10 ^ k
            → n / 10 < limit
            → digits_from limit 0 (digits k (n / 10) ++ rest) ≡ digits_from limit (n / 10) rest)
        → digits_from limit 0
            ((if b then (48 + n) ∷ [] else digits k (n / 10) ++ (48 + n % 10) ∷ []) ++ cs)
          ≡ digits_from limit n cs
    by_size true q ih =
        let whole : 0 * 10 + n ≡ n = omega arith in
        digits_from-digit limit 0 n cs (ground arith) (omega (arith, fits))
        ∙ ap (λ m. digits_from limit m cs) whole
    by_size false q ih =
        let shorter : n / 10 < 10 ^ k = tenth (10 ^ k) (subst (λ m. n < m) (pow_suc 10 k) small) in
        let whole : n / 10 * 10 + n % 10 ≡ n = omega arith in
        ap (digits_from limit 0) (append_assoc (digits k (n / 10)) ((48 + n % 10) ∷ []) cs)
        ∙ ih ((48 + n % 10) ∷ cs) shorter (omega (arith, fits))
        ∙ digits_from-digit limit (n / 10) (n % 10) cs (omega arith) (omega (arith, fits))
        ∙ ap (λ m. digits_from limit m cs) whole

-- A text of digits.
abbrev pub Digits : Text → Type 0
Digits s = All (λ c. is_digit c ≡ true) s

pub All-append : (P : ℕ → Type 0) (s t : Text) → All P s → All P t → All P (s ++ t)
All-append P [] t hs ht = ht
All-append P (c ∷ cs) t hs ht = (hs.0, All-append P cs t hs.1 ht)

digits-Digits : (k n : ℕ) → Digits (digits k n)
unfolding digits
digits-Digits zero n = _
digits-Digits (suc k) n = by_size (ltb n 10) refl (digits-Digits k (n / 10))
  where
    by_size :
        (b : Bool)
        → b ≡ ltb n 10
        → Digits (digits k (n / 10))
        → Digits (if b then (48 + n) ∷ [] else digits k (n / 10) ++ (48 + n % 10) ∷ [])
    by_size true q ih = (ground arith, _)
    by_size false q ih = All-append _ (digits k (n / 10)) ((48 + n % 10) ∷ []) ih (ground arith, _)

append-blank : (s : Text) (c : ℕ) → is_blank (s ++ c ∷ []) ≡ false
append-blank [] c = refl
append-blank (d ∷ s) c = refl

digits-blank : (k n : ℕ) → is_blank (digits (suc k) n) ≡ false
unfolding digits
digits-blank k n = by_size (ltb n 10)
  where
    by_size :
        (b : Bool)
        → is_blank (if b then (48 + n) ∷ [] else digits k (n / 10) ++ (48 + n % 10) ∷ []) ≡ false
    by_size true = refl
    by_size false = append-blank (digits k (n / 10)) (48 + n % 10)

-- A text of digits has no sign.
parse_u64-unsigned :
    (s : Text) → Digits s → is_blank s ≡ false → parse_u64 s ≡ digits_from u64_limit 0 s
unfolding parse_u64
parse_u64-unsigned [] h b = ground (arith, b)
parse_u64-unsigned (c ∷ []) h b = ground (arith, h.0)
parse_u64-unsigned (c ∷ d ∷ cs) h b = ground (arith, h.0)

pub show-Digits : (n : ℕ) → Digits (show n)
unfolding show
show-Digits n = digits-Digits 20 n

pub show-blank : (n : ℕ) → is_blank (show n) ≡ false
unfolding show
show-blank n = digits-blank 19 n

pub parse_u64-show : (n : ℕ) → n < u64_limit → parse_u64 (show n) ≡ some n
unfolding digits_from show
parse_u64-show n fits =
    parse_u64-unsigned (show n) (show-Digits n) (show-blank n)
    ∙ ap (digits_from u64_limit 0) (sym (append-nil (digits 20 n)))
    ∙ digits-read u64_limit 20 n [] (omega (arith, fits)) fits
