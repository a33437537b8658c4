-- ===== src/Types.antt =====
-- mgd-common/src/types.rs: the unit newtypes. A `u64` is a number below 2 ^ 64.
use lmkd_linux.Prelude.{ℕ, ◌+◌, ◌-◌, ◌*◌, ◌/◌, ◌^◌, ◌≤◌, min, List, [], ◌∷◌, arith, ◌≡◌}

-- A `Pid` and a `Kb` are the numbers that they wrap.
abbrev pub Pid : Type 0
Pid = ℕ

abbrev pub Kb : Type 0
Kb = ℕ

abbrev pub u64_max : ℕ
u64_max = 2 ^ 64 - 1

abbrev pub u32_max : ℕ
u32_max = 2 ^ 32 - 1

-- `u64::saturating_add` and `saturating_mul`; `saturating_sub` is `-` on ℕ.
abbrev pub saturating_add : ℕ → ℕ → ℕ
saturating_add a b = min (a + b) u64_max

abbrev pub saturating_mul : ℕ → ℕ → ℕ
saturating_mul a b = min (a * b) u64_max

unfoldable pub bytes : Kb → ℕ
bytes k = saturating_mul k 1024

unfoldable pub percent_of : Kb → ℕ → Kb
percent_of k pct = saturating_mul k pct / 100

-- `impl Add for Kb` and `impl Sum for Kb`, a left fold from 0.
unfoldable pub kb_add : Kb → Kb → Kb
kb_add a b = saturating_add a b

kb_fold : Kb → List Kb → Kb
unfolding kb_add
kb_fold acc [] = acc
kb_fold acc (x ∷ xs) = kb_fold (kb_add acc x) xs

unfoldable pub kb_sum : List Kb → Kb
unfolding kb_fold
kb_sum xs = kb_fold 0 xs

abbrev pub total : List Kb → ℕ
total [] = 0
total (x ∷ xs) = x + total xs

kb_fold-min :
    (acc : Kb) (xs : List Kb) → acc ≤ u64_max → kb_fold acc xs ≡ min (acc + total xs) u64_max
unfolding kb_fold
kb_fold-min acc [] h = omega arith
kb_fold-min acc (x ∷ xs) h = omega (arith, kb_fold-min (saturating_add acc x) xs)

-- The saturating sum is the true sum, cut at the largest `u64`, for every list.
pub kb_sum-min : (xs : List Kb) → kb_sum xs ≡ min (total xs) u64_max
unfolding kb_sum
kb_sum-min xs = omega (arith, kb_fold-min 0 xs)
