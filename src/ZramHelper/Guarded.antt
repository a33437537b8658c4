-- ===== src/ZramHelper/Guarded.antt =====
-- mgd-zram/src/reclaim.rs: what a run switches, and when.
use lmkd_linux.Prelude.{
  ℕ, ◌<◌, ◌≡◌, ◌⊎◌, refl, zero, suc, Bool, true, false, Option, none, some, List, [], ◌∷◌, inl, inr,
  map, any, ltb, ◌==◌, unwrap_or, All, arith, if◌then◌else◌, drop, ◌>>=◌,
}
use lmkd_linux.Prelude.Int.{negsuc}
use lmkd_linux.Meminfo.Parse.{first_word}
use lmkd_linux.Prelude.Text.{Text, split_whitespace, lines, parse_i32}
use lmkd_linux.Zram.{is_zram_device_path, sum_of}
use lmkd_linux.ZramHelper.{
  ZramSwap, SwapOff, done, eperm, busy, Call, block, restore, off, on, Kernel, swapon_flags,
  swap_of, swaps_of, push_swap, run, run_checked, parse_zram_swaps, orig_mb, read_mem_available_mb,
  headroom_safe, is_headroom_safe, HeadroomCheck, safe, unsafe, unknown, Outcome, err_other,
  try_swapon, swap_back, after_off, reclaim_one, Errors, count, reclaim_each, reclaim_all, main,
}

unfoldable pub is_blocked : List Call → Bool
is_blocked [] = false
is_blocked (block ∷ cs) = true
is_blocked (restore ∷ cs) = false
is_blocked (off p r ∷ cs) = is_blocked cs
is_blocked (on p flags r ∷ cs) = is_blocked cs

-- Only zram devices are switched, and only with the signals blocked.
abbrev pub IsGuarded : List Call → Type 0
IsGuarded [] = Unit
IsGuarded (block ∷ cs) = (is_blocked cs ≡ false) × IsGuarded cs
IsGuarded (restore ∷ cs) = (is_blocked cs ≡ true) × IsGuarded cs
IsGuarded (off p r ∷ cs) = (is_blocked cs ≡ true) × (is_zram_device_path p ≡ true) × IsGuarded cs
IsGuarded (on p flags r ∷ cs) =
    (is_blocked cs ≡ true) × (is_zram_device_path p ≡ true) × IsGuarded cs

-- Between two devices.
abbrev IsIdle : List Call → Type 0
IsIdle calls = (is_blocked calls ≡ false) × IsGuarded calls

abbrev IsZram : ZramSwap → Type 0
IsZram dev = is_zram_device_path dev.path ≡ true

module _ (k : Kernel) where
  try_swapon-IsGuarded :
      (p : Text) (flags n : ℕ) (calls : List Call)
      → is_zram_device_path p ≡ true
      → is_blocked calls ≡ true
      → IsGuarded calls
      → let tried = (try_swapon k p flags n calls).0 in (is_blocked tried ≡ true) × IsGuarded tried
  unfolding try_swapon is_blocked
  try_swapon-IsGuarded p flags zero calls z b g = (b, g)
  try_swapon-IsGuarded p flags (suc n) calls z b g =
      by_answer (k.swapon calls p flags)
        (try_swapon-IsGuarded p flags n (on p flags false ∷ calls) z b (b, z, g))
    where
      again : List Call × Bool
      again = try_swapon k p flags n (on p flags false ∷ calls)

      by_answer :
          (r : Bool)
          → (is_blocked again.0 ≡ true) × IsGuarded again.0
          → let tried =
              (elim r as (λ _. List Call × Bool) [
                | true ↦ (on p flags true ∷ calls, true)
                | false ↦ again
              ]).0 in
            (is_blocked tried ≡ true) × IsGuarded tried
      by_answer true ih = (b, (b, z, g))
      by_answer false ih = ih

  after_off-IsIdle :
      (dev : ZramSwap) (r : SwapOff) (calls : List Call)
      → IsZram dev
      → is_blocked calls ≡ true
      → IsGuarded calls
      → IsIdle (after_off k dev r calls).0
  unfolding after_off swap_back is_blocked
  after_off-IsIdle dev done calls z b g =
      let tried =
        try_swapon-IsGuarded dev.path (swapon_flags dev.priority) 4 (off dev.path done ∷ calls) z b
          (b, z, g) in
      (refl, tried)
  after_off-IsIdle dev eperm calls z b g = (refl, (b, (b, z, g)))
  after_off-IsIdle dev busy calls z b g = (refl, (b, (b, z, g)))

  reclaim_one-IsIdle :
      (dev : ZramSwap) (calls : List Call)
      → IsZram dev
      → IsIdle calls
      → IsIdle (reclaim_one k dev calls).0
  unfolding reclaim_one is_blocked
  reclaim_one-IsIdle dev calls z h = by_path (any (λ c. c == 0) dev.path)
    where
      answered : List Call × Outcome
      answered = after_off k dev (k.swapoff (block ∷ calls) dev.path) (block ∷ calls)

      by_path : (b : Bool) → IsIdle (if b then (calls, err_other) else answered).0
      by_path true = h
      by_path false =
          after_off-IsIdle dev (k.swapoff (block ∷ calls) dev.path) (block ∷ calls) z refl h

  reclaim_each-IsIdle :
      (devs : List ZramSwap) (calls : List Call) (e : Errors)
      → All IsZram devs
      → IsIdle calls
      → IsIdle (reclaim_each k devs calls e).0
  unfolding reclaim_each
  reclaim_each-IsIdle [] calls e z h = h
  reclaim_each-IsIdle (dev ∷ devs) calls e z h =
      let turn = reclaim_one k dev calls in
      reclaim_each-IsIdle devs turn.0 (count turn.1 e) z.1 (reclaim_one-IsIdle dev calls z.0 h)

-- What is parsed of one line is a zram device.
swap_of-IsZram : (ws : List Text) → All IsZram (push_swap (swap_of ws) [])
unfolding swap_of
swap_of-IsZram [] = _
swap_of-IsZram (path ∷ cols) = by_path (is_zram_device_path path) refl
  where
    dev : ZramSwap
    dev = record {
      path = path;
      priority = unwrap_or (first_word (drop 3 cols) >>= parse_i32) (negsuc 0);
    }

    by_path :
        (b : Bool)
        → is_zram_device_path path ≡ b
        → All IsZram (push_swap (if b then some dev else none) [])
    by_path true z = (z, _)
    by_path false z = _

swaps_of-IsZram : (ls : List Text) → All IsZram (swaps_of ls)
unfolding swaps_of
swaps_of-IsZram [] = _
swaps_of-IsZram (l ∷ ls) =
    by_line (swap_of (split_whitespace l)) (swap_of-IsZram (split_whitespace l))
      (swaps_of-IsZram ls)
  where
    by_line :
        (o : Option ZramSwap)
        → All IsZram (push_swap o [])
        → All IsZram (swaps_of ls)
        → All IsZram (push_swap o (swaps_of ls))
    by_line none z zs = zs
    by_line (some dev) z zs = (z.0, zs)

headroom-room :
    (k : Kernel) (devices : List ZramSwap)
    → headroom_safe k devices ≡ safe
    → sum_of (map (orig_mb k) devices) < unwrap_or (read_mem_available_mb k) 0
unfolding headroom_safe is_headroom_safe
headroom-room k devices h = by_memory (read_mem_available_mb k) h
  where
    sum : ℕ
    sum = sum_of (map (orig_mb k) devices)

    by_memory :
        (o : Option ℕ)
        → elim o as (λ _. HeadroomCheck) [
          | none ↦ unknown
          | some avail_mb ↦ if ltb sum avail_mb then safe else unsafe
        ]
          ≡ safe
        → sum < unwrap_or o 0
    by_memory none h = ground (arith, h)
    by_memory (some a) h = ground (arith, h)

abbrev IsSafe : Kernel → List ZramSwap → List Call → Type 0
IsSafe k devices calls =
    (is_blocked calls ≡ false)
    × IsGuarded calls
    × ((calls ≡ []) ⊎ (sum_of (map (orig_mb k) devices) < unwrap_or (read_mem_available_mb k) 0))

run_checked-IsSafe :
    (k : Kernel) (devices : List ZramSwap) (c : HeadroomCheck)
    → All IsZram devices
    → headroom_safe k devices ≡ c
    → IsSafe k devices (run_checked k devices c).0
unfolding run_checked reclaim_all is_blocked
run_checked-IsSafe k devices safe z h =
    let calls =
      reclaim_each-IsIdle k devices [] (record { transient = 0; eperm = 0 }) z (refl, _) in
    (calls.0, calls.1, inr (headroom-room k devices h))
run_checked-IsSafe k devices unsafe z h = (refl, _, inl refl)
run_checked-IsSafe k devices unknown z h = (refl, _, inl refl)

run-IsSafe :
    (k : Kernel) (devices : List ZramSwap) → All IsZram devices → IsSafe k devices (run k devices).0
unfolding run is_blocked
run-IsSafe k [] z = (refl, _, inl refl)
run-IsSafe k (dev ∷ devs) z =
    run_checked-IsSafe k (dev ∷ devs) (headroom_safe k (dev ∷ devs)) z refl

-- A run switches only zram devices, each call with the signals blocked, and ends with them unblocked; it
-- makes no call at all unless the available memory, in whole MB, is more than the sum of the decompressed
-- sizes of the devices, each in whole MB, where a device whose mm_stat cannot be read counts as 0.
pub main-IsSafe : (k : Kernel) → IsSafe k (parse_zram_swaps (unwrap_or k.proc_swaps [])) (main k).0
unfolding main parse_zram_swaps
main-IsSafe k =
    let text = unwrap_or k.proc_swaps [] in
    run-IsSafe k (parse_zram_swaps text) (swaps_of-IsZram (drop 1 (lines text)))
