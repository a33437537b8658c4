-- ===== src/ZramHelper.antt =====
-- mgd-zram/src/reclaim.rs: the helper that switches each zram device off and on again. What the kernel
-- answers is an oracle over the calls so far; the texts that it prints are left out.
pub mod Guarded
pub mod Restored
use lmkd_linux.Prelude.{
  ℕ, ◌+◌, ◌/◌, ◌%◌, zero, suc, Bool, true, false, Option, none, some, List, [], ◌∷◌, drop, map, any,
  ltb, ◌==◌, unwrap_or, if◌then◌else◌, ◌>>=◌,
}
use lmkd_linux.Prelude.Int.{ℤ, pos, negsuc}
use lmkd_linux.Prelude.Text.{
  Text, text, strip_prefix, split_whitespace, lines, parse_i32, after_slash,
}
use lmkd_linux.Meminfo.Parse.{first_word, parse_kb}
use lmkd_linux.Zram.{is_zram_device_path, parse_orig_data_bytes, mib, sum_of}

pub record ZramSwap : Type 0 where
  pub path : Text
  pub priority : ℤ

-- The answers of `swapoff`: done, EPERM, or another error.
pub data SwapOff : Type 0 where
  done eperm busy : SwapOff

-- The calls: signals blocked, the mask restored, a device switched off, or on with flags.
pub data Call : Type 0 where
  block restore : Call
  off : Text → SwapOff → Call
  on : Text → ℕ → Bool → Call

pub record Kernel : Type 0 where
  pub proc_swaps : Option Text
  pub proc_meminfo : Option Text
  pub mm_stat : Text → Option Text
  pub swapoff : List Call → Text → SwapOff
  pub swapon : List Call → Text → ℕ → Bool

-- SWAP_FLAG_PREFER and the bits under SWAP_FLAG_PRIO_MASK.
unfoldable pub swapon_flags : ℤ → ℕ
swapon_flags (pos p) = 32768 + p % 32768
swapon_flags (negsuc p) = 0

-- The priority is the fifth column, -1 if it is absent or no number.
unfoldable pub swap_of : List Text → Option ZramSwap
swap_of [] = none
swap_of (path ∷ cols) =
    if is_zram_device_path path
    then some (record {
      path = path;
      priority = unwrap_or (first_word (drop 3 cols) >>= parse_i32) (negsuc 0);
    })
    else none

-- `filter_map`, for one line.
abbrev pub push_swap : Option ZramSwap → List ZramSwap → List ZramSwap
push_swap none devs = devs
push_swap (some dev) devs = dev ∷ devs

unfoldable pub swaps_of : List Text → List ZramSwap
swaps_of [] = []
swaps_of (l ∷ ls) = push_swap (swap_of (split_whitespace l)) (swaps_of ls)

unfoldable pub parse_zram_swaps : Text → List ZramSwap
parse_zram_swaps swaps = swaps_of (drop 1 (lines swaps))

unfoldable pub available_of : List Text → Option Text
available_of [] = none
available_of (l ∷ ls) = elim (strip_prefix (text "MemAvailable:") l) [
  | none ↦ available_of ls
  | some v ↦ some v
]

unfoldable pub read_mem_available_mb : Kernel → Option ℕ
read_mem_available_mb k = do
  content ← k.proc_meminfo
  v ← available_of (lines content)
  some (parse_kb v / 1024)

unfoldable pub orig_mb : Kernel → ZramSwap → Option ℕ
orig_mb k dev = do
  content ← k.mm_stat (after_slash dev.path)
  b ← parse_orig_data_bytes content
  some (b / mib)

pub data HeadroomCheck : Type 0 where
  safe unsafe unknown : HeadroomCheck

unfoldable pub is_headroom_safe : ℕ → ℕ → Bool
is_headroom_safe avail_mb decompressed_mb = ltb decompressed_mb avail_mb

unfoldable pub headroom_safe : Kernel → List ZramSwap → HeadroomCheck
headroom_safe k devices = elim (read_mem_available_mb k) [
  | none ↦ unknown
  | some avail_mb ↦
      if is_headroom_safe avail_mb (sum_of (map (orig_mb k) devices)) then safe else unsafe
]

pub data Outcome : Type 0 where
  reclaimed err_eperm err_other : Outcome

-- Up to the given number of tries of `swapon`: the calls, and whether one succeeded.
unfoldable pub try_swapon : Kernel → Text → ℕ → ℕ → List Call → List Call × Bool
try_swapon k path flags zero calls = (calls, false)
try_swapon k path flags (suc n) calls = elim (k.swapon calls path flags) [
  | true ↦ (on path flags true ∷ calls, true)
  | false ↦ try_swapon k path flags n (on path flags false ∷ calls)
]

-- The first try and three more.
unfoldable pub swap_back : Kernel → ZramSwap → List Call → List Call × Outcome
swap_back k dev calls =
    let (tried, success) = try_swapon k dev.path (swapon_flags dev.priority) 4 calls in
    (restore ∷ tried, if success then reclaimed else err_other)

-- After the answer of `swapoff`.
unfoldable pub after_off : Kernel → ZramSwap → SwapOff → List Call → List Call × Outcome
after_off k dev done calls = swap_back k dev (off dev.path done ∷ calls)
after_off k dev eperm calls = (restore ∷ off dev.path eperm ∷ calls, err_eperm)
after_off k dev busy calls = (restore ∷ off dev.path busy ∷ calls, err_other)

-- A path with a NUL is refused before any call.
unfoldable pub reclaim_one : Kernel → ZramSwap → List Call → List Call × Outcome
reclaim_one k dev calls =
    if any (λ c. c == 0) dev.path
    then (calls, err_other)
    else after_off k dev (k.swapoff (block ∷ calls) dev.path) (block ∷ calls)

-- The errors of a run: the transient ones and those for lack of the capability.
pub record Errors : Type 0 where
  pub transient : ℕ
  pub eperm : ℕ

unfoldable pub count : Outcome → Errors → Errors
count reclaimed e = e
count err_eperm e = record e { eperm = e.eperm + 1 }
count err_other e = record e { transient = e.transient + 1 }

unfoldable pub reclaim_each : Kernel → List ZramSwap → List Call → Errors → List Call × Errors
reclaim_each k [] calls e = (calls, e)
reclaim_each k (dev ∷ devs) calls e =
    let (after, outcome) = reclaim_one k dev calls in reclaim_each k devs after (count outcome e)

unfoldable pub exit_code : Errors → ℕ
exit_code e = if ltb 0 e.eperm then 2 else if ltb 0 e.transient then 1 else 0

unfoldable pub reclaim_all : Kernel → List ZramSwap → List Call × ℕ
reclaim_all k devices =
    let (calls, errors) = reclaim_each k devices [] (record { transient = 0; eperm = 0 }) in
    (calls, exit_code errors)

-- The calls of a run, the newest first, and its exit code, by the answer of the headroom check.
unfoldable pub run_checked : Kernel → List ZramSwap → HeadroomCheck → List Call × ℕ
run_checked k devices safe = reclaim_all k devices
run_checked k devices unsafe = ([], 3)
run_checked k devices unknown = ([], 4)

unfoldable pub run : Kernel → List ZramSwap → List Call × ℕ
run k [] = ([], 0)
run k (dev ∷ devs) = run_checked k (dev ∷ devs) (headroom_safe k (dev ∷ devs))

unfoldable pub main : Kernel → List Call × ℕ
main k = run k (parse_zram_swaps (unwrap_or k.proc_swaps []))
