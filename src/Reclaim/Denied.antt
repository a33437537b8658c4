-- ===== src/Reclaim/Denied.antt =====
-- mgd/src/evictor/compact_zram.rs: which devices are compacted, and that a denial is the last attempt.
use lmkd_linux.Prelude.{
  ℕ, ◌≤◌, ◌≡◌, refl, String, Bool, true, false, Option, none, some, List, [], not, unwrap_or, sym,
  ◌∷◌, any, arith, if◌then◌else◌,
}
use lmkd_linux.Psi.{PressureLevel, elevated, below}
use lmkd_linux.Config.{CompiledConfig}
use lmkd_linux.Reclaim.{ErrorKind, permission_denied, would_block, not_found, other_error}
use lmkd_linux.Reclaim.Zram.{
  Sysfs, Compaction, ZramState, attempted, compacted, device_step, compact_each, compact_zram,
}

unfoldable pub is_denied : Option ErrorKind → Bool
is_denied none = false
is_denied (some permission_denied) = true
is_denied (some would_block) = false
is_denied (some not_found) = false
is_denied (some other_error) = false

-- Every attempt met the minimum, gained no more than was used, and followed no denial.
abbrev pub Proper : ℕ → List Compaction → Type 0
Proper min_mb [] = Unit
Proper min_mb (c ∷ cs) =
    (min_mb ≤ c.before_mb)
    × (c.reclaimed_mb ≤ c.before_mb)
    × (any (λ d. is_denied d.outcome) cs ≡ false)
    × Proper min_mb cs

abbrev pub IsGated : ℕ → ZramState → Type 0
IsGated min_mb s =
    (s.disabled ≡ any (λ d. is_denied d.outcome) s.attempts) × Proper min_mb s.attempts

-- A step keeps the record, and returns early exactly when it has disabled the compaction.
compacted-IsGated :
    (fs : Sysfs) (device : String) (before min_mb : ℕ) (o : Option ErrorKind) (s : ZramState)
    → fs.compact device ≡ o
    → min_mb ≤ before
    → s.disabled ≡ false
    → IsGated min_mb s
    → IsGated min_mb (compacted fs device before o s).0
      × ((compacted fs device before o s).1 ≡ (compacted fs device before o s).0.disabled)
unfolding compacted attempted is_denied
compacted-IsGated fs device before min_mb none s q le off h = ground arith
compacted-IsGated fs device before min_mb (some permission_denied) s q le off h = ground arith
compacted-IsGated fs device before min_mb (some would_block) s q le off h = ground arith
compacted-IsGated fs device before min_mb (some not_found) s q le off h = ground arith
compacted-IsGated fs device before min_mb (some other_error) s q le off h = ground arith

device_step-IsGated :
    (fs : Sysfs) (min_mb : ℕ) (device : String) (s : ZramState)
    → s.disabled ≡ false
    → IsGated min_mb s
    → let step = device_step fs min_mb device s in
      IsGated min_mb step.0 × (step.1 ≡ step.0.disabled)
unfolding device_step
device_step-IsGated fs min_mb device s off h = ground (
  arith,
  compacted-IsGated fs device (unwrap_or (fs.used_before device) 0) min_mb (fs.compact device) s,
)

compact_each-IsGated :
    (fs : Sysfs) (min_mb : ℕ) (devices : List String) (s : ZramState)
    → s.disabled ≡ false
    → IsGated min_mb s
    → IsGated min_mb (compact_each fs min_mb devices s)
unfolding compact_each
compact_each-IsGated fs min_mb [] s off h = h
compact_each-IsGated fs min_mb (device ∷ devices) s off h =
    by_return step.1 (device_step-IsGated fs min_mb device s off h)
      (compact_each-IsGated fs min_mb devices step.0)
  where
    step : ZramState × Bool
    step = device_step fs min_mb device s

    by_return :
        (returns : Bool)
        → IsGated min_mb step.0 × (returns ≡ step.0.disabled)
        → (step.0.disabled ≡ false
            → IsGated min_mb step.0
            → IsGated min_mb (compact_each fs min_mb devices step.0))
        → IsGated min_mb (if returns then step.0 else compact_each fs min_mb devices step.0)
    by_return true k ih = k.0
    by_return false k ih = ih (sym k.1) k.0

-- Over any sequence of calls with the same minimum, only devices that use at least the minimum are
-- compacted, the gain is never more than what was used, and after a denial nothing is tried again.
pub compact_zram-IsGated :
    (fs : Sysfs) (level : PressureLevel) (cfg : CompiledConfig) (s : ZramState)
    → IsGated cfg.zram_min_used_mb s
    → IsGated cfg.zram_min_used_mb (compact_zram fs level cfg s)
unfolding compact_zram
compact_zram-IsGated fs level cfg s h =
    by_tests (below level elevated) s.disabled (not cfg.compact_zram_on_elevated)
      (compact_each-IsGated fs cfg.zram_min_used_mb fs.zram_devices s)
  where
    run : ZramState
    run = compact_each fs cfg.zram_min_used_mb fs.zram_devices s

    by_tests :
        (low off unwanted : Bool)
        → (off ≡ false → IsGated cfg.zram_min_used_mb s → IsGated cfg.zram_min_used_mb run)
        → IsGated cfg.zram_min_used_mb
            (if low then s else if off then s else if unwanted then s else run)
    by_tests true off unwanted f = h
    by_tests false true unwanted f = h
    by_tests false false true f = h
    by_tests false false false f = f refl h
