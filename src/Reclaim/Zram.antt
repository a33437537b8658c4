-- ===== src/Reclaim/Zram.antt =====
-- mgd/src/evictor/compact_zram.rs: zram devices are compacted once the pressure is elevated. What sysfs
-- answers is a parameter.
use lmkd_linux.Prelude.{
  ℕ, ◌-◌, String, Bool, true, false, not, Option, none, some, List, [], ◌∷◌, ltb, unwrap_or,
  if◌then◌else◌,
}
use lmkd_linux.Psi.{PressureLevel, elevated, below}
use lmkd_linux.Config.{CompiledConfig}
use lmkd_linux.Reclaim.{ErrorKind, permission_denied, would_block, not_found, other_error}

-- The used memory of a device before and after, and the result of the compaction.
pub record Sysfs : Type 0 where
  pub zram_devices : List String
  pub used_before : String → Option ℕ
  pub used_after : String → Option ℕ
  pub compact : String → Option ErrorKind
  pub unix_now : ℕ

-- An attempt with the figure that let it pass, what it gained and whether it succeeded.
pub record Compaction : Type 0 where
  pub device : String
  pub before_mb : ℕ
  pub reclaimed_mb : ℕ
  pub outcome : Option ErrorKind

-- `ZRAM_COMPACT_DISABLED`, `LAST_ZRAM_COMPACT`, and the attempts, the newest first.
pub record ZramState : Type 0 where
  pub disabled : Bool
  pub last_zram_compact : ℕ
  pub attempts : List Compaction

unfoldable pub attempted : Sysfs → String → ℕ → ℕ → ZramState → ZramState
attempted fs device before gained s = record s {
  attempts =
      record {
        device = device;
        before_mb = before;
        reclaimed_mb = gained;
        outcome = fs.compact device;
      }
      ∷ s.attempts;
}

-- The state after a compaction, and whether the function returns.
unfoldable pub compacted : Sysfs → String → ℕ → Option ErrorKind → ZramState → ZramState × Bool
compacted fs device before none s =
    let gained = before - unwrap_or (fs.used_after device) before in
    (record (attempted fs device before gained s) { last_zram_compact = fs.unix_now }, false)
compacted fs device before (some permission_denied) s =
    (record (attempted fs device before 0 s) { disabled = true }, true)
compacted fs device before (some would_block) s = (attempted fs device before 0 s, false)
compacted fs device before (some not_found) s = (attempted fs device before 0 s, false)
compacted fs device before (some other_error) s = (attempted fs device before 0 s, false)

-- The turn for one device.
unfoldable pub device_step : Sysfs → ℕ → String → ZramState → ZramState × Bool
device_step fs min_used_mb device s = elim (fs.used_before device) [
  | none ↦ (s, false)
  | some before ↦
      if ltb before min_used_mb
      then (s, false)
      else compacted fs device before (fs.compact device) s
]

unfoldable pub compact_each : Sysfs → ℕ → List String → ZramState → ZramState
compact_each fs min_used_mb [] s = s
compact_each fs min_used_mb (device ∷ devices) s =
    let (next, returns) = device_step fs min_used_mb device s in
    let rest = compact_each fs min_used_mb devices next in if returns then next else rest

unfoldable pub compact_zram : Sysfs → PressureLevel → CompiledConfig → ZramState → ZramState
compact_zram fs level cfg s =
    if below level elevated
    then s
    else if s.disabled
    then s
    else if not cfg.compact_zram_on_elevated
    then s
    else compact_each fs cfg.zram_min_used_mb fs.zram_devices s
