-- ===== src/Tests/Reclaim.antt =====
-- Examples for the reclaim cycles of the evictor.
use mathlib.Core.List.{Perm}
use lmkd_linux.Prelude.{
  ℕ, ◌≤◌, ◌-◌, ◌+◌, ◌≡◌, ◌⊎◌, refl, String, true, false, none, some, List, [], ◌∷◌, ◌++◌, map, keep,
  length, All, nat_eq, string_eq, if◌then◌else◌, arith,
}
use lmkd_linux.Prelude.Maps.{lookup, insert, remove}
use lmkd_linux.Types.{Pid}
use lmkd_linux.Meminfo.{MemInfo}
use lmkd_linux.Process.{Process}
use lmkd_linux.Psi.{elevated}
use lmkd_linux.Config.{CompiledConfig}
use lmkd_linux.Registry.Frozen
use lmkd_linux.Signals.{freeze_checked, send_signal}
use lmkd_linux.Reclaim.{Cgroups, permission_denied}
use lmkd_linux.Reclaim.Early.{EarlyState, is_target, check_early_process_reclaim}
use lmkd_linux.Reclaim.Caches.{CacheDropResult, CacheState}
use lmkd_linux.Reclaim.Zram.{Sysfs, ZramState, compact_zram}
use lmkd_linux.Reclaim.Idle
use lmkd_linux.Reclaim.Idle.{IdleState, idle_config, freeze_idle, check_idle_process_reclaim}
use lmkd_linux.Reclaim.Idle.Timers.{Sound, gap, Distinct}
use lmkd_linux.Reclaim.Idle.Spacing.{check_idle_process_reclaim-Sound}
use lmkd_linux.Reclaim.Idle.Frozen.{IsIdle, freeze_idle-IsIdle}
use lmkd_linux.Reclaim.Cooldowns.{Added, check_early_process_reclaim_cases}
use lmkd_linux.Reclaim.Denied.{IsGated, compact_zram-IsGated}
use lmkd_linux.Tests.Fixtures.{config, process}

abbrev pub leaves : Cgroups
leaves = record {
  has_child_dir = λ path. some false;
  has_reclaim_file = λ path. true;
  write_reclaim = λ log path size. none;
}

-- Two caches dropped an hour ago.
abbrev dropped : CacheState
dropped = record { last_cache_drop = 100000; walks = (100000, []) ∷ []; logged = [] }

abbrev dropping : CompiledConfig
dropping = record config { cache_drop_paths = "/var/cache" ∷ [] }

abbrev walk : List String → List CacheDropResult
walk paths = record { pattern = "/var/cache"; files_advised = 12; bytes_advised = 4096 } ∷ []

-- The second device may not be compacted.
abbrev sysfs : Sysfs
sysfs = record {
  zram_devices = "zram0" ∷ "zram1" ∷ "zram2" ∷ [];
  used_before = λ device. some 900;
  used_after = λ device. some 700;
  compact = λ device. if string_eq.beq device "zram1" then some permission_denied else none;
  unix_now = 103600;
}

abbrev untried : ZramState
untried = record { disabled = false; last_zram_compact = 0; attempts = [] }

compact_zram-IsGated_example :
    IsGated config.zram_min_used_mb (compact_zram sysfs elevated config untried)
compact_zram-IsGated_example = compact_zram-IsGated sysfs elevated config untried (refl, tt)

-- The indexer has been in the background since second 100.
abbrev pub system : Idle.System
system = record {
  cgroups = leaves;
  now = 900000000000;
  unix_now = 103600;
  read_start_time = λ pid. some 7;
  checked_start_time = λ pid. some 7;
  registered_start_time = λ pid. some 7;
  stop_delivered = λ pid. true;
}

abbrev pub idle : IdleState
idle = record {
  pid_tracker = (30, 100000000000) ∷ [];
  freeze_pid_tracker = (30, 100000000000) ∷ [];
  last_idle_reclaim = 102800;
  frozen = Frozen.new;
  writes = ("indexer", 104857600) ∷ [];
  reclaims = (30, 100000000000) ∷ [];
  signals = [];
}

abbrev pub memory : MemInfo
memory = record {
  available_kb = 6291456;
  total_kb = 16777216;
  swap_free_kb = 3145728;
  swap_total_kb = 4194304;
}

abbrev pub listed : List Process
listed = process 30 "indexer" 200000 ∷ process 40 "editor" 300000 ∷ []

pub listed-Distinct : Distinct (map (λ p. p.pid) listed)
listed-Distinct = (((λ e. ground (arith, e)), tt), (tt, tt))

pub idle-Sound : Sound (gap (idle_config config)) 100000000000 idle
unfolding lookup
idle-Sound = ((omega arith, tt), (λ pid u h. ((λ e. ground (arith, h)), tt)), (tt, tt))

check_idle_process_reclaim-Sound_example :
    Sound
      (gap (idle_config config))
      900000000000
      (check_idle_process_reclaim system config memory listed (some 40) idle)
check_idle_process_reclaim-Sound_example =
    check_idle_process_reclaim-Sound system config memory listed (some 40) 100000000000 idle
      listed-Distinct (omega arith) idle-Sound

abbrev freezing : CompiledConfig
freezing = record config { idle_reclaim_freeze_after_sec = some 600 }

freeze_idle-IsIdle_example :
    (Frozen.count (freeze_idle system freezing (some 40) listed idle).frozen
      ≤ Frozen.count idle.frozen + 2)
    × ((pid : Pid)
        → Frozen.is_frozen pid (freeze_idle system freezing (some 40) listed idle).frozen ≡ true
        → (Frozen.is_frozen pid idle.frozen ≡ true)
          ⊎ ((secs : ℕ) × (freezing.idle_reclaim_freeze_after_sec ≡ some secs)
              × IsIdle 900000000000 freezing (some 40) secs idle pid listed))
freeze_idle-IsIdle_example = freeze_idle-IsIdle system freezing (some 40) listed idle

-- It does freeze the indexer.
indexer_frozen :
    Frozen.is_frozen 30 (freeze_idle system freezing (some 40) listed idle).frozen ≡ true
unfolding freeze_idle Idle.freeze_each Idle.freeze_turn Idle.stop_process Idle.register
    Frozen.is_frozen Frozen.add Frozen.new lookup insert remove freeze_checked send_signal
indexer_frozen = refl

abbrev never : EarlyState
never = record { last_early_reclaim = 0; writes = [] }

check_early_process_reclaim_cases_example :
    let after = check_early_process_reclaim leaves elevated listed (some 40) 103600 config never in
    (after ≡ never)
    ⊎ ((chosen others : List Process) × (elevated ≡ elevated)
        × ((never.last_early_reclaim ≡ 0) ⊎ (30 ≤ 103600 - never.last_early_reclaim))
        × (after.last_early_reclaim ≡ 103600)
        × Perm (chosen ++ others) (keep (is_target config (some 40)) listed)
        × (length chosen ≤ 3)
        × All (λ c. All (λ r. r.rss_kb ≤ c.rss_kb) others) chosen
        × Added leaves chosen never.writes after.writes)
check_early_process_reclaim_cases_example =
    check_early_process_reclaim_cases config (some 40) listed leaves elevated 103600 never
