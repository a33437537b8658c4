-- ===== src/Recovery.antt =====
-- mgd/src/recovery.rs and mgd/src/engine/health.rs: release of frozen processes and restore of dumped
-- ones once the pressure is normal. The moving average is kept in millionths of a KB, rounded down.
pub mod Release
pub mod Restore
use lmkd_linux.Prelude.{
  ℕ, ◌+◌, ◌-◌, ◌*◌, ◌/◌, min, String, Bool, true, false, not, Option, none, some, List, [], ◌∷◌,
  ltb, leb, ◌==◌, if◌then◌else◌,
}
use lmkd_linux.Types.{Pid, Kb, saturating_mul, u32_max}
use lmkd_linux.Meminfo.{MemInfo}
use lmkd_linux.Psi.{MemoryPressure, PsiThresholds, pressure_level_with, rank}
use lmkd_linux.Registry.Frozen
use lmkd_linux.Registry.Frozen.{FrozenRegistry}
use lmkd_linux.Registry.Checkpointed
use lmkd_linux.Registry.Checkpointed.{CheckpointRegistry, CheckpointEntry}
use lmkd_linux.Execute.{OpResult, success, fail}
use lmkd_linux.Signals.{unfreeze_checked}

abbrev pub max_restore_attempts : ℕ
max_restore_attempts = 3

abbrev pub min_freeze_age_secs : ℕ
min_freeze_age_secs = 15

abbrev pub max_unfreeze_per_cycle : ℕ
max_unfreeze_per_cycle = 4

pub record HealthBaseline : Type 0 where
  pub avg_available_kb : ℕ
  pub samples : ℕ

abbrev pub millionths : ℕ
millionths = 1000000

unfoldable pub fresh : HealthBaseline
fresh = record { avg_available_kb = 0; samples = 0 }

unfoldable pub observe : Kb → HealthBaseline → HealthBaseline
observe available b = record {
  avg_available_kb =
      if b.samples == 0
      then available * millionths
      else (5 * (available * millionths) + 95 * b.avg_available_kb) / 100;
  samples = min (b.samples + 1) u32_max;
}

-- `total.0 * 10` is below 2 ^ 64 for any size of memory that a machine has.
unfoldable pub safe_to_restore : HealthBaseline → Kb → Kb → Kb → Bool
safe_to_restore b available total process_rss =
    let remaining = available - process_rss in
    if ltb b.samples 10
    then ltb (total * 10 / 100) remaining
    else ltb (b.avg_available_kb * 85) (remaining * millionths * 100)

-- What the system answers in one pass. Each pid is asked about once.
pub record System : Type 0 where
  pub start_of : Pid → Option ℕ
  pub delivered : Pid → Bool
  -- `checkpoint::restore` on a snapshot directory
  pub restored : String → Bool

unfoldable pub resume : System → Pid → ℕ → OpResult
resume sys pid expected = (unfreeze_checked (sys.start_of pid) (sys.delivered pid) pid expected).0

-- The loop of `unfreeze_pass`, with the count so far: the registry after it and the pids released.
unfoldable pub unfreeze_loop :
    System → Bool → ℕ → ℕ → List Pid → FrozenRegistry → FrozenRegistry × List Pid
unfreeze_loop sys safe now n [] reg = (reg, [])
unfreeze_loop sys safe now n (pid ∷ pids) reg = elim (leb max_unfreeze_per_cycle n) [
  | true ↦ (reg, [])
  | false ↦ elim safe [
    | false ↦ (reg, [])
    | true ↦ elim (ltb (now - Frozen.frozen_at pid reg) min_freeze_age_secs) [
      | true ↦ unfreeze_loop sys safe now n pids reg
      | false ↦ elim (resume sys pid (Frozen.start_time pid reg)) [
        | success ↦
            let (after, released) =
              unfreeze_loop sys safe now (n + 1) pids (Frozen.delete pid reg) in
            (after, pid ∷ released)
        | fail _ ↦ unfreeze_loop sys safe now n pids reg
      ]
    ]
  ]
]

unfoldable pub unfreeze_pass :
    System → HealthBaseline → MemInfo → ℕ → FrozenRegistry → FrozenRegistry × List Pid
unfreeze_pass sys b m now reg =
    unfreeze_loop sys (safe_to_restore b m.available_kb m.total_kb 0) now 0 (Frozen.frozen_pids reg)
      reg

-- What `restore_pass` did.
pub data Restored : Type 0 where
  nothing_to_restore : Restored
  abandoned restored failed tight : Pid → Restored

restore_head :
    System
    → HealthBaseline
    → MemInfo
    → Pid × CheckpointEntry
    → CheckpointRegistry
    → CheckpointRegistry × Restored
restore_head sys b m (pid, e) reg =
    if leb max_restore_attempts e.attempts
    then (Checkpointed.delete pid reg, abandoned pid)
    else if safe_to_restore b m.available_kb m.total_kb e.rss
    then (if sys.restored e.snapshot_dir
        then (Checkpointed.delete pid reg, restored pid)
        else (Checkpointed.increment_attempts pid reg, failed pid))
    else (reg, tight pid)

unfoldable pub restore_pass :
    System → HealthBaseline → MemInfo → CheckpointRegistry → CheckpointRegistry × Restored
unfolding restore_head
restore_pass sys b m reg = elim (Checkpointed.entries_lightest_first reg) [
  | [] ↦ (reg, nothing_to_restore)
  | e ∷ _ ↦ restore_head sys b m e reg
]

pub record Recovery : Type 0 where
  pub frozen : FrozenRegistry
  pub checkpointed : CheckpointRegistry
  pub baseline : HealthBaseline

-- One turn of `run` with a readable pressure: `m` and `m'` are the two readings of the memory.
unfoldable pub cycle :
    System → PsiThresholds → MemoryPressure → MemInfo → MemInfo → ℕ → Recovery → Recovery
cycle sys t p m m' now r =
    let b = observe m.available_kb r.baseline in
    if rank (pressure_level_with p t) == 0
    then record {
      frozen = (unfreeze_pass sys b m now r.frozen).0;
      checkpointed = (restore_pass sys b m' r.checkpointed).0;
      baseline = b;
    }
    else r
