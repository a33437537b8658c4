-- ===== src/Evictor/CalmTick.antt =====
-- mgd/src/evictor/idle_reclaim.rs: what the evictor does when no pressure event came before the timeout.
pub mod Paced
use lmkd_linux.Prelude.{
  ◌≤◌, ◌≢◌, arith, Bool, true, false, not, List, [], ◌∷◌, map, any, keep, All, nat_beq, ltb,
  if◌then◌else◌,
}
use lmkd_linux.Types.{Pid}
use lmkd_linux.Time.{Instant, duration_since, as_secs}
use lmkd_linux.Meminfo.{MemInfo}
use lmkd_linux.Process.{Process}
use lmkd_linux.Config.{CompiledConfig}
use lmkd_linux.Evictor.{excluded_pids}
use lmkd_linux.Evictor.SpikeCycle
use lmkd_linux.Evictor.SpikeCycle.{CycleState, run_spike_cycle}
use lmkd_linux.Evictor.SpikeCycle.Owed.{Kept}
use lmkd_linux.Evictor.SpikeCycle.Whole.{run_spike_cycle-Kept}
use lmkd_linux.Reclaim.Idle
use lmkd_linux.Reclaim.Idle.{IdleState, idle_config, check_idle_process_reclaim}
use lmkd_linux.Reclaim.Idle.Timers.{Sound, gap, Distinct}
use lmkd_linux.Reclaim.Idle.Spacing.{later-Sound, check_idle_process_reclaim-Sound}

-- The state of the spike cycle, that of the idle reclaim, and `last_idle_reclaim_check`. The registry of
-- frozen processes is that of the idle reclaim.
pub record TickState : Type 0 where
  pub cycle : CycleState
  pub idle : IdleState
  pub last_check : Instant

-- `mem` is read at the start, `later_mem` by the idle reclaim.
pub record Tick : Type 0 where
  pub spike : SpikeCycle.System
  pub reclaim : Idle.System
  pub procs : List Process
  pub mem : MemInfo
  pub later_mem : MemInfo
  pub manual_release : List Pid

unfoldable pub idle_procs : List Pid → List Process → List Process
idle_procs excluded procs = keep (λ p. not (any (λ x. nat_beq x p.pid) excluded)) procs

-- The part behind the cooldown.
unfoldable pub idle_step : CompiledConfig → Tick → TickState → TickState
idle_step cfg k s =
    let plan_procs = idle_procs (excluded_pids s.idle.frozen s.cycle.tracker false) k.procs in
    record s {
      last_check = k.reclaim.now;
      idle =
          check_idle_process_reclaim k.reclaim cfg k.later_mem plan_procs k.spike.foreground_pid
            s.idle;
    }

unfoldable pub idle_timeout_reclaim : CompiledConfig → Tick → TickState → TickState
idle_timeout_reclaim cfg k s =
    let after = record s {
      cycle =
          run_spike_cycle k.spike cfg s.idle.frozen k.mem.available_kb k.procs k.manual_release
            s.cycle;
    } in
    if not cfg.idle_reclaim_enabled
    then after
    else if ltb (as_secs (duration_since k.reclaim.now s.last_check))
        cfg.idle_reclaim_global_cooldown_sec
    then after
    else idle_step cfg k after
