-- ===== src/Reclaim/Early.antt =====
-- mgd/src/evictor/early_reclaim.rs: half of the largest background processes goes to zram as soon as the
-- pressure is elevated.
use lmkd_linux.Prelude.{
  ℕ, ◌-◌, Bool, true, false, ◌&&◌, not, Option, none, some, List, [], ◌∷◌, keep, take, ltb, leb,
  ◌==◌, is_same, nat_eq, if◌then◌else◌,
}
use lmkd_linux.Prelude.Sorting.{sort}
use lmkd_linux.Types.{Pid, percent_of, bytes}
use lmkd_linux.Process.{Process}
use lmkd_linux.Psi.{PressureLevel, normal, elevated, high, critical, emergency}
use lmkd_linux.Config.{CompiledConfig}
use lmkd_linux.Decision.{get_priority}
use lmkd_linux.Reclaim.{Cgroups, WriteLog, try_reclaim_cgroup}

-- `LAST_EARLY_RECLAIM`, and the writes.
pub record EarlyState : Type 0 where
  pub last_early_reclaim : ℕ
  pub writes : WriteLog

unfoldable pub is_target : CompiledConfig → Option Pid → Process → Bool
is_target cfg active_pid p =
    let prio = get_priority p.name p.exe_basename cfg in
    ltb 20000 p.rss_kb && not (is_same active_pid p.pid) && leb 50 prio && ltb prio 60

-- `sort_by_key` by `Reverse(rss_kb)`.
abbrev pub larger_first : Process → Process → Bool
larger_first a b = leb b.rss_kb a.rss_kb

unfoldable pub targets : CompiledConfig → Option Pid → List Process → List Process
targets cfg active_pid procs = sort larger_first (keep (is_target cfg active_pid) procs)

unfoldable pub reclaim_half : Cgroups → Process → WriteLog → WriteLog
reclaim_half cg p log = elim p.cgroup_path [
  | none ↦ log
  | some path ↦ (try_reclaim_cgroup cg path (bytes (percent_of p.rss_kb 50)) log).1
]

unfoldable pub reclaim_each : Cgroups → List Process → WriteLog → WriteLog
reclaim_each cg [] log = log
reclaim_each cg (p ∷ ps) log = reclaim_each cg ps (reclaim_half cg p log)

unfoldable pub is_elevated : PressureLevel → Bool
is_elevated normal = false
is_elevated elevated = true
is_elevated high = false
is_elevated critical = false
is_elevated emergency = false

unfoldable pub check_early_process_reclaim :
    Cgroups
    → PressureLevel
    → List Process
    → Option Pid
    → ℕ
    → CompiledConfig
    → EarlyState
    → EarlyState
check_early_process_reclaim cg level plan_procs active_pid now cfg s =
    if not (is_elevated level)
    then s
    else if not (s.last_early_reclaim == 0) && ltb (now - s.last_early_reclaim) 30
    then s
    else record {
      last_early_reclaim = now;
      writes = reclaim_each cg (take 3 (targets cfg active_pid plan_procs)) s.writes;
    }
