-- ===== src/Reclaim/Idle/Grown.antt =====
-- mgd/src/evictor/idle_reclaim.rs: which reclaims a check of the idle reclaim adds.
use mathlib.Core.Path.{subst}
use lmkd_linux.Prelude.{
  sym, All, All-take, String, ℕ, Bool, true, false, Option, none, some, List, [], ◌∷◌, take, ◌==◌,
  nat_eq, is_same, if◌then◌else◌,
}
use lmkd_linux.Prelude.Maps.{retain_keys}
use lmkd_linux.Types.{Pid}
use lmkd_linux.Time.{Instant}
use lmkd_linux.Meminfo.{MemInfo}
use lmkd_linux.Process.{Process}
use lmkd_linux.Config.{CompiledConfig}
use lmkd_linux.Reclaim.{
  WriteLog, ReclaimOutcome, reclaimed, skipped, blocked, failed, try_reclaim_cgroup,
}
use lmkd_linux.Reclaim.Idle.{
  IdleReclaimConfig, idle_config, Share, candidate_bytes, background_secs, select_from,
  select_idle_candidates, System, IdleState, start_clocks, exceeds, is_live, swap_share, settle,
  cgroup_of, reclaim_candidate, reclaim_candidates, reclaim_idle, swap_is_scarce, freeze_idle,
  check_idle_process_reclaim,
}
use lmkd_linux.Reclaim.Idle.Timers.{Reclaims}
use lmkd_linux.Reclaim.Idle.Frozen.{freeze_idle-timers}

-- The pids that may be reclaimed, and a property of the reclaims on record that another reclaim of such a
-- pid keeps.
module _ (May : Pid → Type 0) (Q : Reclaims → Type 0) (sys : System)
    (add : (pid : Pid) (rs : Reclaims) → May pid → Q rs → Q ((pid, sys.now) ∷ rs)) where
  settle-Q :
      (pid : Pid) (outcome : ReclaimOutcome) (log : WriteLog) (s : IdleState)
      → May pid
      → Q s.reclaims
      → Q (settle sys pid outcome log s).reclaims
  unfolding settle
  settle-Q pid reclaimed log s m h = add pid s.reclaims m h
  settle-Q pid skipped log s m h = h
  settle-Q pid blocked log s m h = h
  settle-Q pid (failed e) log s m h = h

  reclaim_candidate-Q :
      (procs : List Process) (c : Pid × ℕ) (s : IdleState)
      → May c.0
      → Q s.reclaims
      → Q (reclaim_candidate sys procs c s).reclaims
  unfolding reclaim_candidate
  reclaim_candidate-Q procs (pid, size) s m h = by_size (size == 0) (cgroup_of pid procs)
    where
      by_size :
          (zero : Bool) (cgroup : Option String)
          → Q
              (if zero then s else elim cgroup [
                | none ↦ s
                | some path ↦
                    let (outcome, log) = try_reclaim_cgroup sys.cgroups path size s.writes in
                    settle sys pid outcome log s
              ]).reclaims
      by_size true cgroup = h
      by_size false none = h
      by_size false (some path) =
          let t = try_reclaim_cgroup sys.cgroups path size s.writes in settle-Q pid t.0 t.1 s m h

  reclaim_candidates-Q :
      (procs : List Process) (cs : List (Pid × ℕ)) (s : IdleState)
      → All (λ c. May c.0) cs
      → Q s.reclaims
      → Q (reclaim_candidates sys procs cs s).reclaims
  unfolding reclaim_candidates
  reclaim_candidates-Q procs [] s m h = h
  reclaim_candidates-Q procs (c ∷ cs) s m h =
      reclaim_candidates-Q procs cs (reclaim_candidate sys procs c s) m.1
        (reclaim_candidate-Q procs c s m.0 h)

  select_from-May :
      (now : Instant) (procs : List Process) (active_pid : Option Pid)
      (tracker : List (Pid × Instant)) (idle_cfg : IdleReclaimConfig) (cfg : CompiledConfig)
      → All (λ p. May p.pid) procs
      → All (λ c. May c.0) (select_from now procs active_pid tracker idle_cfg cfg)
  unfolding select_from
  select_from-May now [] active_pid tracker idle_cfg cfg m = tt
  select_from-May now (p ∷ ps) active_pid tracker idle_cfg cfg m =
      by_test (is_same active_pid p.pid)
        (candidate_bytes idle_cfg cfg (background_secs now tracker p.pid) p)
        (select_from-May now ps active_pid tracker idle_cfg cfg m.1)
    where
      rest : List (Pid × ℕ)
      rest = select_from now ps active_pid tracker idle_cfg cfg

      by_test :
          (active : Bool) (o : Option ℕ)
          → All (λ c. May c.0) rest
          → All
              (λ c. May c.0)
              (if active then rest else elim o [ none ↦ rest | some size ↦ (p.pid, size) ∷ rest ])
      by_test true o ih = ih
      by_test false none ih = ih
      by_test false (some size) ih = (m.0, ih)

  chosen-May :
      (procs : List Process) (active_pid : Option Pid) (tracker : List (Pid × Instant))
      (share : Share) (idle_cfg : IdleReclaimConfig) (cfg : CompiledConfig)
      → All (λ p. May p.pid) procs
      → All
          (λ c. May c.0)
          (take 3 (select_idle_candidates sys.now procs active_pid tracker share idle_cfg cfg))
  unfolding select_idle_candidates
  chosen-May procs active_pid tracker share idle_cfg cfg m =
      by_share (exceeds share idle_cfg.max_swap_occupancy_pct)
    where
      from : List (Pid × ℕ)
      from = select_from sys.now procs active_pid tracker idle_cfg cfg

      by_share : (full : Bool) → All (λ c. May c.0) (take 3 (if full then [] else from))
      by_share true = tt
      by_share false =
          All-take (λ c. May c.0) 3 from
            (select_from-May sys.now procs active_pid tracker idle_cfg cfg m)

  reclaim_idle-Q :
      (cfg : CompiledConfig) (m : MemInfo) (procs : List Process) (active_pid : Option Pid)
      (s : IdleState)
      → All (λ p. May p.pid) procs
      → Q s.reclaims
      → Q (reclaim_idle sys cfg m procs active_pid s).reclaims
  unfolding reclaim_idle
  reclaim_idle-Q cfg m procs active_pid s may h =
      let kept = retain_keys (is_live procs) s.pid_tracker in
      reclaim_candidates-Q procs _
        (record s { pid_tracker = start_clocks sys.now active_pid procs kept })
        (chosen-May procs active_pid kept (swap_share m) (idle_config cfg) cfg may) h

  -- A check adds reclaims of listed processes only, each at the time of the check.
  pub check_idle_process_reclaim-Q :
      (cfg : CompiledConfig) (m : MemInfo) (procs : List Process) (active_pid : Option Pid)
      (s : IdleState)
      → All (λ p. May p.pid) procs
      → Q s.reclaims
      → Q (check_idle_process_reclaim sys cfg m procs active_pid s).reclaims
  unfolding check_idle_process_reclaim
  check_idle_process_reclaim-Q cfg m procs active_pid s may h = by_guard (swap_is_scarce m)
    where
      after : IdleState
      after = reclaim_idle sys cfg m procs active_pid s

      pruned : IdleState
      pruned = record after {
        freeze_pid_tracker = retain_keys (is_live procs) after.freeze_pid_tracker;
      }

      by_guard :
          (scarce : Bool)
          → Q (if scarce then s else freeze_idle sys cfg active_pid procs pruned).reclaims
      by_guard true = h
      by_guard false =
          subst Q (sym (freeze_idle-timers sys cfg active_pid procs pruned).1)
            (reclaim_idle-Q cfg m procs active_pid s may h)
