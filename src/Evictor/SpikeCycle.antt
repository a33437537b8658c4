-- ===== src/Evictor/SpikeCycle.antt =====
-- mgd/src/evictor/spike.rs: victims are released, the tracker is fed, and its decisions are carried out.
-- What the system answers during a cycle is a record, with one clock reading; the calls are recorded.
pub mod Release
pub mod Update
pub mod Owed
pub mod Freezes
pub mod Whole
use lmkd_linux.Prelude.{
  ℕ, ◌-◌, Bool, true, false, ◌&&◌, ◌||◌, not, String, Option, none, some, List, [], ◌∷◌, ◌++◌, map,
  any, keep, nat_beq, nat_eq, is_same, ltb, leb, ◌==◌, if◌then◌else◌,
}
use lmkd_linux.Prelude.Sorting.{sort}
use lmkd_linux.Types.{Pid, Kb, kb_add, bytes}
use lmkd_linux.Time.{Instant}
use lmkd_linux.Process.{Process}
use lmkd_linux.Config.{CompiledConfig}
use lmkd_linux.Decision.{get_priority}
use lmkd_linux.Execute.{OpResult, success, fail}
use lmkd_linux.Registry.Frozen.{FrozenRegistry}
use lmkd_linux.Signals.{freeze_checked, unfreeze_checked}
use lmkd_linux.Reclaim.{Cgroups, WriteLog, reclaim_cgroup}
use lmkd_linux.Spike.{
  SpikeVictim, SpikeDecision, freeze_for_headroom, throttle_spike, restore_throttle,
  release_victims as release_decision, from_config,
}
use lmkd_linux.Spike.Victims.{
  SpikeTracker, on_spike_exit, drain_timed_out_victims, drain_orphaned_victims, release_requested,
  record_victim_frozen, is_victim_cooldown,
}
use lmkd_linux.Spike.Tracker.{update}
use lmkd_linux.Evictor.{excluded_pids}

-- A call of `freeze_checked` or `unfreeze_checked` with the start time that it was given.
pub data Call : Type 0 where
  stop continue : Pid → ℕ → OpResult → Call

pub record System : Type 0 where
  pub now : Instant
  pub read_start_time : Pid → Option ℕ
  pub checked_start_time : Pid → Option ℕ
  pub delivered : Pid → Bool
  pub foreground_pid : Option Pid
  pub cgroups : Cgroups

-- The tracker, the calls, the writes of cpu.weight and of memory.reclaim, the newest first.
pub record CycleState : Type 0 where
  pub tracker : SpikeTracker
  pub calls : List Call
  pub weights : List (String × ℕ)
  pub reclaims : WriteLog

abbrev pub spike_pids : SpikeTracker → List Pid
spike_pids t = map (λ x. x.0) t.spikes

unfoldable pub unfreeze_victim : System → SpikeVictim → CycleState → CycleState
unfreeze_victim sys v s =
    let result =
      (unfreeze_checked (sys.checked_start_time v.pid) (sys.delivered v.pid) v.pid
        v.start_time).0 in
    record s { calls = continue v.pid v.start_time result ∷ s.calls }

unfoldable pub unfreeze_each : System → List SpikeVictim → CycleState → CycleState
unfreeze_each sys [] s = s
unfreeze_each sys (v ∷ vs) s = unfreeze_each sys vs (unfreeze_victim sys v s)

-- The victims that an operation of the tracker gives back are unfrozen.
unfoldable pub let_go : System → SpikeTracker × List SpikeVictim → CycleState → CycleState
let_go sys (tracker, victims) s = unfreeze_each sys victims (record s { tracker = tracker })

unfoldable pub exit_each : System → List Pid → CycleState → CycleState
exit_each sys [] s = s
exit_each sys (pid ∷ pids) s = exit_each sys pids (let_go sys (on_spike_exit pid s.tracker) s)

-- The spikes that no listed process has.
unfoldable pub exited : List Process → SpikeTracker → List Pid
exited procs t = keep (λ pid. not (any (λ p. p.pid == pid) procs)) (spike_pids t)

unfoldable pub release_victims :
    System → CompiledConfig → List Process → List Pid → CycleState → CycleState
release_victims sys cfg procs manual_release s =
    let left = exit_each sys (exited procs s.tracker) s in
    let timed =
      let_go sys (drain_timed_out_victims sys.now cfg.spike_max_victim_freeze_sec left.tracker)
        left in
    let orphaned = let_go sys (drain_orphaned_victims timed.tracker) timed in
    elim manual_release [
      | [] ↦ orphaned
      | pid ∷ pids ↦ let_go sys (release_requested sys.now (pid ∷ pids) orphaned.tracker) orphaned
    ]

-- The filters of the candidates for headroom.
unfoldable pub is_candidate : System → CompiledConfig → List Pid → SpikeTracker → Process → Bool
is_candidate sys cfg exclude t p =
    not (any (λ x. nat_beq x p.pid) exclude)
    && not (is_same sys.foreground_pid p.pid)
    && not (is_victim_cooldown sys.now p.pid 60 t)
    && leb cfg.spike_victim_min_rss_kb (kb_add p.rss_kb p.swap_kb)
    && leb 60 (get_priority p.name p.exe_basename cfg)
    && not (any (λ re. re p.name) cfg.spike_victim_exclude)

-- Highest priority first, then the largest.
abbrev pub expendable_first : CompiledConfig → Process → Process → Bool
expendable_first cfg a b =
    let pa = get_priority a.name a.exe_basename cfg in
    let pb = get_priority b.name b.exe_basename cfg in
    ltb pb pa || (pa == pb && leb b.rss_kb a.rss_kb)

unfoldable pub headroom_candidates :
    System → CompiledConfig → FrozenRegistry → SpikeTracker → List Process → List Process
headroom_candidates sys cfg frozen t procs =
    sort (expendable_first cfg) (keep (is_candidate sys cfg (excluded_pids frozen t true) t) procs)

unfoldable pub victim_of : System → Pid → Process → ℕ → SpikeVictim
victim_of sys spike_pid p start_time = record {
  pid = p.pid;
  name = p.name;
  start_time = start_time;
  frozen_for_spike_pid = spike_pid;
  frozen_at = sys.now;
}

-- A write to the victim's cgroup whose result is dropped.
unfoldable pub push_to_zram : System → Process → WriteLog → WriteLog
push_to_zram sys p log = elim p.cgroup_path [
  | none ↦ log
  | some path ↦ (reclaim_cgroup sys.cgroups path (bytes p.rss_kb) log).1
]

-- After the call of `freeze_checked`: the state and what the victim gives.
unfoldable pub frozen_step : System → Pid → Process → ℕ → OpResult → CycleState → CycleState × Kb
frozen_step sys spike_pid p start_time success s = (
  record s {
    tracker = record_victim_frozen (victim_of sys spike_pid p start_time) s.tracker;
    calls = stop p.pid start_time success ∷ s.calls;
    reclaims = push_to_zram sys p s.reclaims;
  },
  p.rss_kb,
)
frozen_step sys spike_pid p start_time (fail vanished) s =
    (record s { calls = stop p.pid start_time (fail vanished) ∷ s.calls }, 0)

unfoldable pub freeze_candidate : System → Pid → Process → CycleState → CycleState × Kb
freeze_candidate sys spike_pid p s = elim (sys.read_start_time p.pid) [
  | none ↦ (s, 0)
  | some st ↦
      frozen_step sys spike_pid p st
        (freeze_checked (sys.checked_start_time p.pid) (sys.delivered p.pid) p.pid st).0 s
]

-- The loop ends when nothing more is needed.
unfoldable pub freeze_for : System → Pid → List Process → Kb → CycleState → CycleState
freeze_for sys spike_pid [] needed s = s
freeze_for sys spike_pid (p ∷ ps) needed s =
    let (next, freed) = freeze_candidate sys spike_pid p s in
    let rest = freeze_for sys spike_pid ps (needed - freed) next in if needed == 0 then s else rest

-- `Pid::NONE` is 0.
abbrev pub first_or_none : List Pid → Pid
first_or_none [] = 0
first_or_none (pid ∷ pids) = pid

unfoldable pub carry_out :
    System
    → CompiledConfig
    → FrozenRegistry
    → List Process
    → SpikeDecision
    → CycleState
    → CycleState
carry_out sys cfg frozen procs (release_decision victims) s = unfreeze_each sys victims s
carry_out sys cfg frozen procs (freeze_for_headroom needed) s =
    freeze_for sys (first_or_none (spike_pids s.tracker))
      (headroom_candidates sys cfg frozen s.tracker procs) needed s
carry_out sys cfg frozen procs (throttle_spike spike_pid path) s = record s {
  weights = (path, cfg.spike_throttled_cpu_weight) ∷ s.weights;
}
carry_out sys cfg frozen procs (restore_throttle spike_pid path) s = record s {
  weights = (path, 100) ∷ s.weights;
}

unfoldable pub carry_out_all :
    System
    → CompiledConfig
    → FrozenRegistry
    → List Process
    → List SpikeDecision
    → CycleState
    → CycleState
carry_out_all sys cfg frozen procs [] s = s
carry_out_all sys cfg frozen procs (d ∷ ds) s =
    carry_out_all sys cfg frozen procs ds (carry_out sys cfg frozen procs d s)

unfoldable pub run_spike_cycle :
    System
    → CompiledConfig
    → FrozenRegistry
    → Kb
    → List Process
    → List Pid
    → CycleState
    → CycleState
run_spike_cycle sys cfg frozen available procs manual_release s =
    let released = release_victims sys cfg procs manual_release s in
    let (tracker, decisions) =
      update (from_config cfg) sys.foreground_pid sys.now procs available released.tracker in
    if cfg.spike_mode_enabled
    then carry_out_all sys cfg frozen procs decisions (record released { tracker = tracker })
    else released
