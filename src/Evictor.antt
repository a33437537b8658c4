-- ===== src/Evictor.antt =====
-- mgd/src/evictor/mod.rs: one turn of the evictor's loop, from the readings to the level and from the
-- level to the plan. The cycles between the two are those of Throttle, MemCap, Spike and LeakGuard.
pub mod Control
pub mod Spared
pub mod SpikeCycle
pub mod CalmTick
use lmkd_linux.Prelude.{
  ℕ, ◌++◌, Bool, true, false, ◌&&◌, not, String, Option, none, some, List, [], ◌∷◌, map, any, keep,
  nat_eq, nat_beq, string_eq, ltb, leb, if◌then◌else◌,
}
use lmkd_linux.Prelude.Maps.{contains_key}
use lmkd_linux.Prelude.Sorting.{sort}
use lmkd_linux.Types.{Pid, Kb}
use lmkd_linux.Time.{Instant, duration_since, as_secs}
use lmkd_linux.Meminfo.{MemInfo, swap_used_pct}
use lmkd_linux.Psi.{PressureLevel, normal, elevated, high, emergency, at_least, below}
use lmkd_linux.Process.{Process}
use lmkd_linux.Config.{CompiledConfig}
use lmkd_linux.Decision.{Env, plan}
use lmkd_linux.Scoring.{
  StateMachine, initial, advance, target_state_for, to_pressure_level, ScoreTracker, update_with,
  apply_swap_overrides,
}
use lmkd_linux.Registry.Frozen
use lmkd_linux.Registry.Frozen.{FrozenRegistry}
use lmkd_linux.Execute.{Oracle, State, execute_plan}
use lmkd_linux.MemCap
use lmkd_linux.MemCap.{MemCapManager}
use lmkd_linux.Spike.Victims.{SpikeTracker}

-- The variables of the loop that decide the level.
pub record Controller : Type 0 where
  pub score_tracker : ScoreTracker
  pub state_machine : StateMachine
  pub sustained_critical_swap_start : Option Instant
  pub sustained_emergency_start : Option Instant
  pub hibernate_triggered : Bool
  pub last_level : PressureLevel

unfoldable pub start : ScoreTracker → Controller
start st = record {
  score_tracker = st;
  state_machine = initial;
  sustained_critical_swap_start = none;
  sustained_emergency_start = none;
  hibernate_triggered = false;
  last_level = normal;
}

-- What one turn reads.
pub record Reading : Type 0 where
  pub some_avg10 : ℕ
  pub meminfo : MemInfo
  pub pswpin : ℕ
  pub pswpout : ℕ
  pub total_gpu : Kb
  pub now : Instant

unfoldable pub swap_exhausted : MemInfo → Bool
swap_exhausted m = ltb 0 m.swap_total_kb && leb 950000 (swap_used_pct m)

abbrev emergency_since : Option Instant → Instant → Instant
emergency_since none now = now
emergency_since (some t) now = t

-- The last resort: the controller and whether it hibernates the machine.
unfoldable pub hibernate_step : CompiledConfig → Instant → Controller → Controller × Bool
hibernate_step cfg now c =
    let since = emergency_since c.sustained_emergency_start now in
    let fires =
      not c.hibernate_triggered
      && ltb 0 cfg.emergency_hibernate_after_sec
      && leb cfg.emergency_hibernate_after_sec (as_secs (duration_since now since)) in
    if at_least c.last_level emergency
    then (
      record c {
        sustained_emergency_start = some since;
        hibernate_triggered = if fires then true else c.hibernate_triggered;
      },
      fires,
    )
    else (record c { sustained_emergency_start = none }, false)

-- The level of a turn, kept in `last_level`.
unfoldable pub level_step : Reading → Controller → Controller
level_step r c =
    let (st, score) =
      update_with c.score_tracker r.some_avg10 r.meminfo r.pswpin r.pswpout r.total_gpu r.now in
    let target = target_state_for score.p_score score.trend r.some_avg10 score.swap_io_kbs in
    let sm = (advance c.state_machine target score.trend).0 in
    let (level, timer) =
      apply_swap_overrides (to_pressure_level sm.current) (swap_used_pct r.meminfo)
        r.meminfo.swap_total_kb c.sustained_critical_swap_start r.now in
    record c {
      score_tracker = st;
      state_machine = sm;
      sustained_critical_swap_start = timer;
      last_level = level;
    }

unfoldable pub control : CompiledConfig → Reading → Controller → Controller × Bool
control cfg r c = hibernate_step cfg r.now (level_step r c)

-- Below high pressure every memory cap is lifted; `update` ran if the interval had elapsed.
unfoldable pub memcap_step :
    (String → Bool)
    → List Process
    → Option Pid
    → PressureLevel
    → CompiledConfig
    → Instant
    → Bool
    → MemCapManager
    → MemCapManager
memcap_step write_ok procs active_pid level cfg now due t =
    let updated = if due then MemCap.update write_ok procs active_pid level cfg now t else t in
    if below level high then MemCap.restore_all updated else updated

unfoldable pub excluded_pids : FrozenRegistry → SpikeTracker → Bool → List Pid
excluded_pids frozen spike_tracker include_spike_pids =
    Frozen.frozen_pids frozen
    ++ map (λ x. x.0) spike_tracker.victims
    ++ (if include_spike_pids then map (λ x. x.0) spike_tracker.spikes else [])

abbrev pub still_recent : Instant → String × Instant → Bool
still_recent now x = ltb (as_secs (duration_since now x.1)) 45

-- The filter of `plan_procs`.
unfoldable pub targetable : List Pid → List (String × Instant) → Process → Bool
targetable excluded recently_killed p =
    not (any (λ x. nat_beq x p.pid) excluded)
    && elim p.cgroup_path [ none ↦ true | some cg ↦ not (contains_key cg recently_killed) ]

abbrev larger : Process → Process → Bool
larger a b = leb b.rss_kb a.rss_kb

unfoldable pub plan_procs : SpikeTracker → State → List Process → List Process
plan_procs spike_tracker s procs =
    keep (targetable (excluded_pids s.frozen spike_tracker true) s.recently_killed_cgroups)
      (sort larger procs)

abbrev pub forget_kills : Instant → State → State
forget_kills now s = record s {
  recently_killed_cgroups = keep (still_recent now) s.recently_killed_cgroups;
}

-- The second half of a turn: the state and the count of destructive actions.
unfoldable pub evict :
    Oracle
    → Env
    → CompiledConfig
    → PressureLevel
    → MemInfo
    → SpikeTracker
    → List Process
    → State
    → State × ℕ
evict o env cfg level m spike_tracker procs s =
    let kept = forget_kills o.now s in
    let ps = plan_procs spike_tracker kept procs in
    let decisions = plan level env ps m.available_kb m.total_kb (swap_exhausted m) cfg in
    if at_least level elevated then execute_plan o ps decisions kept else (s, 0)
