-- ===== src/Spike.antt =====
-- mgd/src/spike_mode.rs: processes whose memory comes and goes in spikes. Factors are hundredths, CPU
-- shares hundredths of a percent; the victims' file is the list `saved`.
pub mod Tracker
pub mod Victims
pub mod Phases
pub mod Idle
pub mod Headroom
pub mod Release
use lmkd_linux.Prelude.{
  ℕ, ◌+◌, ◌-◌, ◌*◌, ◌/◌, ◌++◌, max, min, String, Bool, true, false, ◌&&◌, ◌||◌, not, Option, none,
  some, List, [], ◌∷◌, length, ltb, leb, ◌==◌, if◌then◌else◌,
}
use lmkd_linux.Types.{Pid, Kb, saturating_add, u64_max}
use lmkd_linux.Time.{Instant, duration_since, from_secs}
use lmkd_linux.Process.{Process}
use lmkd_linux.Config.{Regex, CompiledConfig}

pub data SpikePhase : Type 0 where
  observing tracking : SpikePhase

pub record SpikeVictim : Type 0 where
  pub pid : Pid
  pub name : String
  pub start_time : ℕ
  pub frozen_for_spike_pid : Pid
  pub frozen_at : Instant

pub data SpikeDecision : Type 0 where
  freeze_for_headroom : Kb → SpikeDecision
  throttle_spike restore_throttle : Pid → String → SpikeDecision
  release_victims : List SpikeVictim → SpikeDecision

pub record RssSample : Type 0 where
  pub rss : Kb
  pub taken_at : Instant

pub record SpikeState : Type 0 where
  pub pid : Pid
  pub name : String
  pub phase : SpikePhase
  pub samples : List RssSample
  pub initial_rss : Kb
  pub rss_max : Kb
  pub has_peaked : Bool
  pub has_oscillated : Bool
  pub cpu_throttled : Bool
  pub idle_ticks : ℕ
  pub cgroup_path : Option String
  pub force_included : Bool

unfoldable pub new_state : Pid → String → Kb → Option String → Bool → SpikeState
new_state pid name baseline cgroup_path force_included = record {
  pid = pid;
  name = name;
  phase = observing;
  samples = [];
  initial_rss = baseline;
  rss_max = baseline;
  has_peaked = false;
  has_oscillated = false;
  cpu_throttled = false;
  idle_ticks = 0;
  cgroup_path = cgroup_path;
  force_included = force_included;
}

pub record Params : Type 0 where
  pub window_sec : ℕ
  pub min_rss : Kb
  pub growth_threshold : Kb
  pub majflt_threshold : ℕ
  pub oscillation_drop_factor : ℕ
  pub min_samples : ℕ
  pub headroom_factor : ℕ
  pub cpu_threshold_pct : ℕ
  pub idle_cpu_threshold_pct : ℕ
  pub idle_rss_delta : Kb
  pub idle_ticks_required : ℕ
  pub include : List Regex
  pub exclude : List Regex

unfoldable pub from_config : CompiledConfig → Params
from_config cfg = record {
  window_sec = cfg.spike_window_sec;
  min_rss = cfg.spike_min_rss_kb;
  growth_threshold = cfg.spike_growth_threshold_kb;
  majflt_threshold = cfg.spike_majflt_threshold;
  oscillation_drop_factor = cfg.spike_oscillation_drop_factor;
  min_samples = cfg.spike_min_samples;
  headroom_factor = cfg.spike_headroom_factor;
  cpu_threshold_pct = cfg.spike_cpu_threshold_pct;
  idle_cpu_threshold_pct = cfg.spike_idle_cpu_threshold_pct;
  idle_rss_delta = cfg.spike_idle_rss_delta_kb;
  idle_ticks_required = cfg.spike_idle_ticks_required;
  include = cfg.spike_include;
  exclude = cfg.spike_exclude;
}

-- Samples outside the window leave at the front.
unfoldable pub evict : ℕ → Instant → List RssSample → List RssSample
evict window now [] = []
evict window now (s ∷ ss) =
    if ltb window (duration_since now s.taken_at) then evict window now ss else s ∷ ss

abbrev max_rss : List RssSample → Kb
max_rss [] = 0
max_rss (s ∷ ss) = max s.rss (max_rss ss)

-- `iter().max().unwrap_or(rss)`.
unfoldable pub peak_of : Kb → List RssSample → Kb
peak_of rss [] = rss
peak_of rss (s ∷ ss) = max s.rss (max_rss ss)

unfoldable pub sample_step : Params → Instant → Process → SpikeState → SpikeState
sample_step p now proc s =
    let samples =
      evict (from_secs p.window_sec) now
        (s.samples ++ record { rss = proc.rss_kb; taken_at = now } ∷ []) in
    record s {
      cgroup_path = proc.cgroup_path;
      samples = samples;
      rss_max = peak_of proc.rss_kb samples;
    }

unfoldable pub peak_step : Params → SpikeState → SpikeState
peak_step p s =
    if not s.has_peaked && ltb (saturating_add s.initial_rss p.growth_threshold) s.rss_max
    then record s { has_peaked = true }
    else s

-- The product in `f64` is taken to be exact; its cast saturates.
unfoldable pub oscillation_step : Params → Process → SpikeState → SpikeState
oscillation_step p proc s =
    if s.has_peaked
      && not s.has_oscillated
      && ltb proc.rss_kb (min (s.rss_max * p.oscillation_drop_factor / 100) u64_max)
    then record s { has_oscillated = true }
    else s

abbrev pub is_idle_tick : Params → Process → Kb → Bool
is_idle_tick p proc rss_delta =
    ltb proc.cpu_pct p.idle_cpu_threshold_pct && ltb rss_delta p.idle_rss_delta

-- Back to Observing, with the decision that lifts the throttle.
unfoldable pub demote : Process → SpikeState → SpikeState
demote proc s = record s {
  phase = observing;
  has_peaked = false;
  has_oscillated = false;
  idle_ticks = 0;
  samples = [];
  initial_rss = proc.rss_kb;
  rss_max = proc.rss_kb;
  cpu_throttled = false;
}

unfoldable pub lift : SpikeState → List SpikeDecision
lift s =
    if s.cpu_throttled
    then elim s.cgroup_path [ none ↦ [] | some cg ↦ restore_throttle s.pid cg ∷ [] ]
    else []

-- The state, the decisions and whether it was demoted.
unfoldable pub phase_step :
    Params → Process → Kb → SpikeState → SpikeState × List SpikeDecision × Bool
phase_step p proc rss_delta s = elim s.phase [
  | observing ↦
      if s.has_peaked && s.has_oscillated && leb p.min_samples (length s.samples)
      then (record s { phase = tracking; idle_ticks = 0 }, [], false)
      else (s, [], false)
  | tracking ↦
      if is_idle_tick p proc rss_delta
      then (if leb p.idle_ticks_required (s.idle_ticks + 1)
          then (demote proc s, lift s, true)
          else (record s { idle_ticks = s.idle_ticks + 1 }, [], false))
      else (record s { idle_ticks = 0 }, [], false)
]

-- Step 2 of `update` for one process.
unfoldable pub track :
    Params → Instant → Process → Kb → SpikeState → SpikeState × List SpikeDecision × Bool
track p now proc rss_delta s =
    phase_step p proc rss_delta (oscillation_step p proc (peak_step p (sample_step p now proc s)))

-- The CPU check of step 4 for one process.
unfoldable pub cpu_step :
    Params → Option Pid → Process → SpikeState → SpikeState × List SpikeDecision
cpu_step p foreground_pid proc s = elim s.phase [
  | observing ↦ (s, [])
  | tracking ↦ elim foreground_pid [
    | none ↦ cpu_check p proc s
    | some fg ↦ if fg == proc.pid then (s, []) else cpu_check p proc s
  ]
]
  where
    cpu_check : Params → Process → SpikeState → SpikeState × List SpikeDecision
    cpu_check p proc s = elim s.cgroup_path [
      | none ↦ (s, [])
      | some cg ↦
          if leb p.cpu_threshold_pct proc.cpu_pct && not s.cpu_throttled
          then (record s { cpu_throttled = true }, throttle_spike proc.pid cg ∷ [])
          else if ltb proc.cpu_pct p.cpu_threshold_pct && s.cpu_throttled
          then (record s { cpu_throttled = false }, restore_throttle proc.pid cg ∷ [])
          else (s, [])
    ]
