-- ===== src/Tests/Spike.antt =====
-- Examples for spike_mode.rs.
use lmkd_linux.Prelude.{
  ◌⊎◌, ℕ, refl, true, false, some, [], ◌∷◌, All, nat_eq, arith, ◌<◌, ◌≡◌, length,
}
use lmkd_linux.Spike.{tracking, SpikeState, SpikeVictim, Params}
use lmkd_linux.Spike.Victims.{SpikeTracker}
use lmkd_linux.Spike.Tracker.{update}
use lmkd_linux.Spike.Phases.{Sound, update-Sound}
use lmkd_linux.Spike.Idle.{follow, GivenUp, follow-Idle, Tick}
use lmkd_linux.Tests.Fixtures.{process, procs}

abbrev params : Params
params = record {
  window_sec = 120;
  min_rss = 524288;
  growth_threshold = 102400;
  majflt_threshold = 500;
  oscillation_drop_factor = 90;
  min_samples = 6;
  headroom_factor = 125;
  cpu_threshold_pct = 8000;
  idle_cpu_threshold_pct = 300;
  idle_rss_delta = 20000;
  idle_ticks_required = 2;
  include = [];
  exclude = [];
}

abbrev compiler : SpikeState
compiler = record {
  pid = 30;
  name = "indexer";
  phase = tracking;
  samples = [];
  initial_rss = 100000;
  rss_max = 900000;
  has_peaked = true;
  has_oscillated = true;
  cpu_throttled = true;
  idle_ticks = 0;
  cgroup_path = some "indexer";
  force_included = false;
}

abbrev victim : SpikeVictim
victim = record {
  pid = 40;
  name = "helper";
  start_time = 70;
  frozen_for_spike_pid = 30;
  frozen_at = 1000000000;
}

abbrev tracker : SpikeTracker
tracker = record {
  spikes = (30, compiler) ∷ [];
  victims = (40, victim) ∷ [];
  victim_cooldowns = [];
  prev_rss = [];
  prev_majflt = [];
  saved = victim ∷ [];
}

tracker-Sound : All (λ x. Sound params x.1) tracker.spikes
tracker-Sound =
    (record { shown = λ e. (refl, refl); throttled = λ e. refl; short = λ h. omega arith }, tt)

update-Sound_example :
    All (λ x. Sound params x.1) (update params (some 20) 3000000000 procs 800000 tracker).0.spikes
update-Sound_example = update-Sound params (some 20) 3000000000 procs 800000 tracker tracker-Sound

abbrev idle_tick : ℕ → Tick
idle_tick t = record { now = t; proc = process 30 "indexer" 200000; rss_delta = 0 }

follow-Idle_example :
    let ticks = idle_tick 1000000000 ∷ idle_tick 2000000000 ∷ [] in
    ((length ticks < 2) × ((follow params ticks compiler).phase ≡ tracking))
    ⊎ ((length ticks ≡ 2) × GivenUp (follow params ticks compiler))
follow-Idle_example =
    follow-Idle params (idle_tick 1000000000 ∷ idle_tick 2000000000 ∷ []) compiler
      (refl, (refl, tt)) refl refl (omega arith) (omega arith)
