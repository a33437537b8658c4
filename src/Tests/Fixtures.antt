-- ===== src/Tests/Fixtures.antt =====
-- A configuration, processes and a system for the examples.
use lmkd_linux.Prelude.{ℕ, String, true, false, none, some, List, [], ◌∷◌, string_eq}
use lmkd_linux.Prelude.Int.{pos}
use lmkd_linux.Types.{Pid, Kb}
use lmkd_linux.Psi.{high, default_thresholds}
use lmkd_linux.Config.{Regex, Entry, CompiledConfig}
use lmkd_linux.Process.{Process}
use lmkd_linux.Decision.{Env, Decision, Action}

abbrev pub named : String → Regex
named name = λ s. string_eq.beq s name

abbrev pub entry : String → ℕ → Entry
entry name prio = record { re = named name; prio = prio; checkpoint = none }

abbrev pub config : CompiledConfig
config = record {
  default_priority = 50;
  target_available_pct = 1000;
  compact_zram_on_elevated = true;
  zram_min_used_mb = 256;
  proactive_swap_reclaim = true;
  reclaim_threshold_pct = 5000;
  reclaim_cooldown_secs = 600;
  reclaim_min_zram_used_mb = 64;
  reclaim_headroom_mult = 200;
  cache_drop_enabled = true;
  cache_drop_trigger = high;
  psi = default_thresholds;
  cache_drop_cooldown_secs = 60;
  cache_drop_paths = [];
  idle_reclaim_enabled = true;
  idle_reclaim_sec = 300;
  idle_reclaim_rss_min_mb = 100;
  idle_reclaim_pct = 30;
  idle_reclaim_global_cooldown_sec = 30;
  idle_reclaim_max_swap_occupancy_pct = 8000;
  idle_reclaim_freeze_after_sec = none;
  idle_reclaim_important_enabled = false;
  idle_reclaim_important_min_priority = 40;
  idle_reclaim_important_idle_sec = 1800;
  idle_reclaim_important_pct = 10;
  emergency_hibernate_after_sec = 0;
  spike_mode_enabled = true;
  spike_include = [];
  spike_exclude = [];
  spike_victim_exclude = [];
  spike_window_sec = 30;
  spike_headroom_factor = 150;
  spike_min_rss_kb = 204800;
  spike_growth_threshold_kb = 102400;
  spike_majflt_threshold = 1000;
  spike_oscillation_drop_factor = 50;
  spike_cpu_threshold_pct = 5000;
  spike_throttled_cpu_weight = 10;
  spike_min_samples = 3;
  spike_max_victim_freeze_sec = 60;
  spike_victim_min_rss_kb = 102400;
  spike_idle_cpu_threshold_pct = 500;
  spike_idle_rss_delta_kb = 10240;
  spike_idle_ticks_required = 3;
  throttle_exclude = named "pipewire" ∷ [];
  throttle_max_duration_sec = 300;
  leak_guard_enabled = true;
  leak_guard_exclude = [];
  leak_guard_window_sec = 300;
  leak_guard_min_group_count = 3;
  leak_guard_min_group_rss_kb = 1000;
  leak_guard_growth_over_window = 2;
  leak_guard_min_samples = 2;
  leak_guard_keep_newest = 1;
  leak_guard_cooldown_sec = 60;
  entries = entry "kwin" 10 ∷ entry "editor" 40 ∷ entry "indexer" 85 ∷ entry "helper" 70 ∷ [];
  auto_kill_rules = (named "indexer", 900) ∷ [];
  protected = named "sshd" ∷ [];
  desktop_index = [];
}

abbrev pub process : Pid → String → Kb → Process
process pid name rss = record {
  pid = pid;
  name = name;
  exe_basename = none;
  rss_kb = rss;
  swap_kb = 0;
  oom_score = pos 0;
  cgroup_path = some name;
  cpu_pct = 0;
  majflt = 0;
  cmdline = name;
}

abbrev pub procs : List Process
procs =
    process 10 "kwin" 300000
    ∷ process 20 "editor" 500000
    ∷ process 30 "indexer" 200000
    ∷ process 40 "helper" 400000
    ∷ process 50 "sshd" 20000
    ∷ []

abbrev pub env : Env
env = record { active_pid = some 20; gpu_kb = λ pid. 0; checkpoint_eligible = λ name. false }

abbrev pub decision : Action → Pid → String → Decision
decision a pid name = record { pid = pid; name = name; action = a; rss = 200000; prio = 85 }
