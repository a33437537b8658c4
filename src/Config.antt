-- ===== src/Config.antt =====
-- mgd/src/config/mod.rs: the compiled configuration and its lookups. A compiled regular expression
-- is the test that it stands for; percentages are hundredths of a percent.
use lmkd_linux.Prelude.{ℕ, String, Bool, Option, none, some, List, [], ◌∷◌, any, if◌then◌else◌}
use lmkd_linux.Prelude.Maps.{lookup}
use lmkd_linux.Prelude.{string_eq}
use lmkd_linux.Types.{Kb}
use lmkd_linux.Psi.{PressureLevel, PsiThresholds}

-- `Regex::is_match`, of the crate `regex`.
abbrev pub Regex : Type 0
Regex = String → Bool

-- One of `entries`, a tuple in the source.
pub record Entry : Type 0 where
  pub re : Regex
  pub prio : ℕ
  pub checkpoint : Option Bool

-- The fields that the modelled code reads.
pub record CompiledConfig : Type 0 where
  pub default_priority : ℕ
  pub target_available_pct : ℕ
  pub compact_zram_on_elevated : Bool
  pub zram_min_used_mb : ℕ
  pub proactive_swap_reclaim : Bool
  pub reclaim_threshold_pct : ℕ
  pub reclaim_cooldown_secs : ℕ
  pub reclaim_min_zram_used_mb : ℕ
  pub reclaim_headroom_mult : ℕ
  pub cache_drop_enabled : Bool
  pub cache_drop_trigger : PressureLevel
  pub psi : PsiThresholds
  pub cache_drop_cooldown_secs : ℕ
  pub cache_drop_paths : List String
  pub idle_reclaim_enabled : Bool
  pub idle_reclaim_sec : ℕ
  pub idle_reclaim_rss_min_mb : ℕ
  pub idle_reclaim_pct : ℕ
  pub idle_reclaim_global_cooldown_sec : ℕ
  pub idle_reclaim_max_swap_occupancy_pct : ℕ
  pub idle_reclaim_freeze_after_sec : Option ℕ
  pub idle_reclaim_important_enabled : Bool
  pub idle_reclaim_important_min_priority : ℕ
  pub idle_reclaim_important_idle_sec : ℕ
  pub idle_reclaim_important_pct : ℕ
  pub emergency_hibernate_after_sec : ℕ
  pub spike_mode_enabled : Bool
  pub spike_include : List Regex
  pub spike_exclude : List Regex
  pub spike_victim_exclude : List Regex
  pub spike_window_sec : ℕ
  pub spike_headroom_factor : ℕ
  pub spike_min_rss_kb : Kb
  pub spike_growth_threshold_kb : Kb
  pub spike_majflt_threshold : ℕ
  pub spike_oscillation_drop_factor : ℕ
  pub spike_cpu_threshold_pct : ℕ
  pub spike_throttled_cpu_weight : ℕ
  pub spike_min_samples : ℕ
  pub spike_max_victim_freeze_sec : ℕ
  pub spike_victim_min_rss_kb : Kb
  pub spike_idle_cpu_threshold_pct : ℕ
  pub spike_idle_rss_delta_kb : Kb
  pub spike_idle_ticks_required : ℕ
  pub throttle_exclude : List Regex
  pub throttle_max_duration_sec : ℕ
  pub leak_guard_enabled : Bool
  pub leak_guard_exclude : List Regex
  pub leak_guard_window_sec : ℕ
  pub leak_guard_min_group_count : ℕ
  pub leak_guard_min_group_rss_kb : Kb
  pub leak_guard_growth_over_window : ℕ
  pub leak_guard_min_samples : ℕ
  pub leak_guard_keep_newest : ℕ
  pub leak_guard_cooldown_sec : ℕ
  pub entries : List Entry
  pub auto_kill_rules : List (Regex × ℕ)
  pub protected : List Regex
  pub desktop_index : List (String × ℕ)

-- The first entry whose expression matches.
first_match : String → List Entry → Option Entry
first_match name [] = none
first_match name (r ∷ rs) = if r.re name then some r else first_match name rs

desktop_priority : CompiledConfig → Option String → ℕ
desktop_priority cfg none = cfg.default_priority
desktop_priority cfg (some exe) = elim (lookup exe cfg.desktop_index) [
  | none ↦ cfg.default_priority
  | some prio ↦ prio
]

unfoldable pub priority_for : CompiledConfig → String → Option String → ℕ
unfolding first_match desktop_priority
priority_for cfg name exe = elim (first_match name cfg.entries) [
  | none ↦ desktop_priority cfg exe
  | some r ↦ r.prio
]

unfoldable pub checkpoint_override : CompiledConfig → String → Option Bool
unfolding first_match
checkpoint_override cfg name = elim (first_match name cfg.entries) [
  | none ↦ none
  | some r ↦ r.checkpoint
]

unfoldable pub is_protected : CompiledConfig → String → Bool
is_protected cfg name = any (λ re. re name) cfg.protected

auto_kill_in : String → List (Regex × ℕ) → Option ℕ
auto_kill_in name [] = none
auto_kill_in name ((re, secs) ∷ rs) = if re name then some secs else auto_kill_in name rs

unfoldable pub auto_kill_idle_after_for : CompiledConfig → String → Option ℕ
unfolding auto_kill_in
auto_kill_idle_after_for cfg name = auto_kill_in name cfg.auto_kill_rules
