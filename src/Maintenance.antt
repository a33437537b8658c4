-- ===== src/Maintenance.antt =====
-- mgd/src/maintenance.rs: the gated reclaim of swap. The two atomics are the state; what the system
-- answers during a check is a record. A multiplier is a number of hundredths.
pub mod Reclaim
pub mod AutoKill
use lmkd_linux.Prelude.{
  ℕ, ◌-◌, ◌*◌, ◌/◌, min, String, Bool, true, false, ◌&&◌, ◌||◌, not, Option, none, some, List, [],
  ◌∷◌, find, ltb, leb, ◌==◌, if◌then◌else◌,
}
use lmkd_linux.Psi.{MemoryPressure}
use lmkd_linux.Meminfo.{MemInfo, swap_used_pct}
use lmkd_linux.Config.{CompiledConfig}

pub record ReclaimGates : Type 0 where
  -- millionths of the swap
  pub swap_used : ℕ
  pub zram_used_mb : ℕ
  pub zram_orig_mb : ℕ
  pub mem_available_mb : ℕ
  -- hundredths of a percent
  pub threshold_pct : ℕ
  pub min_zram_used_mb : ℕ
  pub headroom_mult : ℕ

-- What the reason of an `Err` speaks of.
pub data Gate : Type 0 where
  passed below_threshold little_zram no_headroom : Gate

abbrev pub required_mb : ReclaimGates → ℕ
required_mb g = g.zram_orig_mb * g.headroom_mult / 100

unfoldable pub reclaim_gates_pass : ReclaimGates → Gate
reclaim_gates_pass g =
    if ltb g.swap_used (g.threshold_pct * 100)
    then below_threshold
    else if ltb g.zram_used_mb g.min_zram_used_mb
    then little_zram
    else if leb g.mem_available_mb (required_mb g)
    then no_headroom
    else passed

abbrev pub kill_reclaim_cooldown_secs : ℕ
kill_reclaim_cooldown_secs = 120

-- The result of `run_reclaim_helper`: success, or the exit code where there is one.
pub data HelperExit : Type 0 where
  success : HelperExit
  failure : Option ℕ → HelperExit

pub record Answers : Type 0 where
  pub now_secs : ℕ
  pub helper_available : String → Bool
  pub meminfo : MemInfo
  pub zram_used_mb_total : ℕ
  pub zram_orig_mb_total : ℕ
  pub run_reclaim_helper : String → HelperExit

-- `LAST_RECLAIM`, `RECLAIM_DISABLED`, and the runs of the helper with their gates, the newest first.
pub record ReclaimState : Type 0 where
  pub last_reclaim : ℕ
  pub disabled : Bool
  pub runs : List (ℕ × HelperExit × ReclaimGates)

abbrev pub reclaim_helper_candidates : List String
reclaim_helper_candidates = "/usr/local/bin/mgd-zram-reclaim" ∷ "/usr/bin/mgd-zram-reclaim" ∷ []

unfoldable pub resolve_reclaim_helper : (String → Bool) → Option String
resolve_reclaim_helper helper_available = find helper_available reclaim_helper_candidates

unfoldable pub gates_of : CompiledConfig → Answers → ReclaimGates
gates_of cfg a = record {
  swap_used = swap_used_pct a.meminfo;
  zram_used_mb = a.zram_used_mb_total;
  zram_orig_mb = a.zram_orig_mb_total;
  mem_available_mb = a.meminfo.available_kb / 1024;
  threshold_pct = cfg.reclaim_threshold_pct;
  min_zram_used_mb = cfg.reclaim_min_zram_used_mb;
  headroom_mult = cfg.reclaim_headroom_mult;
}

-- The two arms of the `match` on the helper's result.
unfoldable pub record_run : ℕ → ReclaimGates → HelperExit → ReclaimState → ReclaimState
record_run now g success s = record s { last_reclaim = now; runs = (now, success, g) ∷ s.runs }
record_run now g (failure none) s = record s { runs = (now, failure none, g) ∷ s.runs }
record_run now g (failure (some code)) s = record s {
  disabled = s.disabled || (code == 2);
  runs = (now, failure (some code), g) ∷ s.runs;
}

unfoldable pub effective_cooldown : CompiledConfig → Bool → ℕ
effective_cooldown cfg skip_calm_gate =
    if skip_calm_gate
    then min cfg.reclaim_cooldown_secs kill_reclaim_cooldown_secs
    else cfg.reclaim_cooldown_secs

-- From the search for the helper on.
unfoldable pub attempt : CompiledConfig → Answers → Option String → ReclaimState → ReclaimState
attempt cfg a none s = record s { disabled = true }
attempt cfg a (some helper) s = elim (reclaim_gates_pass (gates_of cfg a)) [
  | passed ↦ record_run a.now_secs (gates_of cfg a) (a.run_reclaim_helper helper) s
  | below_threshold ↦ s
  | little_zram ↦ s
  | no_headroom ↦ s
]

unfoldable pub check_proactive_reclaim :
    CompiledConfig → MemoryPressure → Bool → Answers → ReclaimState → ReclaimState
check_proactive_reclaim cfg pressure skip_calm_gate a s =
    if not cfg.proactive_swap_reclaim || s.disabled
    then s
    else if not skip_calm_gate && leb 500 pressure.some_avg60
    then s
    else if not (s.last_reclaim == 0)
        && ltb (a.now_secs - s.last_reclaim) (effective_cooldown cfg skip_calm_gate)
    then s
    else attempt cfg a (resolve_reclaim_helper a.helper_available) s
