-- ===== src/Meminfo.antt =====
-- mgd/src/monitor/meminfo.rs: the memory figures of a cycle.
pub mod Parse
pub mod Printed
use lmkd_linux.Prelude.{ℕ, ◌-◌, ◌*◌, ◌/◌, ◌==◌, if◌then◌else◌}
use lmkd_linux.Types.{Kb}

pub record MemInfo : Type 0 where
  pub available_kb : Kb
  pub total_kb : Kb
  pub swap_free_kb : Kb
  pub swap_total_kb : Kb

-- In millionths of the swap, rounded down: 950000 is the source's 95.0.
unfoldable pub swap_used_pct : MemInfo → ℕ
swap_used_pct m =
    if m.swap_total_kb == 0
    then 0
    else (m.swap_total_kb - m.swap_free_kb) * 1000000 / m.swap_total_kb
