-- ===== src/Process.antt =====
-- mgd/src/monitor/process.rs: a process as the monitors report it.
pub mod Stat
use lmkd_linux.Prelude.{ℕ, String, Option}
use lmkd_linux.Prelude.Int.{ℤ}
use lmkd_linux.Types.{Pid, Kb}

pub record Process : Type 0 where
  pub pid : Pid
  pub name : String
  pub exe_basename : Option String
  pub rss_kb : Kb
  pub swap_kb : Kb
  pub oom_score : ℤ
  pub cgroup_path : Option String
  -- hundredths of a percent
  pub cpu_pct : ℕ
  pub majflt : ℕ
  pub cmdline : String
