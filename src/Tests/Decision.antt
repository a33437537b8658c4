-- ===== src/Tests/Decision.antt =====
-- Examples for decision.rs, psi.rs and types.rs.
use lmkd_linux.Prelude.{◌<◌, ◌≡◌, refl, true, false, none, All, arith, ◌≤◌, inr}
use lmkd_linux.Prelude.Int.{pos, ◌-ℤ◌}
use lmkd_linux.Psi.{high, MemoryPressure, default_thresholds, valid, critical}
use lmkd_linux.Config.{priority_for, is_protected}
use lmkd_linux.Decision.{
  Ratio, decide, candidates, plan, calculate_ram_deficit_kb, i64_limit, sub_i64, as_i64,
  determine_process_action,
}
use lmkd_linux.Decision.Loop.{Greedy}
use lmkd_linux.Decision.Severity.{severity, determine_process_action_mono}
use lmkd_linux.Decision.Safety.{Justified, plan-Justified, plan-Greedy}
use lmkd_linux.Tests.Fixtures.{config, procs, env}

plan-Justified_example :
    All (Justified env config procs) (plan high env procs 800000 16000000 false config)
plan-Justified_example = plan-Justified high env procs 800000 16000000 false config

deficit_800 : calculate_ram_deficit_kb 800000 16000000 1000 ≡ pos 800000
unfolding calculate_ram_deficit_kb sub_i64 as_i64 ◌-ℤ◌
deficit_800 = refl

small : All (λ p. p.rss_kb < i64_limit) procs
small = (omega arith, (omega arith, (omega arith, (omega arith, (omega arith, tt)))))

plan-Greedy_example :
    Greedy
      (decide high env config false)
      800000
      0
      (candidates high env config procs)
      (plan high env procs 800000 16000000 false config)
plan-Greedy_example =
    plan-Greedy high env procs 800000 16000000 false config 800000 refl deficit_800 small

abbrev swapped : Ratio
swapped = record { num = 3; den = 4 }

kwin_priority : priority_for config "kwin" none < 20
unfolding priority_for
kwin_priority = omega arith

kwin_unprotected : is_protected config "kwin" ≡ false
unfolding is_protected
kwin_unprotected = refl

abbrev reading : MemoryPressure
reading = record {
  some_avg10 = 3000;
  some_avg60 = 0;
  some_avg300 = 0;
  some_total = 0;
  full_avg10 = 100;
  full_avg60 = 0;
  full_avg300 = 0;
  full_total = 0;
}

abbrev worse : MemoryPressure
worse = record reading { some_avg10 = 5500 }

default_valid : valid default_thresholds ≡ true
unfolding valid
default_valid = refl

determine_process_action_mono_example :
    severity (determine_process_action high 70 swapped none false false)
    ≤ severity (determine_process_action critical 70 swapped none false false)
determine_process_action_mono_example =
    determine_process_action_mono 70 swapped none false false high critical (inr refl) (omega arith)
