-- ===== src/Tests/Maintenance.antt =====
-- Examples for maintenance.rs.
use lmkd_linux.Prelude.{
  ℕ, ◌≤◌, ◌-◌, ◌≡◌, refl, inl, Bool, true, false, Option, some, [], ◌∷◌, arith,
}
use lmkd_linux.Prelude.Maps.{lookup}
use lmkd_linux.Types.{Pid}
use lmkd_linux.Psi.{MemoryPressure}
use lmkd_linux.Meminfo.{swap_used_pct}
use lmkd_linux.Maintenance.{
  Answers, success, ReclaimState, gates_of, resolve_reclaim_helper, effective_cooldown,
  check_proactive_reclaim,
}
use lmkd_linux.Maintenance.Reclaim.{Affordable, Sound, Spaced, last_success, uncapped, check-Sound}
use lmkd_linux.Config.{auto_kill_idle_after_for}
use lmkd_linux.Maintenance.AutoKill.{Key, key_eq, AutoKill, check_auto_kill_idle}
use lmkd_linux.Maintenance.AutoKill.Quiet
use lmkd_linux.Maintenance.AutoKill.Quiet.{check_auto_kill_idle-Sound, visit_kills}
use lmkd_linux.Tests.Fixtures.{config, process}

abbrev pressure : MemoryPressure
pressure = record {
  some_avg10 = 900;
  some_avg60 = 700;
  some_avg300 = 100;
  some_total = 0;
  full_avg10 = 0;
  full_avg60 = 0;
  full_avg300 = 0;
  full_total = 0;
}

-- Half an hour after the last reclaim, with 3 of 4 GB of swap used and 6 GB available.
abbrev answers : Answers
answers = record {
  now_secs = 10000;
  helper_available = λ path. true;
  meminfo = record {
    available_kb = 6291456;
    total_kb = 16777216;
    swap_free_kb = 1048576;
    swap_total_kb = 4194304;
  };
  zram_used_mb_total = 900;
  zram_orig_mb_total = 2700;
  run_reclaim_helper = λ path. success;
}

abbrev reclaimed : ReclaimState
reclaimed = record {
  last_reclaim = 9800;
  disabled = false;
  runs = (9800, success, gates_of config answers) ∷ [];
}

affordable : Affordable (gates_of config answers)
unfolding gates_of swap_used_pct
affordable = (omega arith, omega arith, omega arith)

reclaimed-Sound : Sound config reclaimed
unfolding Spaced last_success uncapped
reclaimed-Sound = (refl, (λ e. refl), (affordable, refl, inl refl, 0))

check-Sound_example : Sound config (check_proactive_reclaim config pressure true answers reclaimed)
check-Sound_example = check-Sound config pressure true answers reclaimed reclaimed-Sound

past_cooldown : effective_cooldown config true ≤ answers.now_secs - reclaimed.last_reclaim
unfolding effective_cooldown
past_cooldown = omega arith

found : resolve_reclaim_helper answers.helper_available ≡ some "/usr/local/bin/mgd-zram-reclaim"
unfolding resolve_reclaim_helper
found = refl

-- The indexer was last active in second 100, and idles in second 500.
abbrev indexer : Key
indexer = record { pid = 30; start_time = 7 }

abbrev watched : AutoKill
watched = record {
  last_active = (indexer, 100000000000) ∷ [];
  sightings =
      record { key = indexer; time = 500000000000; cpu_pct = 4 }
      ∷ record { key = indexer; time = 100000000000; cpu_pct = 4200 }
      ∷ [];
  kills = [];
}

watched-Sound : Quiet.Sound 500000000000 watched
unfolding lookup
watched-Sound = (
  (omega arith, (omega arith, tt)),
  (λ k t q. ((λ e lt. omega arith), ((λ e lt. ground arith), tt))),
  tt,
  tt,
)

abbrev started : Pid → Option ℕ
started pid = some 7

abbrev thawed : Pid → Bool
thawed pid = false

check_auto_kill_idle-Sound_example : Quiet.Sound 1200000000000 (
    check_auto_kill_idle config started thawed
      (process 30 "indexer" 200000 ∷ [])
      1200000000000
      watched)
check_auto_kill_idle-Sound_example =
    check_auto_kill_idle-Sound config thawed 1200000000000 started
      (process 30 "indexer" 200000 ∷ []) 500000000000 watched (omega arith) watched-Sound

indexer_rule : auto_kill_idle_after_for config "indexer" ≡ some 900
unfolding auto_kill_idle_after_for
indexer_rule = refl

indexer_entry : lookup indexer watched.last_active ≡ some 100000000000
unfolding lookup
indexer_entry = refl
