-- ===== src/Tests/Recovery.antt =====
-- Examples for recovery.rs, health.rs and killer.rs.
use lmkd_linux.Prelude.{◌≡◌, refl, true, false, some, [], ◌∷◌, arith, ℕ, ◌<◌, ◌⊎◌, ◌↔◌, none}
use lmkd_linux.Meminfo.{MemInfo}
use lmkd_linux.Registry.Frozen
use lmkd_linux.Registry.Frozen.{FrozenRegistry}
use lmkd_linux.Registry.Checkpointed
use lmkd_linux.Registry.Checkpointed.{CheckpointRegistry, CheckpointEntry}
use lmkd_linux.Prelude.Sorting.{sort, place}
use lmkd_linux.Signals.{sigterm_signal, sigkill_signal, sigterm, Victim}
use lmkd_linux.Signals.Guards.{sigterm_escalates}
use lmkd_linux.Recovery.{HealthBaseline, System, safe_to_restore, unfreeze_pass}
use lmkd_linux.Recovery.Release.{Distinct, Pass, unfreeze_pass-Pass}
use lmkd_linux.Recovery.Restore.{first_entry}

abbrev stubborn : Victim
stubborn = record {
  original_start = some 77;
  later_start = some 77;
  term_delivered = true;
  kill_delivered = true;
  exists_at = λ k. true;
}

abbrev system : System
system = record { start_of = λ pid. some 70; delivered = λ pid. true; restored = λ dir. false }

abbrev baseline : HealthBaseline
baseline = record { avg_available_kb = 4000000000000; samples = 60 }

abbrev roomy : MemInfo
roomy = record { available_kb = 5000000; total_kb = 16000000; swap_free_kb = 0; swap_total_kb = 0 }

abbrev two_frozen : FrozenRegistry
two_frozen = record {
  frozen =
      (40, record { name = "helper"; frozen_at = 900; start_time = 70 })
      ∷ (30, record { name = "indexer"; frozen_at = 995; start_time = 71 })
      ∷ [];
  saved = [];
}

two-Distinct : Distinct (Frozen.frozen_pids two_frozen)
unfolding Frozen.frozen_pids
two-Distinct = (((λ e. ground arith), tt), (tt, tt))

unfreeze_pass-Pass_example :
    Pass system
      (safe_to_restore baseline 5000000 16000000 0)
      1000
      0
      (Frozen.frozen_pids two_frozen)
      two_frozen
      (unfreeze_pass system baseline roomy 1000 two_frozen)
unfreeze_pass-Pass_example = unfreeze_pass-Pass system baseline roomy 1000 two_frozen two-Distinct

abbrev light : CheckpointEntry
light = record { name = "helper"; snapshot_dir = "/b"; rss = 100000; attempts = 0 }

abbrev dumped_two : CheckpointRegistry
dumped_two = record {
  checkpointed =
      (30, record { name = "indexer"; snapshot_dir = "/a"; rss = 200000; attempts = 1 })
      ∷ (40, light)
      ∷ [];
  saved = [];
}

light_first : first_entry dumped_two ≡ some (40, light)
unfolding Checkpointed.entries_lightest_first Checkpointed.lighter sort place
light_first = refl

sigterm_escalates_example : ((sigterm stubborn).1 ≡ sigterm_signal ∷ sigkill_signal ∷ []) ↔ (
    (true ≡ true)
    × ((k : ℕ) → k < 10 → true ≡ true)
    × ((stubborn.original_start ≡ none) ⊎ (some 77 ≡ stubborn.original_start)))
sigterm_escalates_example = sigterm_escalates stubborn
