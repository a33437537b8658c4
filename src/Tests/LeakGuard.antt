-- ===== src/Tests/LeakGuard.antt =====
-- Examples for leak_guard.rs and evictor/leak.rs.
use lmkd_linux.Prelude.{◌+◌, ◌≡◌, ◌≢◌, ◌⊎◌, refl, true, false, none, some, List, [], ◌∷◌, arith}
use lmkd_linux.Types.{kb_sum}
use lmkd_linux.Prelude.Sorting.{sort, place}
use lmkd_linux.Time.{from_secs}
use lmkd_linux.Process.{Process}
use lmkd_linux.LeakGuard.{
  CountSample, GroupState, Params, prune, never_shrunk, grown_enough, is_leaking, in_cooldown,
  newer, group_step, stale,
}
use lmkd_linux.LeakGuard.Group.{Reaped, group_step-Reaped}
use lmkd_linux.Tests.Fixtures.{process}

abbrev params : Params
params = record {
  window_sec = 300;
  min_group_count = 3;
  min_group_rss = 1000;
  growth_over_window = 2;
  min_samples = 2;
  keep_newest = 1;
  cooldown_sec = 60;
  exclude = [];
}

abbrev samples : List CountSample
samples =
    record { count = 1; taken_at = 1000000000 } ∷ record { count = 2; taken_at = 2000000000 } ∷ []

abbrev group : GroupState
group = record {
  samples = samples;
  cooldown_until = none;
  last_display = "tab";
  last_count = 2;
  last_total_rss = 2000;
  last_leaking = false;
}

abbrev tabs : List Process
tabs = process 12 "tab" 1000 ∷ process 11 "tab" 1000 ∷ process 13 "tab" 1000 ∷ []

group_step-Reaped_example :
    let after = group_step params 3000000000 "tab" tabs group in
    (after.1 ≡ [])
    ⊎ (Reaped 1 "tab" tabs after.1
        × (after.0.last_leaking ≡ true)
        × (in_cooldown 3000000000 none ≡ false)
        × (after.0.cooldown_until ≡ some (3000000000 + from_secs 60)))
group_step-Reaped_example = group_step-Reaped params 3000000000 "tab" tabs group

fired :
    (group_step params 3000000000 "tab" tabs group).1
    ≡ stale "tab" (process 12 "tab" 1000) ∷ stale "tab" (process 11 "tab" 1000) ∷ []
unfolding group_step in_cooldown is_leaking never_shrunk grown_enough prune newer kb_sum sort place
fired = refl

fires : (group_step params 3000000000 "tab" tabs group).1 ≢ []
fires e = ground (arith, fired)
