-- ===== src/Tests/Background.antt =====
-- Examples for throttle.rs.
use lmkd_linux.Prelude.{
  ◌≡◌, ◌≢◌, refl, Option, String, Bool, true, false, some, none, List, [], ◌∷◌, string_eq, arith,
}
use lmkd_linux.Prelude.Maps.{lookup, insert, contains_key}
use lmkd_linux.Config.{priority_for}
use lmkd_linux.Decision.{get_priority}
use lmkd_linux.Psi.{high}
use lmkd_linux.Process.{Process}
use lmkd_linux.Throttle.{
  unthrottled, full, weight, cpu_max, Files, ThrottleManager, current_state, min_priority, excluded,
  group_step, target_state, should_force_release, cgroup_groups, find_foreground_cgroup, update,
}
use lmkd_linux.Throttle.Limits.{Recorded, last_weight, last_capped}
use lmkd_linux.Throttle.Forgotten.{update_forgets}
use lmkd_linux.MemCap
use lmkd_linux.MemCap.{MemCapManager, limit, cap_bytes}
use lmkd_linux.MemCap.Caps.{Synced, in_force, update-Synced}
use lmkd_linux.Tests.Fixtures.{config, process, procs}

abbrev files : Files
files = record { weight_ok = λ path. true; max_ok = λ path. true }

-- The indexer has been in the background since second 1, and is capped.
abbrev throttled : ThrottleManager
throttled = record {
  states = ("indexer", full) ∷ [];
  tracker = ("indexer", 1000000000) ∷ [];
  writes = cpu_max "indexer" true ∷ weight "indexer" 1 ∷ [];
}

abbrev indexers : List Process
indexers = process 30 "indexer" 200000 ∷ []

abbrev front : Option String
front = some "editor"

still_full :
    current_state "indexer"
      (group_step files config (some "editor") 500 20000000000 "indexer" indexers throttled)
    ≡ full
unfolding current_state group_step target_state should_force_release min_priority excluded lookup
    insert get_priority priority_for
still_full = refl

still_throttled :
    current_state "indexer"
      (group_step files config (some "editor") 500 20000000000 "indexer" indexers throttled)
    ≢ unthrottled
still_throttled e = ground (arith, still_full)

editor_in_front : find_foreground_cgroup procs (some 20) ≡ some "editor"
unfolding find_foreground_cgroup
editor_in_front = refl

throttled-Recorded : Recorded "helper" throttled
unfolding last_weight last_capped
throttled-Recorded e = (refl, refl)

helper_unthrottled : current_state "helper" throttled ≡ unthrottled
unfolding current_state lookup
helper_unthrottled = refl

-- All of the indexer's processes are frozen, so none of them is listed.
indexer_unlisted : contains_key "indexer" (cgroup_groups (process 20 "editor" 500000 ∷ [])) ≡ false
unfolding cgroup_groups lookup insert
indexer_unlisted = refl

update_forgets_example :
    let next =
      update files
        (process 20 "editor" 500000 ∷ [])
        (some 20)
        true
        500
        config
        20000000000
        throttled in
    (current_state "indexer" next ≡ unthrottled)
    × (last_weight "indexer" next.writes ≡ last_weight "indexer" throttled.writes)
    × (last_capped "indexer" next.writes ≡ last_capped "indexer" throttled.writes)
update_forgets_example =
    update_forgets files (process 20 "editor" 500000 ∷ []) (some 20) 500 config 20000000000
      throttled "indexer" indexer_unlisted

abbrev writable : String → Bool
writable = λ (path : String). true

abbrev one_cap : MemCapManager
one_cap = record {
  capped = ("indexer", 4096) ∷ [];
  tracker = [];
  writes = limit "indexer" 4096 ∷ [];
}

one_cap-Synced : Synced one_cap
unfolding in_force lookup
one_cap-Synced q = ground arith

update-Synced_example :
    Synced (MemCap.update writable procs (some 20) high config 20000000000 one_cap)
    × Synced (MemCap.restore_all one_cap)
    × ((q : String) → in_force q (MemCap.restore_all one_cap).writes ≡ none)
update-Synced_example =
    update-Synced writable procs (some 20) high config 20000000000 one_cap one_cap-Synced

cap_stays :
    lookup "indexer"
      (MemCap.group_step writable config
        (some "editor")
        20000000000
        "indexer"
        indexers
        one_cap).capped
    ≡ some 4096
unfolding MemCap.group_step lookup min_priority get_priority priority_for
cap_stays = refl
