-- ===== src/Tests/Plugins.antt =====
-- Witnesses for the plugins.
use lmkd_linux.Prelude.{◌≡◌, refl, true, ◌&&◌, not, some, none, [], ◌∷◌, ◌==◌, arith, nat_eq}
use lmkd_linux.Prelude.Maps.{lookup, insert, retain_keys}
use lmkd_linux.Execute.{is_success}
use lmkd_linux.Registry.Frozen as Frozen
use lmkd_linux.Signals.{unfreeze_checked}
use lmkd_linux.Plugins.{
  gpu_shared_kb, no_memory, active_window, GpuCache, is_live, memory_of, stats_of, get_gpu_stats,
  set_metric, set_gpu_observation, Server, System, process_plugin_line,
}
use lmkd_linux.Plugins.Observed.{get_gpu_stats-set_gpu_observation, active_window-is_frozen}

-- Process 7 was observed at 5 s and process 8 at 40 s.
abbrev cache : GpuCache
cache =
    (7, (record no_memory { resident_kb = 900 }, 5000000000))
    ∷ (8, (record no_memory { resident_kb = 300 }, 40000000000))
    ∷ []

get_gpu_stats-set_gpu_observation_example :
    get_gpu_stats 60000000000 8 (set_gpu_observation 41000000000 8 gpu_shared_kb 50 cache)
    ≡ record no_memory { resident_kb = 300; shared_kb = 50 }
unfolding get_gpu_stats stats_of set_metric lookup
get_gpu_stats-set_gpu_observation_example =
    get_gpu_stats-set_gpu_observation 41000000000 60000000000 8 8 gpu_shared_kb 50 cache
      (omega arith)

-- The observation of process 7 has expired by then.
expired : lookup 7 (set_gpu_observation 41000000000 8 gpu_shared_kb 50 cache) ≡ none
unfolding set_gpu_observation is_live memory_of set_metric lookup insert retain_keys
expired = refl

abbrev system : System
system = record { now = 0; read_start_time = λ pid. some 700; continued = λ pid. true }

abbrev server : Server
server = record {
  gpu_cache = [];
  active_foreground_pid = none;
  frozen = Frozen.load ((10, record { name = "editor"; frozen_at = 900; start_time = 700 }) ∷ []);
  broadcasts = [];
  terminated = [];
}

active_window-is_frozen_example :
    let after = process_plugin_line system (some (active_window (some 10))) server in
    (after.active_foreground_pid ≡ some 10)
    × (Frozen.is_frozen 10 after.frozen ≡ (
        Frozen.is_frozen 10 server.frozen
        && not (
            10 == 10
            && is_success
                (unfreeze_checked (some 700) true 10 (Frozen.start_time 10 server.frozen)).0)))
active_window-is_frozen_example = active_window-is_frozen system 10 10 server
