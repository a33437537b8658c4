-- ===== src/Plugins.antt =====
-- mgd/src/plugin_server.rs and mgd-common/src/protocol.rs: what plugins report and ask for. A line is the
-- message that it parses to, a measured value the u64 that it is cast to, and a thread that is started
-- runs at once.
pub mod Observed
use lmkd_linux.Prelude.{
  ℕ, ◌-◌, ◌*◌, String, Bool, true, false, Option, none, some, List, [], ◌∷◌, map, keep, length, min,
  ltb, nat_eq, if◌then◌else◌,
}
use lmkd_linux.Prelude.Maps.{lookup, insert, retain_keys}
use lmkd_linux.Types.{Pid, Kb, kb_sum}
use lmkd_linux.Time.{Instant, duration_since, as_secs, from_secs}
use lmkd_linux.Execute.{is_success}
use lmkd_linux.Signals.{unfreeze_checked}
use lmkd_linux.Registry.Frozen as Frozen

pub data Metric : Type 0 where
  gpu_resident_kb gpu_shared_kb gpu_total_kb gpu_purgeable_kb rss_kb : Metric
  custom : String → Metric

pub data PluginAction : Type 0 where
  restart_process : String → PluginAction
  freeze_pid kill_pid : Pid → PluginAction

pub record SingleProcessGpuMemory : Type 0 where
  pub resident_kb : ℕ
  pub shared_kb : ℕ
  pub total_kb : ℕ
  pub purgeable_kb : ℕ

pub data PluginMessage : Type 0 where
  identify : String → PluginMessage
  observation : Metric → Option Pid → ℕ → PluginMessage
  action_request : PluginAction → PluginMessage
  query_gpu : Pid → PluginMessage
  active_window : Option Pid → PluginMessage

pub data CoreMessage : Type 0 where
  action_response : PluginAction → Bool → CoreMessage
  gpu_observation : Pid → SingleProcessGpuMemory → CoreMessage

abbrev pub no_memory : SingleProcessGpuMemory
no_memory = record { resident_kb = 0; shared_kb = 0; total_kb = 0; purgeable_kb = 0 }

abbrev pub gpu_cache_ttl : ℕ
gpu_cache_ttl = from_secs 30

abbrev pub GpuCache : Type 0
GpuCache = List (Pid × (SingleProcessGpuMemory × Instant))

abbrev pub is_fresh : Instant → Instant → Bool
is_fresh now at = ltb (duration_since now at) gpu_cache_ttl

-- Whether the process has an observation that has not expired.
unfoldable pub is_live : Instant → Option (SingleProcessGpuMemory × Instant) → Bool
is_live now none = false
is_live now (some (s, at)) = is_fresh now at

-- The observation, with the default where there is none.
unfoldable pub stats_of :
    Instant → Option (SingleProcessGpuMemory × Instant) → SingleProcessGpuMemory
stats_of now none = no_memory
stats_of now (some (s, at)) = if is_fresh now at then s else no_memory

unfoldable pub get_gpu_stats : Instant → Pid → GpuCache → SingleProcessGpuMemory
get_gpu_stats now pid c = stats_of now (lookup pid c)

unfoldable pub get_gpu_kb : Instant → Pid → GpuCache → Kb
get_gpu_kb now pid c = (get_gpu_stats now pid c).resident_kb

unfoldable pub set_metric : Metric → ℕ → SingleProcessGpuMemory → SingleProcessGpuMemory
set_metric gpu_resident_kb kb s = record s { resident_kb = kb }
set_metric gpu_shared_kb kb s = record s { shared_kb = kb }
set_metric gpu_total_kb kb s = record s { total_kb = kb }
set_metric gpu_purgeable_kb kb s = record s { purgeable_kb = kb }
set_metric rss_kb kb s = s
set_metric (custom name) kb s = s

-- `or_insert_with` the default.
unfoldable pub memory_of : Option (SingleProcessGpuMemory × Instant) → SingleProcessGpuMemory
memory_of none = no_memory
memory_of (some (s, at)) = s

-- What has expired leaves the cache first; `retain` looks at the entry of each key.
unfoldable pub set_gpu_observation : Instant → Pid → Metric → ℕ → GpuCache → GpuCache
set_gpu_observation now pid metric kb c =
    let live = retain_keys (λ p. is_live now (lookup p c)) c in
    insert pid (set_metric metric kb (memory_of (lookup pid live)), now) live

-- The entries that have not expired.
unfoldable pub live_entries : Instant → GpuCache → GpuCache
live_entries now c = keep (λ e. is_fresh now e.1.1) c

-- Resident less shared, over all processes.
unfoldable pub get_total_gpu_kb : Instant → GpuCache → Kb
get_total_gpu_kb now c =
    kb_sum (map (λ e. e.1.0.resident_kb - e.1.0.shared_kb) (live_entries now c))

newest : Instant → GpuCache → Option ℕ
newest now [] = none
newest now (e ∷ c) =
    let age = as_secs (duration_since now e.1.1) in
    elim (newest now c) [ none ↦ some age | some a ↦ some (min age a) ]

-- The count of processes, their pressure, and the age of the newest observation.
unfoldable pub gpu_cache_snapshot : Instant → GpuCache → ℕ × Kb × Option ℕ
unfolding newest
gpu_cache_snapshot now c =
    (length (live_entries now c), get_total_gpu_kb now c, newest now (live_entries now c))

-- The cache, the foreground process, the registry, the messages sent to all plugins and the processes that
-- were terminated for one, the newest first.
pub record Server : Type 0 where
  pub gpu_cache : GpuCache
  pub active_foreground_pid : Option Pid
  pub frozen : Frozen.FrozenRegistry
  pub broadcasts : List CoreMessage
  pub terminated : List Pid

pub record System : Type 0 where
  pub now : Instant
  pub read_start_time : Pid → Option ℕ
  pub continued : Pid → Bool

unfoldable pub observe : Instant → Metric → Pid → ℕ → Server → Server
observe now gpu_resident_kb pid value s = record s {
  gpu_cache = set_gpu_observation now pid gpu_resident_kb value s.gpu_cache;
}
observe now gpu_shared_kb pid value s = record s {
  gpu_cache = set_gpu_observation now pid gpu_shared_kb value s.gpu_cache;
}
observe now gpu_total_kb pid value s = record s {
  gpu_cache = set_gpu_observation now pid gpu_total_kb value s.gpu_cache;
}
observe now gpu_purgeable_kb pid value s = record s {
  gpu_cache = set_gpu_observation now pid gpu_purgeable_kb value s.gpu_cache;
}
observe now rss_kb pid value s = s
observe now (custom name) pid value s = s

-- The foreground process leaves the registry once it is continued, or gone.
unfoldable pub release_window : System → Pid → Server → Server
release_window sys pid s =
    let result =
      (unfreeze_checked (sys.read_start_time pid) (sys.continued pid) pid
        (Frozen.start_time pid s.frozen)).0 in
    if Frozen.is_frozen pid s.frozen
    then (if is_success result then record s { frozen = Frozen.delete pid s.frozen } else s)
    else s

unfoldable pub terminate_for : PluginAction → List Pid → List Pid
terminate_for (restart_process name) log = log
terminate_for (freeze_pid pid) log = log
terminate_for (kill_pid pid) log = pid ∷ log

-- A line that is no message is dropped.
unfoldable pub process_plugin_line : System → Option PluginMessage → Server → Server
process_plugin_line sys none s = s
process_plugin_line sys (some (identify name)) s = s
process_plugin_line sys (some (observation metric none value)) s = s
process_plugin_line sys (some (observation metric (some pid) value)) s =
    observe sys.now metric pid value s
process_plugin_line sys (some (action_request action)) s = record s {
  terminated = terminate_for action s.terminated;
  broadcasts = action_response action true ∷ s.broadcasts;
}
process_plugin_line sys (some (query_gpu pid)) s = record s {
  broadcasts = gpu_observation pid (get_gpu_stats sys.now pid s.gpu_cache) ∷ s.broadcasts;
}
process_plugin_line sys (some (active_window none)) s = record s { active_foreground_pid = none }
process_plugin_line sys (some (active_window (some pid))) s =
    release_window sys pid (record s { active_foreground_pid = some pid })
