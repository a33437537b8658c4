-- ===== src/Plugins/Observed.antt =====
-- mgd/src/plugin_server.rs: what is read back of an observation, and the release of the active window.
use lmkd_linux.Prelude.{
  ℕ, ◌-◌, ◌≤◌, ◌≡◌, refl, ap, ◌∙◌, Bool, true, false, ◌&&◌, not, Option, none, some, ◌==◌, ltb,
  nat_eq, ==_iff, arith, if◌then◌else◌,
}
use lmkd_linux.Prelude.Maps.{lookup, retain_keys, lookup-insert, lookup-retain_keys}
use lmkd_linux.Types.{Pid}
use lmkd_linux.Time.{Instant}
use lmkd_linux.Execute.{is_success}
use lmkd_linux.Signals.{unfreeze_checked}
use lmkd_linux.Registry.Frozen as Frozen
use lmkd_linux.Registry.Laws.{delete-is_frozen}
use lmkd_linux.Plugins.{
  Metric, SingleProcessGpuMemory, no_memory, active_window, GpuCache, is_live, memory_of, stats_of,
  get_gpu_stats, set_metric, set_gpu_observation, Server, System, release_window,
  process_plugin_line,
}

-- What is kept of an entry at one time is what is read of it then.
stats_of-live :
    (now : Instant) (o : Option (SingleProcessGpuMemory × Instant))
    → memory_of (if is_live now o then o else none) ≡ stats_of now o
unfolding is_live stats_of memory_of
stats_of-live now none = refl
stats_of-live now (some (s, at)) = ground arith

-- What is dropped at one time has expired at any later one.
stats_of-later :
    (now later : Instant) (o : Option (SingleProcessGpuMemory × Instant))
    → now ≤ later
    → stats_of later (if is_live now o then o else none) ≡ stats_of later o
unfolding is_live stats_of
stats_of-later now later none h = refl
stats_of-later now later (some (s, at)) h = ground (arith, h)

-- What is read of a process, no earlier than an observation: for the process observed, what was read at
-- the observation with the one figure set, until 30 seconds have passed; for any other, what would be
-- read without the observation.
pub get_gpu_stats-set_gpu_observation :
    (now later : Instant) (pid other : Pid) (metric : Metric) (kb : ℕ) (c : GpuCache)
    → now ≤ later
    → get_gpu_stats later other (set_gpu_observation now pid metric kb c) ≡ (
        if pid == other
        then (if ltb (later - now) 30000000000
            then set_metric metric kb (get_gpu_stats now pid c)
            else no_memory)
        else get_gpu_stats later other c)
unfolding get_gpu_stats set_gpu_observation stats_of
get_gpu_stats-set_gpu_observation now later pid other metric kb c h =
    ap (stats_of later)
      (lookup-insert pid other (set_metric metric kb (memory_of (lookup pid live)), now) live)
    ∙ by_pid (pid == other)
  where
    live : GpuCache
    live = retain_keys (λ p. is_live now (lookup p c)) c

    old : memory_of (lookup pid live) ≡ stats_of now (lookup pid c)
    old =
        ap memory_of (lookup-retain_keys (λ p. is_live now (lookup p c)) pid c)
        ∙ stats_of-live now (lookup pid c)

    rest : stats_of later (lookup other live) ≡ stats_of later (lookup other c)
    rest =
        ap (stats_of later) (lookup-retain_keys (λ p. is_live now (lookup p c)) other c)
        ∙ stats_of-later now later (lookup other c) h

    by_pid :
        (b : Bool)
        → stats_of later (
            if b
            then some (set_metric metric kb (memory_of (lookup pid live)), now)
            else lookup other live)
          ≡ (if b
              then (if ltb (later - now) 30000000000
                  then set_metric metric kb (stats_of now (lookup pid c))
                  else no_memory)
              else stats_of later (lookup other c))
    by_pid true = ap (λ m. stats_of later (some (set_metric metric kb m, now))) old ∙ refl
    by_pid false = rest

-- When the active window becomes that of a process, it is the foreground process, and it is frozen no more
-- if it was continued or is gone; no other process is concerned.
pub active_window-is_frozen :
    (sys : System) (pid other : Pid) (s : Server)
    → let after = process_plugin_line sys (some (active_window (some pid))) s in
      (after.active_foreground_pid ≡ some pid)
      × (Frozen.is_frozen other after.frozen ≡ (
          Frozen.is_frozen other s.frozen
          && not (
              pid == other
              && is_success
                  (unfreeze_checked
                    (sys.read_start_time pid)
                    (sys.continued pid)
                    pid
                    (Frozen.start_time pid s.frozen)).0)))
unfolding process_plugin_line release_window
active_window-is_frozen sys pid other s =
    ground (arith, delete-is_frozen pid other s.frozen, ==_iff pid other)
