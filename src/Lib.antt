-- ===== src/Lib.antt =====
-- lmkd-linux: a user-space memory manager for Linux desktops. This library models what its daemon `mgd`
-- decides and does.
--
-- The evictor thread of mgd reads the pressure once per cycle. Psi.antt (mgd/src/monitor/psi.rs) has the
-- readings and their levels; Scoring.antt (mgd/src/evictor/scoring.rs) makes a composite score of them,
-- runs it through a state machine that resists flapping, and overrides the result when swap is full.
-- Decision.antt (mgd/src/engine/decision.rs) plans an action for each process, given the configuration
-- of Config.antt (mgd/src/config/mod.rs), and Execute.antt (mgd/src/evictor/execute.rs) carries the plan
-- out through an `ActionSink`, keeping the registries of Registry (mgd/src/executor/registry.rs).
-- Signals.antt (mgd/src/executor/freezer.rs, killer.rs) is what the sink does to a process.
-- Throttle.antt and MemCap.antt (mgd/src/throttle.rs) hold background cgroups back, Spike.antt
-- (mgd/src/spike_mode.rs) tracks processes whose memory comes in spikes, and LeakGuard.antt
-- (mgd/src/leak_guard.rs, mgd/src/evictor/leak.rs) reaps families of processes that only grow. The
-- recovery thread of Recovery.antt (mgd/src/recovery.rs, mgd/src/engine/health.rs) releases and restores
-- processes once the pressure is normal. Calibrate.antt (mgd/src/engine/calibrate.rs) learns thresholds.
-- Maintenance.antt (mgd/src/maintenance.rs) reclaims swap when it is safe and ends processes that idle.
-- Evictor.antt (mgd/src/evictor/mod.rs) composes one turn of the evictor's loop from these parts.
-- Reclaim.antt (mgd/src/evictor/reclaim_primitive.rs) and its children push memory to swap and drop caches
-- without a plan (mgd/src/evictor/early_reclaim.rs, idle_reclaim.rs, cache_drop.rs, compact_zram.rs);
-- Evictor.CalmTick (idle_timeout_reclaim of idle_reclaim.rs) is the tick without pressure and
-- Evictor.SpikeCycle (mgd/src/evictor/spike.rs) carries out the decisions of the spike tracker.
-- Psi.Parse (mgd/src/monitor/psi.rs, mgd-common/src/psi.rs), Meminfo.Parse (mgd/src/monitor/meminfo.rs,
-- mgd-common/src/meminfo.rs), Process.Stat (mgd-common/src/process.rs) and Zram.antt
-- (mgd/src/monitor/zram.rs, mgd-common/src/zram.rs) read the texts of /proc, CacheWalk.antt
-- (mgd/src/monitor/cache.rs) is the walk that drops the page cache of a tree, and ZramHelper.antt
-- (mgd-zram/src/reclaim.rs) is the helper that empties the zram devices. Ipc.antt (mgd/src/ipc.rs) takes
-- the commands of mgctl that change state and Plugins.antt (mgd/src/plugin_server.rs, mgd-common/src/protocol.rs) the
-- messages of the plugins. PsiPatch.antt (mgctl/src/calibrate.rs) patches the file of the configuration.
-- Types.antt, Process.antt, Meminfo.antt and Time.antt are the data that the parts exchange, and Prelude
-- the lemmas on lists, maps, sorting and texts. The modules under a part's name are its theorems.
--
-- State is a record that each operation takes and returns, under the source's names. A `HashMap` is an
-- association list, and a loop over one goes in its order; a regular expression is the predicate that it
-- decides. What the system answers is a parameter: an oracle over the calls so far in Execute, a record
-- of answers elsewhere. An `Instant` is a number of nanoseconds, one reading for each call.
-- The states also keep logs that the code does not have, for the theorems: the calls made, the signals and
-- writes, the reclaims, and the files that a walk of CacheWalk has counted.
--
-- `u64` sums saturate where the source says so and wrap elsewhere (Zram, Process.Stat, CacheWalk), as the
-- `i64` differences of Decision do. Floating-point
-- values are exact fixed-point numbers: percentages of the kernel and of the configuration in hundredths
-- (two digits, as the kernel prints them), swap shares in millionths, scores in hundred-millionths. Every
-- loop is structural recursion on the list it walks or on its number of polls; there is no fuel.
--
-- A text is the list of its code points, with ASCII white space; the operations of `str` that the parsers
-- use are in Prelude.Text.
--
-- Not modelled: reading files and directories, the TOML of the configuration (the crates toml and regex),
-- the plugin processes, the texts of the daemon's reports, the rest of the command line client, the
-- helpers for CRIU and for the PSI trigger, and the threads.
pub mod Prelude
pub mod Types
pub mod Zram
pub mod ZramHelper
pub mod PsiPatch
pub mod Plugins
pub mod Ipc
pub mod CacheWalk
pub mod Psi
pub mod Config
pub mod Process
pub mod Decision
pub mod Time
pub mod Meminfo
pub mod Scoring
pub mod Registry
pub mod Execute
pub mod LeakGuard
pub mod Maintenance
pub mod Calibrate
pub mod Signals
pub mod Recovery
pub mod Reclaim
pub mod Throttle
pub mod MemCap
pub mod Spike
pub mod Evictor
pub mod Tests
