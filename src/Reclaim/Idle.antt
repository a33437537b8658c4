-- ===== src/Reclaim/Idle.antt =====
-- mgd/src/evictor/idle_reclaim.rs: memory of processes that stay in the background goes to zram, and in
-- the end they are stopped. What the system answers during a check is a record, with one clock reading.
pub mod Timers
pub mod Spacing
pub mod Frozen
pub mod Grown
use lmkd_linux.Prelude.{
  ℕ, ◌+◌, ◌-◌, ◌*◌, ◌/◌, ◌%◌, ◌^◌, zero, suc, Bool, true, false, ◌&&◌, ◌||◌, not, String, Option,
  none, some, List, [], ◌∷◌, find, any, take, ltb, leb, ◌==◌, nat_eq, is_same, unwrap_or,
  if◌then◌else◌,
}
use lmkd_linux.Prelude.Maps.{lookup, insert, remove, contains_key, retain_keys}
use lmkd_linux.Types.{Pid, Kb, bytes, percent_of}
use lmkd_linux.Time.{Instant, duration_since, as_secs}
use lmkd_linux.Meminfo.{MemInfo}
use lmkd_linux.Process.{Process}
use lmkd_linux.Config.{CompiledConfig}
use lmkd_linux.Decision.{get_priority}
use lmkd_linux.Execute.{OpResult, success, fail}
use lmkd_linux.Registry.Frozen as Registry
use lmkd_linux.Signals.{Signal, sigcont, freeze_checked, send_signal}
use lmkd_linux.Reclaim.{
  Cgroups, WriteLog, ReclaimOutcome, reclaimed, skipped, blocked, failed, try_reclaim_cgroup,
}

pub record IdleReclaimConfig : Type 0 where
  -- hundredths of a percent
  pub max_swap_occupancy_pct : ℕ
  pub idle_sec : ℕ
  pub rss_min_mb : ℕ
  pub reclaim_pct : ℕ
  pub important_enabled : Bool
  pub important_min_priority : ℕ
  pub important_idle_sec : ℕ
  pub important_pct : ℕ

unfoldable pub idle_config : CompiledConfig → IdleReclaimConfig
idle_config cfg = record {
  max_swap_occupancy_pct = cfg.idle_reclaim_max_swap_occupancy_pct;
  idle_sec = cfg.idle_reclaim_sec;
  rss_min_mb = cfg.idle_reclaim_rss_min_mb;
  reclaim_pct = cfg.idle_reclaim_pct;
  important_enabled = cfg.idle_reclaim_important_enabled;
  important_min_priority = cfg.idle_reclaim_important_min_priority;
  important_idle_sec = cfg.idle_reclaim_important_idle_sec;
  important_pct = cfg.idle_reclaim_important_pct;
}

-- A share of the swap, as the used and the total amount; no swap is (0, 1).
abbrev pub Share : Type 0
Share = Kb × Kb

abbrev pub exceeds : Share → ℕ → Bool
exceeds (used, total) pct = ltb (pct * total) (used * 10000)

-- `Kb(mb * 1024)`.
abbrev pub rss_min : ℕ → Kb
rss_min mb = mb * 1024 % 2 ^ 64

-- Whether a process that has been in the background for `duration` seconds is a candidate, and for
-- how many bytes.
unfoldable pub candidate_bytes : IdleReclaimConfig → CompiledConfig → ℕ → Process → Option ℕ
candidate_bytes idle_cfg cfg duration p =
    let prio = get_priority p.name p.exe_basename cfg in
    if leb 50 prio
    then (if ltb p.rss_kb (rss_min idle_cfg.rss_min_mb)
        then none
        else if ltb duration idle_cfg.idle_sec
        then none
        else some (bytes (percent_of p.rss_kb idle_cfg.reclaim_pct)))
    else if idle_cfg.important_enabled && leb idle_cfg.important_min_priority prio
    then (if ltb p.rss_kb (rss_min idle_cfg.rss_min_mb)
        then none
        else if ltb duration idle_cfg.important_idle_sec
        then none
        else some (bytes (percent_of p.rss_kb idle_cfg.important_pct)))
    else none

unfoldable pub background_secs : Instant → List (Pid × Instant) → Pid → ℕ
background_secs now tracker pid = elim (lookup pid tracker) [
  | none ↦ 0
  | some t ↦ as_secs (duration_since now t)
]

unfoldable pub select_from :
    Instant
    → List Process
    → Option Pid
    → List (Pid × Instant)
    → IdleReclaimConfig
    → CompiledConfig
    → List (Pid × ℕ)
select_from now [] active_pid tracker idle_cfg cfg = []
select_from now (p ∷ ps) active_pid tracker idle_cfg cfg =
    let rest = select_from now ps active_pid tracker idle_cfg cfg in
    if is_same active_pid p.pid
    then rest
    else elim (candidate_bytes idle_cfg cfg (background_secs now tracker p.pid) p) [
      | none ↦ rest
      | some size ↦ (p.pid, size) ∷ rest
    ]

unfoldable pub select_idle_candidates :
    Instant
    → List Process
    → Option Pid
    → List (Pid × Instant)
    → Share
    → IdleReclaimConfig
    → CompiledConfig
    → List (Pid × ℕ)
select_idle_candidates now procs active_pid tracker swap_used idle_cfg cfg =
    if exceeds swap_used idle_cfg.max_swap_occupancy_pct
    then []
    else select_from now procs active_pid tracker idle_cfg cfg

-- The start time is read by the loop, by `freeze_checked` and by the registry.
pub record System : Type 0 where
  pub cgroups : Cgroups
  pub now : Instant
  pub unix_now : ℕ
  pub read_start_time : Pid → Option ℕ
  pub checked_start_time : Pid → Option ℕ
  pub registered_start_time : Pid → Option ℕ
  pub stop_delivered : Pid → Bool

-- The two trackers, `LAST_IDLE_RECLAIM`, the registry of frozen processes, the writes, the reclaims
-- that succeeded and the signals sent, the newest first.
pub record IdleState : Type 0 where
  pub pid_tracker : List (Pid × Instant)
  pub freeze_pid_tracker : List (Pid × Instant)
  pub last_idle_reclaim : ℕ
  pub frozen : Registry.FrozenRegistry
  pub writes : WriteLog
  pub reclaims : List (Pid × Instant)
  pub signals : List (Pid × List Signal)

-- `pid_tracker.entry(p.pid).or_insert_with(now)` for all but the foreground process.
unfoldable pub start_clocks :
    Instant → Option Pid → List Process → List (Pid × Instant) → List (Pid × Instant)
start_clocks now active_pid [] m = m
start_clocks now active_pid (p ∷ ps) m =
    start_clocks now active_pid ps
      (if is_same active_pid p.pid || contains_key p.pid m then m else insert p.pid now m)

-- The `match` on the outcome.
unfoldable pub settle : System → Pid → ReclaimOutcome → WriteLog → IdleState → IdleState
settle sys pid reclaimed log s = record s {
  writes = log;
  pid_tracker = insert pid sys.now s.pid_tracker;
  last_idle_reclaim = sys.unix_now;
  reclaims = (pid, sys.now) ∷ s.reclaims;
}
settle sys pid skipped log s = record s { writes = log }
settle sys pid blocked log s = record s {
  writes = log;
  pid_tracker = insert pid sys.now s.pid_tracker;
}
settle sys pid (failed e) log s = record s { writes = log }

pub cgroup_of : Pid → List Process → Option String
cgroup_of pid procs = elim (find (λ p. p.pid == pid) procs) [ none ↦ none | some p ↦ p.cgroup_path ]

unfoldable pub reclaim_candidate : System → List Process → Pid × ℕ → IdleState → IdleState
unfolding cgroup_of
reclaim_candidate sys procs (pid, size) s = if size == 0 then s else elim (cgroup_of pid procs) [
  | none ↦ s
  | some path ↦
      let (outcome, log) = try_reclaim_cgroup sys.cgroups path size s.writes in
      settle sys pid outcome log s
]

unfoldable pub reclaim_candidates : System → List Process → List (Pid × ℕ) → IdleState → IdleState
reclaim_candidates sys procs [] s = s
reclaim_candidates sys procs (c ∷ cs) s =
    reclaim_candidates sys procs cs (reclaim_candidate sys procs c s)

-- What follows a successful stop: the registry takes the process, or it is continued.
unfoldable pub register : System → Process → List Signal → IdleState → IdleState × ℕ
register sys p sent s =
    let (frozen, added) =
      Registry.add (sys.registered_start_time p.pid) sys.unix_now p.pid p.name s.frozen in
    if added
    then (
      record s {
        frozen = frozen;
        freeze_pid_tracker = remove p.pid s.freeze_pid_tracker;
        signals = (p.pid, sent) ∷ s.signals;
      },
      1,
    )
    else (
      record s {
        signals = (p.pid, (send_signal true p.pid sigcont).1) ∷ (p.pid, sent) ∷ s.signals;
      },
      0,
    )

unfoldable pub stop_process : System → Process → ℕ → IdleState → IdleState × ℕ
stop_process sys p start_time s =
    let (result, sent) =
      freeze_checked (sys.checked_start_time p.pid) (sys.stop_delivered p.pid) p.pid start_time in
    elim result [
      | success ↦ register sys p sent s
      | fail vanished ↦ (record s { signals = (p.pid, sent) ∷ s.signals }, 0)
    ]

-- The turn of the loop for one process: the state, and 1 if the process was frozen.
unfoldable pub freeze_turn :
    System → CompiledConfig → ℕ → Option Pid → Process → IdleState → IdleState × ℕ
freeze_turn sys cfg freeze_secs active_pid p s =
    let since = unwrap_or (lookup p.pid s.freeze_pid_tracker) sys.now in
    let clocked = record s { freeze_pid_tracker = insert p.pid since s.freeze_pid_tracker } in
    if is_same active_pid p.pid || ltb p.rss_kb (rss_min cfg.idle_reclaim_rss_min_mb)
    then (s, 0)
    else if ltb (as_secs (duration_since sys.now since)) freeze_secs
    then (clocked, 0)
    else elim (sys.read_start_time p.pid) [
      | none ↦ (clocked, 0)
      | some st ↦ stop_process sys p st clocked
    ]

-- The loop stops when `count` processes have been frozen.
unfoldable pub freeze_each :
    System → CompiledConfig → ℕ → Option Pid → List Process → ℕ → IdleState → IdleState
freeze_each sys cfg freeze_secs active_pid [] count s = s
freeze_each sys cfg freeze_secs active_pid (p ∷ ps) count s =
    let (next, froze) = freeze_turn sys cfg freeze_secs active_pid p s in
    let rest = freeze_each sys cfg freeze_secs active_pid ps (count + froze) next in
    if leb 2 count then s else rest

unfoldable pub freeze_idle :
    System → CompiledConfig → Option Pid → List Process → IdleState → IdleState
freeze_idle sys cfg active_pid procs s = elim cfg.idle_reclaim_freeze_after_sec [
  | none ↦ s
  | some freeze_secs ↦ freeze_each sys cfg freeze_secs active_pid procs 0 s
]

abbrev pub is_live : List Process → Pid → Bool
is_live procs pid = any (λ p. p.pid == pid) procs

-- Swap with less than 1500 MB free is left alone.
unfoldable pub swap_is_scarce : MemInfo → Bool
swap_is_scarce m = ltb 0 m.swap_total_kb && ltb (m.swap_free_kb / 1024) 1500

abbrev pub swap_share : MemInfo → Share
swap_share m =
    if ltb 0 m.swap_total_kb then (m.swap_total_kb - m.swap_free_kb, m.swap_total_kb) else (0, 1)

-- From the pruning of the tracker to the last write.
unfoldable pub reclaim_idle :
    System → CompiledConfig → MemInfo → List Process → Option Pid → IdleState → IdleState
reclaim_idle sys cfg m procs active_pid s =
    let kept = retain_keys (is_live procs) s.pid_tracker in
    let candidates =
      select_idle_candidates sys.now procs active_pid kept (swap_share m) (idle_config cfg) cfg in
    reclaim_candidates sys procs (take 3 candidates)
      (record s { pid_tracker = start_clocks sys.now active_pid procs kept })

unfoldable pub check_idle_process_reclaim :
    System → CompiledConfig → MemInfo → List Process → Option Pid → IdleState → IdleState
check_idle_process_reclaim sys cfg m procs active_pid s =
    let after = reclaim_idle sys cfg m procs active_pid s in
    if swap_is_scarce m
    then s
    else freeze_idle sys cfg active_pid procs
        (record after { freeze_pid_tracker = retain_keys (is_live procs) after.freeze_pid_tracker })
