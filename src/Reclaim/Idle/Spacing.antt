-- ===== src/Reclaim/Idle/Spacing.antt =====
-- mgd/src/evictor/idle_reclaim.rs: the reclaims of a process are spaced out.
use lmkd_linux.Prelude.{
  All-take, ℕ, zero, suc, ◌≤◌, ◌+◌, ◌*◌, ◌≡◌, ◌≢◌, refl, Bool, true, false, Option, none, some,
  List, [], ◌∷◌, All, All-map, take, map, nat_eq, is_same, arith, if◌then◌else◌,
}
use lmkd_linux.Prelude.Maps.{lookup, retain_keys}
use lmkd_linux.Types.{Pid}
use lmkd_linux.Time.{Instant, nanos_per_sec, duration_since, as_secs}
use lmkd_linux.Meminfo.{MemInfo}
use lmkd_linux.Process.{Process}
use lmkd_linux.Config.{CompiledConfig}
use lmkd_linux.Reclaim.Idle.Frozen.{freeze_idle-timers}
use lmkd_linux.Reclaim.Idle.{
  IdleReclaimConfig, idle_config, Share, candidate_bytes, background_secs, select_from,
  select_idle_candidates, System, IdleState, start_clocks, exceeds, is_live, swap_share,
  reclaim_idle, swap_is_scarce, freeze_idle, check_idle_process_reclaim,
}
use lmkd_linux.Reclaim.Idle.Timers.{
  Reclaims, gap, Ready, Timed, Sound, Distinct, moved-Sound, retain_keys-Timed, start_clocks-Timed,
  reclaim_candidates-Sound,
}

-- A candidate has been in the background for the smaller of the two times.
candidate_bytes-le :
    (idle_cfg : IdleReclaimConfig) (cfg : CompiledConfig) (duration : ℕ) (p : Process) (size : ℕ)
    → candidate_bytes idle_cfg cfg duration p ≡ some size
    → gap idle_cfg ≤ duration
unfolding candidate_bytes
candidate_bytes-le idle_cfg cfg duration p size h = ground arith

Ready-of_timer :
    (g : ℕ) (now u : Instant) (pid : Pid) (rs : Reclaims)
    → g ≤ as_secs (duration_since now u)
    → All (λ r. r.1 ≤ now) rs
    → All (λ r. r.0 ≡ pid → r.1 ≤ u) rs
    → Ready g now pid rs
Ready-of_timer g now u pid [] le bound timed = tt
Ready-of_timer g now u pid (r ∷ rs) le bound timed = (
  (λ e. let t : r.1 ≤ u = timed.0 e in omega (arith, le, bound.0, t)),
  Ready-of_timer g now u pid rs le bound.1 timed.1,
)

take-ne :
    (pid : Pid) (n : ℕ) (cs : List (Pid × ℕ))
    → All (λ y. y ≢ pid) (map (λ c. c.0) cs)
    → All (λ y. y ≢ pid) (map (λ c. c.0) (take n cs))
take-ne pid zero cs h = tt
take-ne pid (suc n) [] h = tt
take-ne pid (suc n) (c ∷ cs) h = (h.0, take-ne pid n cs h.1)

take-Distinct :
    (n : ℕ) (cs : List (Pid × ℕ))
    → Distinct (map (λ c. c.0) cs)
    → Distinct (map (λ c. c.0) (take n cs))
take-Distinct zero cs h = tt
take-Distinct (suc n) [] h = tt
take-Distinct (suc n) (c ∷ cs) h = (take-ne c.0 n cs h.0, take-Distinct n cs h.1)

module _ (now : Instant) (active_pid : Option Pid) (tracker : List (Pid × Instant))
    (idle_cfg : IdleReclaimConfig) (cfg : CompiledConfig) where
  background-Ready :
      (pid : Pid) (rs : Reclaims)
      → All (λ r. r.1 ≤ now) rs
      → Timed tracker rs
      → gap idle_cfg ≤ background_secs now tracker pid
      → Ready (gap idle_cfg) now pid rs
  unfolding background_secs
  background-Ready pid rs bound timed le = by_entry (lookup pid tracker) (timed pid) le
    where
      by_entry :
          (o : Option Instant)
          → ((u : Instant) → o ≡ some u → All (λ r. r.0 ≡ pid → r.1 ≤ u) rs)
          → gap idle_cfg ≤ elim o [ none ↦ 0 | some t ↦ as_secs (duration_since now t) ]
          → Ready (gap idle_cfg) now pid rs
      by_entry none f le =
          All-map (λ r. r.1 ≤ now) (λ r. r.0 ≡ pid → r.1 + gap idle_cfg * nanos_per_sec ≤ now) rs
            (λ r b e. omega (arith, b, le)) bound
      by_entry (some u) f le = Ready-of_timer (gap idle_cfg) now u pid rs le bound (f u refl)

  select_from-ne :
      (pid : Pid) (procs : List Process)
      → All (λ y. y ≢ pid) (map (λ p. p.pid) procs)
      → All (λ y. y ≢ pid) (map (λ c. c.0) (select_from now procs active_pid tracker idle_cfg cfg))
  unfolding select_from
  select_from-ne pid [] h = tt
  select_from-ne pid (p ∷ ps) h = ground (arith, select_from-ne pid ps h.1)

  select_from-Distinct :
      (procs : List Process)
      → Distinct (map (λ p. p.pid) procs)
      → Distinct (map (λ c. c.0) (select_from now procs active_pid tracker idle_cfg cfg))
  unfolding select_from
  select_from-Distinct [] h = tt
  select_from-Distinct (p ∷ ps) h =
      ground (arith, select_from-Distinct ps h.1, select_from-ne p.pid ps h.0)

  select_from-Ready :
      (procs : List Process) (rs : Reclaims)
      → All (λ r. r.1 ≤ now) rs
      → Timed tracker rs
      → All
          (λ c. Ready (gap idle_cfg) now c.0 rs)
          (select_from now procs active_pid tracker idle_cfg cfg)
  unfolding select_from
  select_from-Ready [] rs bound timed = tt
  select_from-Ready (p ∷ ps) rs bound timed =
      by_test (is_same active_pid p.pid) (candidate_bytes idle_cfg cfg duration p)
        (candidate_bytes-le idle_cfg cfg duration p) (select_from-Ready ps rs bound timed)
    where
      duration : ℕ
      duration = background_secs now tracker p.pid

      rest : List (Pid × ℕ)
      rest = select_from now ps active_pid tracker idle_cfg cfg

      by_test :
          (active : Bool) (o : Option ℕ)
          → ((size : ℕ) → o ≡ some size → gap idle_cfg ≤ duration)
          → All (λ c. Ready (gap idle_cfg) now c.0 rs) rest
          → All
              (λ c. Ready (gap idle_cfg) now c.0 rs)
              (if active then rest else elim o [ none ↦ rest | some size ↦ (p.pid, size) ∷ rest ])
      by_test true o f ih = ih
      by_test false none f ih = ih
      by_test false (some size) f ih = (background-Ready p.pid rs bound timed (f size refl), ih)

  -- The first three candidates have different pids, and their last reclaims lie far enough back.
  select_idle_candidates_lem :
      (procs : List Process) (share : Share) (rs : Reclaims)
      → Distinct (map (λ p. p.pid) procs)
      → All (λ r. r.1 ≤ now) rs
      → Timed tracker rs
      → let chosen =
          take 3 (select_idle_candidates now procs active_pid tracker share idle_cfg cfg) in
        Distinct (map (λ c. c.0) chosen) × All (λ c. Ready (gap idle_cfg) now c.0 rs) chosen
  unfolding select_idle_candidates
  select_idle_candidates_lem procs share rs d bound timed =
      by_share (exceeds share idle_cfg.max_swap_occupancy_pct)
    where
      from : List (Pid × ℕ)
      from = select_from now procs active_pid tracker idle_cfg cfg

      by_share :
          (full : Bool)
          → let chosen = take 3 (if full then [] else from) in
            Distinct (map (λ c. c.0) chosen) × All (λ c. Ready (gap idle_cfg) now c.0 rs) chosen
      by_share true = (tt, tt)
      by_share false = (
        take-Distinct 3 from (select_from-Distinct procs d),
        All-take (λ c. Ready (gap idle_cfg) now c.0 rs) 3 from
            (select_from-Ready procs rs bound timed),
      )

reclaim_idle-Sound :
    (sys : System) (cfg : CompiledConfig) (m : MemInfo) (procs : List Process)
    (active_pid : Option Pid) (s : IdleState)
    → Distinct (map (λ p. p.pid) procs)
    → Sound (gap (idle_config cfg)) sys.now s
    → Sound (gap (idle_config cfg)) sys.now (reclaim_idle sys cfg m procs active_pid s)
unfolding reclaim_idle
reclaim_idle-Sound sys cfg m procs active_pid s distinct h =
    reclaim_candidates-Sound (gap (idle_config cfg)) sys procs _ clocked c.0 c.1
      (h.0, start_clocks-Timed sys.now active_pid procs kept s.reclaims h.0 kept-Timed, h.2)
  where
    kept : List (Pid × Instant)
    kept = retain_keys (is_live procs) s.pid_tracker

    clocked : IdleState
    clocked = record s { pid_tracker = start_clocks sys.now active_pid procs kept }

    kept-Timed : Timed kept s.reclaims
    kept-Timed = retain_keys-Timed (is_live procs) s.pid_tracker s.reclaims h.1

    chosen : List (Pid × ℕ)
    chosen =
        take 3 (
          select_idle_candidates sys.now procs active_pid kept (swap_share m) (idle_config cfg) cfg)

    c :
        Distinct (map (λ c. c.0) chosen)
        × All (λ c. Ready (gap (idle_config cfg)) sys.now c.0 s.reclaims) chosen
    c =
        select_idle_candidates_lem sys.now active_pid kept (idle_config cfg) cfg procs
          (swap_share m) s.reclaims distinct h.0 kept-Timed

pub later-Sound :
    (g : ℕ) (before now : Instant) (s : IdleState) → before ≤ now → Sound g before s → Sound g now s
later-Sound g before now s le h = (
  All-map (λ r. r.1 ≤ before) (λ r. r.1 ≤ now) s.reclaims (λ r b. omega (arith, b, le)) h.0,
  h.1,
  h.2,
)

-- A check at a time that is not before the record keeps it sound: two reclaims of a process lie at
-- least the smaller of the two idle times apart, provided that the listed processes have different
-- pids.
pub check_idle_process_reclaim-Sound :
    (sys : System) (cfg : CompiledConfig) (m : MemInfo) (procs : List Process)
    (active_pid : Option Pid) (before : Instant) (s : IdleState)
    → Distinct (map (λ p. p.pid) procs)
    → before ≤ sys.now
    → Sound (gap (idle_config cfg)) before s
    → Sound
        (gap (idle_config cfg))
        sys.now
        (check_idle_process_reclaim sys cfg m procs active_pid s)
unfolding check_idle_process_reclaim
check_idle_process_reclaim-Sound sys cfg m procs active_pid before s distinct le h =
    by_guard (swap_is_scarce m)
  where
    g : ℕ
    g = gap (idle_config cfg)

    later : Sound g sys.now s
    later = later-Sound g before sys.now s le h

    after : IdleState
    after = reclaim_idle sys cfg m procs active_pid s

    pruned : IdleState
    pruned = record after {
      freeze_pid_tracker = retain_keys (is_live procs) after.freeze_pid_tracker;
    }

    by_guard :
        (scarce : Bool)
        → Sound g sys.now (if scarce then s else freeze_idle sys cfg active_pid procs pruned)
    by_guard true = later
    by_guard false =
        let e = freeze_idle-timers sys cfg active_pid procs pruned in
        moved-Sound g sys.now pruned (freeze_idle sys cfg active_pid procs pruned) e.0 e.1
          (reclaim_idle-Sound sys cfg m procs active_pid s distinct later)
