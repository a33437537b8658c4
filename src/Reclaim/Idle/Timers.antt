-- ===== src/Reclaim/Idle/Timers.antt =====
-- mgd/src/evictor/idle_reclaim.rs: the timer of a process is also its cooldown.
use mathlib.Core.Path.{subst}
use lmkd_linux.Prelude.{
  ℕ, ◌≤◌, ◌+◌, ◌*◌, min, ◌≡◌, ◌≢◌, sym, Bool, true, false, ◌||◌, String, Option, none, some, List,
  [], ◌∷◌, inl, inr, All, All-map, map, ◌==◌, nat_eq, is_same, Bool-cases, arith, if◌then◌else◌,
}
use lmkd_linux.Prelude.Maps.{
  lookup, insert, contains_key, retain_keys, lookup-insert, lookup-retain_keys,
}
use lmkd_linux.Types.{Pid}
use lmkd_linux.Time.{Instant, nanos_per_sec}
use lmkd_linux.Process.{Process}
use lmkd_linux.Reclaim.{
  WriteLog, ReclaimOutcome, reclaimed, skipped, blocked, failed, try_reclaim_cgroup,
}
use lmkd_linux.Reclaim.Idle.{
  IdleReclaimConfig, System, IdleState, start_clocks, settle, reclaim_candidate, reclaim_candidates,
  cgroup_of,
}

abbrev pub Reclaims : Type 0
Reclaims = List (Pid × Instant)

abbrev pub gap : IdleReclaimConfig → ℕ
gap c = min c.idle_sec c.important_idle_sec

-- The reclaims of the process lie `g` seconds back.
abbrev pub Ready : ℕ → Instant → Pid → Reclaims → Type 0
Ready g now pid rs = All (λ r. r.0 ≡ pid → r.1 + g * nanos_per_sec ≤ now) rs

abbrev pub Spaced : ℕ → Reclaims → Type 0
Spaced g [] = Unit
Spaced g (r ∷ rs) = Ready g r.1 r.0 rs × Spaced g rs

-- No reclaim of a process is younger than its timer.
abbrev pub Timed : List (Pid × Instant) → Reclaims → Type 0
Timed tracker rs =
    (pid : Pid) (u : Instant) → lookup pid tracker ≡ some u → All (λ r. r.0 ≡ pid → r.1 ≤ u) rs

abbrev pub Sound : ℕ → Instant → IdleState → Type 0
Sound g now s =
    All (λ r. r.1 ≤ now) s.reclaims × Timed s.pid_tracker s.reclaims × Spaced g s.reclaims

abbrev pub Distinct : List Pid → Type 0
Distinct [] = Unit
Distinct (x ∷ xs) = All (λ y. y ≢ x) xs × Distinct xs

pub moved-Sound :
    (g : ℕ) (now : Instant) (s t : IdleState)
    → t.pid_tracker ≡ s.pid_tracker
    → t.reclaims ≡ s.reclaims
    → Sound g now s
    → Sound g now t
moved-Sound g now s t e f h =
    subst (λ rs. All (λ r. r.1 ≤ now) rs × Timed t.pid_tracker rs × Spaced g rs) (sym f)
      (h.0, subst (λ m. Timed m s.reclaims) (sym e) h.1, h.2)

All-past :
    (now : Instant) (pid : Pid) (rs : Reclaims)
    → All (λ r. r.1 ≤ now) rs
    → All (λ r. r.0 ≡ pid → r.1 ≤ now) rs
All-past now pid rs h = All-map (λ r. r.1 ≤ now) (λ r. r.0 ≡ pid → r.1 ≤ now) rs (λ r le e. le) h

insert-Timed :
    (now : Instant) (pid : Pid) (tracker : List (Pid × Instant)) (rs : Reclaims)
    → All (λ r. r.1 ≤ now) rs
    → Timed tracker rs
    → Timed (insert pid now tracker) rs
insert-Timed now pid tracker rs bound old k u h = elim (Bool-cases (nat_eq.beq pid k)) [
  | inl same ↦
      let e : now ≡ u = ground (arith, lookup-insert pid k now tracker) in
      subst (λ v. All (λ r. r.0 ≡ k → r.1 ≤ v) rs) e (All-past now k rs bound)
  | inr other ↦ old k u (ground (arith, lookup-insert pid k now tracker))
]

-- The newest reclaim is at `now`, the timer too.
reclaimed-Timed :
    (now : Instant) (pid : Pid) (tracker : List (Pid × Instant)) (rs : Reclaims)
    → All (λ r. r.1 ≤ now) rs
    → Timed tracker rs
    → Timed (insert pid now tracker) ((pid, now) ∷ rs)
reclaimed-Timed now pid tracker rs bound old k u h = (
  (λ e. ground (arith, lookup-insert pid k now tracker)),
  insert-Timed now pid tracker rs bound old k u h,
)

pub retain_keys-Timed :
    (p : Pid → Bool) (tracker : List (Pid × Instant)) (rs : Reclaims)
    → Timed tracker rs
    → Timed (retain_keys p tracker) rs
retain_keys-Timed p tracker rs old k u h = old k u (ground (arith, lookup-retain_keys p k tracker))

pub start_clocks-Timed :
    (now : Instant) (active_pid : Option Pid) (procs : List Process)
    (tracker : List (Pid × Instant)) (rs : Reclaims)
    → All (λ r. r.1 ≤ now) rs
    → Timed tracker rs
    → Timed (start_clocks now active_pid procs tracker) rs
unfolding start_clocks
start_clocks-Timed now active_pid [] tracker rs bound old = old
start_clocks-Timed now active_pid (p ∷ ps) tracker rs bound old =
    start_clocks-Timed now active_pid ps _ rs bound
      (by_test (is_same active_pid p.pid || contains_key p.pid tracker))
  where
    by_test : (b : Bool) → Timed (if b then tracker else insert p.pid now tracker) rs
    by_test true = old
    by_test false = insert-Timed now p.pid tracker rs bound old

module _ (g : ℕ) (sys : System) (procs : List Process) where
  settle-Sound :
      (pid : Pid) (outcome : ReclaimOutcome) (log : WriteLog) (s : IdleState)
      → Ready g sys.now pid s.reclaims
      → Sound g sys.now s
      → Sound g sys.now (settle sys pid outcome log s)
  unfolding settle
  settle-Sound pid reclaimed log s ready h = (
    (omega arith, h.0),
    reclaimed-Timed sys.now pid s.pid_tracker s.reclaims h.0 h.1,
    (ready, h.2),
  )
  settle-Sound pid skipped log s ready h = h
  settle-Sound pid blocked log s ready h =
      (h.0, insert-Timed sys.now pid s.pid_tracker s.reclaims h.0 h.1, h.2)
  settle-Sound pid (failed e) log s ready h = h

  settle-Ready :
      (pid other : Pid) (outcome : ReclaimOutcome) (log : WriteLog) (s : IdleState)
      → other ≢ pid
      → Ready g sys.now other s.reclaims
      → Ready g sys.now other (settle sys pid outcome log s).reclaims
  unfolding settle
  settle-Ready pid other reclaimed log s ne ready = ((λ e. absurd (ne (ground (arith, e)))), ready)
  settle-Ready pid other skipped log s ne ready = ready
  settle-Ready pid other blocked log s ne ready = ready
  settle-Ready pid other (failed e) log s ne ready = ready

  -- What the turn of a candidate keeps.
  abbrev Kept : Pid → IdleState → IdleState → Type 0
  Kept pid s after =
      Sound g sys.now after
      × ((other : Pid)
          → other ≢ pid
          → Ready g sys.now other s.reclaims
          → Ready g sys.now other after.reclaims)

  reclaim_candidate-Kept :
      (c : Pid × ℕ) (s : IdleState)
      → Ready g sys.now c.0 s.reclaims
      → Sound g sys.now s
      → Kept c.0 s (reclaim_candidate sys procs c s)
  unfolding reclaim_candidate
  reclaim_candidate-Kept (pid, size) s ready h = by_size (size == 0) (cgroup_of pid procs)
    where
      by_size :
          (zero : Bool) (cgroup : Option String)
          → Kept pid s (
              if zero then s else elim cgroup [
                | none ↦ s
                | some path ↦
                    let (outcome, log) = try_reclaim_cgroup sys.cgroups path size s.writes in
                    settle sys pid outcome log s
              ])
      by_size true cgroup = (h, λ other ne r. r)
      by_size false none = (h, λ other ne r. r)
      by_size false (some path) =
          let t = try_reclaim_cgroup sys.cgroups path size s.writes in
          (settle-Sound pid t.0 t.1 s ready h, λ other. settle-Ready pid other t.0 t.1 s)

  pub reclaim_candidates-Sound :
      (cs : List (Pid × ℕ)) (s : IdleState)
      → Distinct (map (λ c. c.0) cs)
      → All (λ c. Ready g sys.now c.0 s.reclaims) cs
      → Sound g sys.now s
      → Sound g sys.now (reclaim_candidates sys procs cs s)
  unfolding reclaim_candidates
  reclaim_candidates-Sound [] s d ready h = h
  reclaim_candidates-Sound (c ∷ cs) s d ready h =
      let k = reclaim_candidate-Kept c s ready.0 h in
      reclaim_candidates-Sound cs (reclaim_candidate sys procs c s) d.1 (still cs d.0 ready.1 k.1)
        k.0
    where
      still :
          (cs : List (Pid × ℕ))
          → All (λ y. y ≢ c.0) (map (λ c. c.0) cs)
          → All (λ c. Ready g sys.now c.0 s.reclaims) cs
          → ((other : Pid)
              → other ≢ c.0
              → Ready g sys.now other s.reclaims
              → Ready g sys.now other (reclaim_candidate sys procs c s).reclaims)
          → All (λ d. Ready g sys.now d.0 (reclaim_candidate sys procs c s).reclaims) cs
      still [] d r k = tt
      still (x ∷ xs) d r k = (k x.0 d.0 r.0, still xs d.1 r.1 k)
