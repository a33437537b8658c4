-- ===== src/Reclaim/Idle/Frozen.antt =====
-- mgd/src/evictor/idle_reclaim.rs: whom the idle freeze stops.
use lmkd_linux.Prelude.{
  ℕ, ◌≤◌, ◌+◌, ◌≡◌, ◌⊎◌, refl, String, Bool, true, false, Option, none, some, List, [], ◌∷◌, inl,
  inr, nat_eq, is_same, unwrap_or, leb, arith, if◌then◌else◌,
}
use mathlib.Core.Path.{subst}
use lmkd_linux.Prelude.Maps.{lookup, insert, lookup-insert, lookup-remove, length-insert}
use lmkd_linux.Types.{Pid}
use lmkd_linux.Time.{Instant, duration_since, as_secs}
use lmkd_linux.Process.{Process}
use lmkd_linux.Config.{CompiledConfig}
use lmkd_linux.Registry.Frozen as Registry
use lmkd_linux.Reclaim.Idle.{
  rss_min, System, IdleState, register, stop_process, freeze_turn, freeze_each, freeze_idle,
}

-- What the freezes leave alone.
abbrev pub Same : IdleState → IdleState → Type 0
Same s t = (t.pid_tracker ≡ s.pid_tracker) × (t.reclaims ≡ s.reclaims) × (t.writes ≡ s.writes)

module _ (sys : System) (cfg : CompiledConfig) (active_pid : Option Pid) where
  freeze_turn-Same :
      (freeze_secs : ℕ) (p : Process) (s : IdleState)
      → Same s (freeze_turn sys cfg freeze_secs active_pid p s).0
  unfolding freeze_turn stop_process register Registry.add
  freeze_turn-Same freeze_secs p s = ground arith

  freeze_each-Same :
      (freeze_secs : ℕ) (ps : List Process) (count : ℕ) (s : IdleState)
      → Same s (freeze_each sys cfg freeze_secs active_pid ps count s)
  unfolding freeze_each
  freeze_each-Same freeze_secs [] count s = (refl, refl, refl)
  freeze_each-Same freeze_secs (p ∷ ps) count s =
      let turn = freeze_turn sys cfg freeze_secs active_pid p s in
      ground (
        arith,
        freeze_turn-Same freeze_secs p s,
        freeze_each-Same freeze_secs ps (count + turn.1) turn.0,
      )

  pub freeze_idle-timers :
      (procs : List Process) (s : IdleState) → Same s (freeze_idle sys cfg active_pid procs s)
  unfolding freeze_idle
  freeze_idle-timers procs s = by_option cfg.idle_reclaim_freeze_after_sec
    where
      by_option :
          (o : Option ℕ)
          → Same s (elim o [ none ↦ s | some secs ↦ freeze_each sys cfg secs active_pid procs 0 s ])
      by_option none = (refl, refl, refl)
      by_option (some secs) = freeze_each-Same secs procs 0 s

add-count :
    (start : Option ℕ) (now : ℕ) (pid : Pid) (name : String) (r : Registry.FrozenRegistry)
    → let added = Registry.add start now pid name r in
      (Registry.count added.0 ≤ Registry.count r + 1) × (added.1 ≡ false → added.0 ≡ r)
unfolding Registry.add Registry.count
add-count none now pid name r = (omega arith, λ e. refl)
add-count (some st) now pid name r = (
  length-insert pid (record { name = name; frozen_at = now; start_time = st }) r.frozen,
  λ e. ground arith,
)

add-is_frozen :
    (start : Option ℕ) (now : ℕ) (pid other : Pid) (name : String) (r : Registry.FrozenRegistry)
    → Registry.is_frozen other (Registry.add start now pid name r).0 ≡ true
    → (Registry.is_frozen other r ≡ true) ⊎ (pid ≡ other)
unfolding Registry.add Registry.is_frozen
add-is_frozen none now pid other name r h = inl h
add-is_frozen (some st) now pid other name r h = ground (
  arith,
  nat_eq.beq_iff pid other,
  lookup-insert pid other (record { name = name; frozen_at = now; start_time = st }) r.frozen,
)

-- How long the freeze tracker has had the process.
abbrev pub tracked_secs : Instant → List (Pid × Instant) → Pid → ℕ
tracked_secs now m pid = as_secs (duration_since now (unwrap_or (lookup pid m) now))

-- One of the processes is `pid`, large, in the background and tracked for as long as the rule says.
abbrev pub IsIdle :
    Instant → CompiledConfig → Option Pid → ℕ → IdleState → Pid → List Process → Type 0
IsIdle now cfg active_pid secs s pid [] = ⊥
IsIdle now cfg active_pid secs s pid (p ∷ ps) =
    ((p.pid ≡ pid)
      × (is_same active_pid pid ≡ false)
      × (rss_min cfg.idle_reclaim_rss_min_mb ≤ p.rss_kb)
      × (secs ≤ tracked_secs now s.freeze_pid_tracker pid))
    ⊎ IsIdle now cfg active_pid secs s pid ps

module _ (sys : System) (cfg : CompiledConfig) (secs : ℕ) (active_pid : Option Pid) where
  freeze_turn-tracked :
      (p : Process) (s : IdleState) (pid : Pid)
      → tracked_secs sys.now (freeze_turn sys cfg secs active_pid p s).0.freeze_pid_tracker pid
        ≤ tracked_secs sys.now s.freeze_pid_tracker pid
  unfolding freeze_turn stop_process register
  freeze_turn-tracked p s pid = ground (
    arith,
    nat_eq.beq_iff p.pid pid,
    lookup-insert p.pid pid (unwrap_or (lookup p.pid s.freeze_pid_tracker) sys.now)
        s.freeze_pid_tracker,
    lookup-remove p.pid pid
        (insert p.pid (unwrap_or (lookup p.pid s.freeze_pid_tracker) sys.now) s.freeze_pid_tracker),
  )

  -- Who is in the registry after a stop was there before, or is the one that was stopped.
  stop_process-is_frozen :
      (p : Process) (st : ℕ) (s : IdleState) (pid : Pid)
      → Registry.is_frozen pid (stop_process sys p st s).0.frozen ≡ true
      → (Registry.is_frozen pid s.frozen ≡ true) ⊎ (p.pid ≡ pid)
  unfolding stop_process register
  stop_process-is_frozen p st s pid h = ground (
    arith,
    add-is_frozen (sys.registered_start_time p.pid) sys.unix_now p.pid pid p.name s.frozen,
    add-count (sys.registered_start_time p.pid) sys.unix_now p.pid p.name s.frozen,
  )

  stop_process-count :
      (p : Process) (st : ℕ) (s : IdleState)
      → let stop = stop_process sys p st s in
        (Registry.count stop.0.frozen ≤ Registry.count s.frozen + stop.1) × (stop.1 ≤ 1)
  unfolding stop_process register
  stop_process-count p st s =
      ground (arith, add-count (sys.registered_start_time p.pid) sys.unix_now p.pid p.name s.frozen)

  freeze_turn-is_frozen :
      (p : Process) (s : IdleState) (pid : Pid)
      → Registry.is_frozen pid (freeze_turn sys cfg secs active_pid p s).0.frozen ≡ true
      → (Registry.is_frozen pid s.frozen ≡ true)
        ⊎ ((p.pid ≡ pid)
            × (is_same active_pid p.pid ≡ false)
            × (rss_min cfg.idle_reclaim_rss_min_mb ≤ p.rss_kb)
            × (secs ≤ tracked_secs sys.now s.freeze_pid_tracker p.pid))
  unfolding freeze_turn
  freeze_turn-is_frozen p s pid h = ground (
    arith,
    stop_process-is_frozen p (unwrap_or (sys.read_start_time p.pid) 0)
        (record s {
          freeze_pid_tracker =
              insert p.pid (unwrap_or (lookup p.pid s.freeze_pid_tracker) sys.now)
                s.freeze_pid_tracker;
        })
        pid,
  )

  freeze_turn-count :
      (p : Process) (s : IdleState)
      → let turn = freeze_turn sys cfg secs active_pid p s in
        (Registry.count turn.0.frozen ≤ Registry.count s.frozen + turn.1) × (turn.1 ≤ 1)
  unfolding freeze_turn
  freeze_turn-count p s = ground (
    arith,
    stop_process-count p (unwrap_or (sys.read_start_time p.pid) 0) (record s {
      freeze_pid_tracker =
          insert p.pid (unwrap_or (lookup p.pid s.freeze_pid_tracker) sys.now) s.freeze_pid_tracker;
    }),
  )

  freeze_each-count :
      (ps : List Process) (count : ℕ) (s : IdleState)
      → count ≤ 2
      → Registry.count (freeze_each sys cfg secs active_pid ps count s).frozen + count
        ≤ Registry.count s.frozen + 2
  unfolding freeze_each
  freeze_each-count [] count s h = omega arith
  freeze_each-count (p ∷ ps) count s h =
      let turn = freeze_turn sys cfg secs active_pid p s in
      ground (arith, freeze_turn-count p s, freeze_each-count ps (count + turn.1) turn.0)

  IsIdle-mono :
      (pid : Pid) (ps : List Process) (s t : IdleState)
      → tracked_secs sys.now t.freeze_pid_tracker pid
        ≤ tracked_secs sys.now s.freeze_pid_tracker pid
      → IsIdle sys.now cfg active_pid secs t pid ps
      → IsIdle sys.now cfg active_pid secs s pid ps
  IsIdle-mono pid [] s t le h = h
  IsIdle-mono pid (p ∷ ps) s t le (inl h) = inl (h.0, h.1, h.2, omega (arith, le, h.3))
  IsIdle-mono pid (p ∷ ps) s t le (inr h) = inr (IsIdle-mono pid ps s t le h)

  freeze_each-IsIdle :
      (ps : List Process) (count : ℕ) (s : IdleState) (pid : Pid)
      → Registry.is_frozen pid (freeze_each sys cfg secs active_pid ps count s).frozen ≡ true
      → (Registry.is_frozen pid s.frozen ≡ true) ⊎ IsIdle sys.now cfg active_pid secs s pid ps
  unfolding freeze_each
  freeze_each-IsIdle [] count s pid h = inl h
  freeze_each-IsIdle (p ∷ ps) count s pid h =
      by_count (leb 2 count) h (freeze_each-IsIdle ps (count + turn.1) turn.0 pid)
    where
      turn : IdleState × ℕ
      turn = freeze_turn sys cfg secs active_pid p s

      Result : Type 0
      Result =
          (Registry.is_frozen pid s.frozen ≡ true)
          ⊎ IsIdle sys.now cfg active_pid secs s pid (p ∷ ps)

      by_turn : Registry.is_frozen pid turn.0.frozen ≡ true → Result
      by_turn h = elim (freeze_turn-is_frozen p s pid h) [
        | inl old ↦ inl old
        | inr i ↦ inr (
            inl (
              i.0,
              subst (λ x. is_same active_pid x ≡ false) i.0 i.1,
              i.2,
              subst (λ x. secs ≤ tracked_secs sys.now s.freeze_pid_tracker x) i.0 i.3,
            ))
      ]

      by_count :
          (b : Bool)
          → Registry.is_frozen pid
              (if b
                then s
                else freeze_each sys cfg secs active_pid ps (count + turn.1) turn.0).frozen
            ≡ true
          → (Registry.is_frozen pid
                  (freeze_each sys cfg secs active_pid ps (count + turn.1) turn.0).frozen
                ≡ true
              → (Registry.is_frozen pid turn.0.frozen ≡ true)
                ⊎ IsIdle sys.now cfg active_pid secs turn.0 pid ps)
          → Result
      by_count true h ih = inl h
      by_count false h ih = elim (ih h) [
        | inl old ↦ by_turn old
        | inr i ↦ inr (inr (IsIdle-mono pid ps s turn.0 (freeze_turn-tracked p s pid) i))
      ]

freeze_idle-count-le :
    (sys : System) (cfg : CompiledConfig) (active_pid : Option Pid) (procs : List Process)
    (s : IdleState)
    → Registry.count (freeze_idle sys cfg active_pid procs s).frozen ≤ Registry.count s.frozen + 2
unfolding freeze_idle
freeze_idle-count-le sys cfg active_pid procs s = by_option cfg.idle_reclaim_freeze_after_sec
  where
    by_option :
        (o : Option ℕ)
        → let after : IdleState = elim o [
          | none ↦ s
          | some secs ↦ freeze_each sys cfg secs active_pid procs 0 s
        ] in
          Registry.count after.frozen ≤ Registry.count s.frozen + 2
    by_option none = omega arith
    by_option (some secs) =
        omega (arith, freeze_each-count sys cfg secs active_pid procs 0 s (omega arith))

-- A process that the freezes of a check add to the registry is not the foreground process, is large
-- enough, and has been in the tracker for as long as the configuration asks; none is added when the
-- configuration gives no time. At most two are added.
pub freeze_idle-IsIdle :
    (sys : System) (cfg : CompiledConfig) (active_pid : Option Pid) (procs : List Process)
    (s : IdleState)
    → (Registry.count (freeze_idle sys cfg active_pid procs s).frozen ≤ Registry.count s.frozen + 2)
      × ((pid : Pid)
          → Registry.is_frozen pid (freeze_idle sys cfg active_pid procs s).frozen ≡ true
          → (Registry.is_frozen pid s.frozen ≡ true)
            ⊎ ((secs : ℕ) × (cfg.idle_reclaim_freeze_after_sec ≡ some secs)
                × IsIdle sys.now cfg active_pid secs s pid procs))
unfolding freeze_idle
freeze_idle-IsIdle sys cfg active_pid procs s = (
  freeze_idle-count-le sys cfg active_pid procs s,
  λ pid. by_option pid cfg.idle_reclaim_freeze_after_sec,
)
  where
    by_option :
        (pid : Pid) (o : Option ℕ)
        → (let after : IdleState = elim o [
          | none ↦ s
          | some secs ↦ freeze_each sys cfg secs active_pid procs 0 s
        ] in
            Registry.is_frozen pid after.frozen ≡ true)
        → (Registry.is_frozen pid s.frozen ≡ true)
          ⊎ ((secs : ℕ) × (o ≡ some secs) × IsIdle sys.now cfg active_pid secs s pid procs)
    by_option pid none h = inl h
    by_option pid (some secs) h =
        elim (freeze_each-IsIdle sys cfg secs active_pid procs 0 s pid h) [
          | inl old ↦ inl old
          | inr i ↦ inr (secs, refl, i)
        ]
