-- ===== src/Evictor/CalmTick/Paced.antt =====
-- mgd/src/evictor/idle_reclaim.rs: when a calm tick lets the idle reclaim run, and on which processes.
use lmkd_linux.Prelude.{
  ◌≤◌, ◌+◌, ◌*◌, ◌≡◌, ◌⊎◌, inl, inr, refl, ap, ◌∙◌, arith, ℕ, Bool, true, false, not, List, [], ◌∷◌,
  any, keep, All, All-map, All-of_keep, nat_beq, nat_eq, ◌==◌, ltb, Bool-cases, if◌then◌else◌,
}
use lmkd_linux.Types.{Pid}
use lmkd_linux.Time.{Instant, nanos_per_sec, duration_since, as_secs}
use lmkd_linux.Process.{Process}
use lmkd_linux.Config.{CompiledConfig}
use lmkd_linux.Evictor.{excluded_pids}
use lmkd_linux.Evictor.SpikeCycle.{CycleState, run_spike_cycle}
use lmkd_linux.Reclaim.Idle.{IdleState, check_idle_process_reclaim}
use lmkd_linux.Reclaim.Idle.Timers.{Reclaims}
use lmkd_linux.Reclaim.Idle.Grown.{check_idle_process_reclaim-Q}
use lmkd_linux.Evictor.CalmTick.{TickState, Tick, idle_procs, idle_step, idle_timeout_reclaim}

-- Two reclaims have the same time, or lie the cooldown apart.
abbrev pub Apart : ℕ → Reclaims → Type 0
Apart cooldown [] = Unit
Apart cooldown (r ∷ rs) =
    All (λ o. (o.1 ≡ r.1) ⊎ (o.1 + cooldown * nanos_per_sec ≤ r.1)) rs × Apart cooldown rs

-- No reclaim is younger than the last check either.
abbrev pub Paced : ℕ → Instant → Reclaims → Type 0
Paced cooldown last rs = All (λ r. r.1 ≤ last) rs × Apart cooldown rs

abbrev pub reclaims_of : Pid → IdleState → Reclaims
reclaims_of q s = keep (λ r. r.0 == q) s.reclaims

-- During a check at `now`: the reclaims are those of the check, or lie the cooldown back.
abbrev During : ℕ → Instant → Reclaims → Type 0
During cooldown now rs =
    All (λ o. (o.1 ≡ now) ⊎ (o.1 + cooldown * nanos_per_sec ≤ now)) rs × Apart cooldown rs

During-add :
    (cooldown : ℕ) (now : Instant) (pid : Pid) (rs : Reclaims)
    → During cooldown now rs
    → During cooldown now ((pid, now) ∷ rs)
During-add cooldown now pid rs h = ((inl refl, h.0), (h.0, h.1))

During-Paced :
    (cooldown : ℕ) (now : Instant) (rs : Reclaims) → During cooldown now rs → Paced cooldown now rs
During-Paced cooldown now rs h =
    (All-map _ (λ r. r.1 ≤ now) rs (λ r le. ground (arith, le)) h.0, h.1)

Paced-During :
    (cooldown : ℕ) (last now : Instant) (rs : Reclaims)
    → last ≤ now
    → ltb (as_secs (duration_since now last)) cooldown ≡ false
    → Paced cooldown last rs
    → During cooldown now rs
Paced-During cooldown last now rs le e h =
    (All-map (λ r. r.1 ≤ last) _ rs (λ r b. inr (ground (arith, b, le, e))) h.0, h.1)

All-Unit : (ps : List Process) → All {0, 0} (λ p. Unit) ps
All-Unit [] = tt
All-Unit (p ∷ ps) = (tt, All-Unit ps)

-- A process that the filter leaves is not excluded.
idle_procs-other :
    (q : Pid) (excluded : List Pid) (p : Process)
    → any (λ x. nat_beq x q) excluded ≡ true
    → not (any (λ x. nat_beq x p.pid) excluded) ≡ true
    → (p.pid == q) ≡ false
idle_procs-other q excluded p e kept = elim (Bool-cases (p.pid == q)) [
  | inl same ↦
      let pid_eq : p.pid ≡ q = ground (arith, same) in
      absurd (cc (ap (λ x. any (λ y. nat_beq y x) excluded) pid_eq, e, kept))
  | inr other ↦ other
]

idle_procs-free :
    (q : Pid) (excluded : List Pid) (procs : List Process)
    → any (λ x. nat_beq x q) excluded ≡ true
    → All (λ p. (p.pid == q) ≡ false) (idle_procs excluded procs)
unfolding idle_procs
idle_procs-free q excluded procs e =
    All-map _ (λ p. (p.pid == q) ≡ false) (idle_procs excluded procs)
      (λ p kept. idle_procs-other q excluded p e kept)
      (All-of_keep (λ p. not (any (λ x. nat_beq x p.pid) excluded)) procs)

module _ (cfg : CompiledConfig) (k : Tick) (q : Pid) (s : TickState) where
  -- The spike cycle runs first.
  abbrev cycled : CycleState
  cycled =
      run_spike_cycle k.spike cfg s.idle.frozen k.mem.available_kb k.procs k.manual_release s.cycle

  abbrev Goal : TickState → Type 0
  Goal after =
      Paced cfg.idle_reclaim_global_cooldown_sec after.last_check after.idle.reclaims
      × ((cfg.idle_reclaim_enabled ≡ true) ⊎ (after.idle ≡ s.idle))
      × ((any (λ x. nat_beq x q) (excluded_pids s.idle.frozen cycled.tracker false) ≡ false)
          ⊎ (reclaims_of q after.idle ≡ reclaims_of q s.idle))

  abbrev plan_procs : List Process
  plan_procs = idle_procs (excluded_pids s.idle.frozen cycled.tracker false) k.procs

  abbrev checked : IdleState
  checked =
      check_idle_process_reclaim k.reclaim cfg k.later_mem plan_procs k.spike.foreground_pid s.idle

  checked-During :
      During cfg.idle_reclaim_global_cooldown_sec k.reclaim.now s.idle.reclaims
      → During cfg.idle_reclaim_global_cooldown_sec k.reclaim.now checked.reclaims
  checked-During h =
      check_idle_process_reclaim-Q (λ pid. Unit)
        (During cfg.idle_reclaim_global_cooldown_sec k.reclaim.now) k.reclaim
        (λ pid rs m d. During-add cfg.idle_reclaim_global_cooldown_sec k.reclaim.now pid rs d) cfg
        k.later_mem plan_procs k.spike.foreground_pid s.idle (All-Unit _) h

  checked-others :
      any (λ x. nat_beq x q) (excluded_pids s.idle.frozen cycled.tracker false) ≡ true
      → reclaims_of q checked ≡ reclaims_of q s.idle
  checked-others e =
      check_idle_process_reclaim-Q (λ pid. (pid == q) ≡ false)
        (λ rs. keep (λ r. r.0 == q) rs ≡ reclaims_of q s.idle) k.reclaim
        (λ pid rs m d. keep-other pid k.reclaim.now rs m ∙ d) cfg k.later_mem plan_procs
        k.spike.foreground_pid s.idle
        (idle_procs-free q (excluded_pids s.idle.frozen cycled.tracker false) k.procs e) refl
    where
      keep-other :
          (pid : Pid) (now : Instant) (rs : Reclaims)
          → (pid == q) ≡ false
          → keep (λ r. r.0 == q) ((pid, now) ∷ rs) ≡ keep (λ r. r.0 == q) rs
      keep-other pid now rs m = rw (m)

  checked-Goal :
      cfg.idle_reclaim_enabled ≡ true
      → During cfg.idle_reclaim_global_cooldown_sec k.reclaim.now s.idle.reclaims
      → Goal (record s { cycle = cycled; idle = checked; last_check = k.reclaim.now })
  checked-Goal on h = (
    During-Paced cfg.idle_reclaim_global_cooldown_sec k.reclaim.now checked.reclaims
        (checked-During h),
    inl on,
    elim (Bool-cases (any (λ x. nat_beq x q) (excluded_pids s.idle.frozen cycled.tracker false))) [
      | inl e ↦ inr (checked-others e)
      | inr e ↦ inl e
    ],
  )

  -- Two reclaims on record have the same time, or lie the cooldown apart, and none is younger than
  -- the last check: a calm tick keeps this, if the clock has not gone back since that check. It changes
  -- nothing for the idle reclaim when that is disabled, and reclaims no process that is registered as
  -- frozen or is a victim once the spike cycle of the same tick is over.
  pub idle_timeout_reclaim-Paced :
      s.last_check ≤ k.reclaim.now
      → Paced cfg.idle_reclaim_global_cooldown_sec s.last_check s.idle.reclaims
      → let after = idle_timeout_reclaim cfg k s in
        Paced cfg.idle_reclaim_global_cooldown_sec after.last_check after.idle.reclaims
        × ((cfg.idle_reclaim_enabled ≡ true) ⊎ (after.idle ≡ s.idle))
        × ((any (λ x. nat_beq x q) (excluded_pids s.idle.frozen cycled.tracker false) ≡ false)
            ⊎ (reclaims_of q after.idle ≡ reclaims_of q s.idle))
  unfolding idle_timeout_reclaim idle_step
  idle_timeout_reclaim-Paced le h =
      by_tests cfg.idle_reclaim_enabled
        (ltb (as_secs (duration_since k.reclaim.now s.last_check))
          cfg.idle_reclaim_global_cooldown_sec)
        refl refl
    where
      by_tests :
          (on cold : Bool)
          → cfg.idle_reclaim_enabled ≡ on
          → ltb
              (as_secs (duration_since k.reclaim.now s.last_check))
              cfg.idle_reclaim_global_cooldown_sec
            ≡ cold
          → Goal (
              if not on
              then record s { cycle = cycled }
              else if cold
              then record s { cycle = cycled }
              else idle_step cfg k (record s { cycle = cycled }))
      by_tests false cold e c = (h, inr refl, inr refl)
      by_tests true true e c = (h, inl e, inr refl)
      by_tests true false e c = checked-Goal e (
          Paced-During cfg.idle_reclaim_global_cooldown_sec s.last_check k.reclaim.now
            s.idle.reclaims le c h)
