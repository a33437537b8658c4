-- ===== src/Scoring/Swap.antt =====
-- mgd/src/evictor/scoring.rs: apply_swap_overrides over one cycle and over a run of cycles.
use lmkd_linux.Prelude.{
  ℕ, ◌≤◌, ◌<◌, ◌≡◌, refl, ◌⊎◌, ◌↔◌, Option, none, some, List, [], ◌∷◌, All, arith,
}
use lmkd_linux.Types.{Kb}
use lmkd_linux.Time.{Instant, duration_since, as_secs}
use lmkd_linux.Psi.{PressureLevel, rank, critical, emergency}
use lmkd_linux.Scoring.{apply_swap_overrides}

module _ (level : PressureLevel) (used : ℕ) (swap_total : Kb) (start : Option Instant)
    (now : Instant) where
  -- The overrides never lower a level, swap used to 95 % makes it at least critical, and with no
  -- swap device, or less of it used, the level stays.
  pub apply_swap_overrides_raises :
      let (result, timer) = apply_swap_overrides level used swap_total start now in
      (rank level ≤ rank result)
      × (0 < swap_total → 950000 ≤ used → rank critical ≤ rank result)
      × ((swap_total ≡ 0) ⊎ (used < 950000) → result ≡ level)
  unfolding apply_swap_overrides
  apply_swap_overrides_raises = (ground arith, (λ h k. ground arith), λ h. ground arith)

-- One cycle's reading of the loop in evictor/mod.rs.
pub record Cycle : Type 0 where
  pub level : PressureLevel
  pub used : ℕ
  pub now : Instant

-- The timer `sustained_critical_swap_start` after some cycles.
pub timer_after : Kb → Option Instant → List Cycle → Option Instant
timer_after swap_total timer [] = timer
timer_after swap_total timer (c ∷ cs) =
    timer_after swap_total (apply_swap_overrides c.level c.used swap_total timer c.now).1 cs

abbrev pub NearFull : Cycle → Type 0
NearFull c = 980000 ≤ c.used

start_timer :
    (swap_total : Kb) (c : Cycle)
    → 0 < swap_total
    → NearFull c
    → (apply_swap_overrides c.level c.used swap_total none c.now).1 ≡ some c.now
unfolding apply_swap_overrides
start_timer swap_total c h k = ground arith

keep_timer :
    (swap_total : Kb) (c : Cycle) (t : Instant)
    → 0 < swap_total
    → NearFull c
    → (apply_swap_overrides c.level c.used swap_total (some t) c.now).1 ≡ some t
unfolding apply_swap_overrides
keep_timer swap_total c t h k = ground arith

timer_kept :
    (swap_total : Kb) (t : Instant) (cs : List Cycle)
    → 0 < swap_total
    → All NearFull cs
    → timer_after swap_total (some t) cs ≡ some t
unfolding timer_after
timer_kept swap_total t [] h k = refl
timer_kept swap_total t (c ∷ cs) h k =
    rw (keep_timer swap_total c t h k.0, timer_after) (timer_kept swap_total t cs h k.1)

timer_started :
    (swap_total : Kb) (c : Cycle) (cs : List Cycle)
    → 0 < swap_total
    → All NearFull (c ∷ cs)
    → timer_after swap_total none (c ∷ cs) ≡ some c.now
unfolding timer_after
timer_started swap_total c cs h k =
    rw (start_timer swap_total c h k.0, timer_after) (timer_kept swap_total c.now cs h k.1)

at_timer :
    (swap_total : Kb) (c : Cycle) (t : Instant)
    → 0 < swap_total
    → NearFull c
    → ((apply_swap_overrides c.level c.used swap_total (some t) c.now).0 ≡ emergency)
      ↔ ((c.level ≡ emergency) ⊎ (45 ≤ as_secs (duration_since c.now t)))
unfolding apply_swap_overrides
at_timer swap_total c t h k = ((λ e. ground arith), λ e. ground arith)

-- Swap that stays used to 98 % from a first cycle on escalates to emergency in a later cycle exactly
-- when at least 45 seconds have passed since the first, or that cycle's own level is emergency.
pub sustained_swap_escalates :
    (swap_total : Kb) (first : Cycle) (cs : List Cycle) (last : Cycle)
    → 0 < swap_total
    → All NearFull (first ∷ cs)
    → NearFull last
    → ((apply_swap_overrides last.level last.used swap_total
          (timer_after swap_total none (first ∷ cs))
          last.now).0
        ≡ emergency)
      ↔ ((last.level ≡ emergency) ⊎ (45 ≤ as_secs (duration_since last.now first.now)))
sustained_swap_escalates swap_total first cs last h k l =
    rw (timer_started swap_total first cs h k) (at_timer swap_total last first.now h l)
