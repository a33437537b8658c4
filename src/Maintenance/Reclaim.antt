-- ===== src/Maintenance/Reclaim.antt =====
-- mgd/src/maintenance.rs: what holds of every run of the reclaim helper, over any sequence of checks.
use lmkd_linux.Prelude.{
  ℕ, ◌≤◌, ◌<◌, ◌-◌, ◌*◌, min, ◌≡◌, refl, ap, ◌∙◌, String, ◌⊎◌, Bool, false, Option, none, some,
  List, [], ◌∷◌, any, ◌==◌, arith,
}
use mathlib.Core.Path.{subst}
use lmkd_linux.Psi.{MemoryPressure}
use lmkd_linux.Config.{CompiledConfig}
use lmkd_linux.Maintenance.{
  ReclaimGates, required_mb, reclaim_gates_pass, kill_reclaim_cooldown_secs, Gate, HelperExit,
  success, failure, Answers, ReclaimState, resolve_reclaim_helper, gates_of, record_run,
  effective_cooldown, attempt, check_proactive_reclaim, passed, below_threshold, little_zram,
  no_headroom,
}

abbrev pub Run : Type 0
Run = ℕ × HelperExit × ReclaimGates

unfoldable pub uncapped : HelperExit → Bool
uncapped success = false
uncapped (failure none) = false
uncapped (failure (some code)) = code == 2

-- The time of the newest success, and 0 before the first.
unfoldable pub last_success : List Run → ℕ
last_success [] = 0
last_success ((now, success, g) ∷ rs) = now
last_success ((now, failure c, g) ∷ rs) = last_success rs

abbrev pub any_uncapped : List Run → Bool
any_uncapped rs = any (λ r. uncapped r.1) rs

-- The gates with which a run of the helper is safe.
abbrev pub Affordable : ReclaimGates → Type 0
Affordable g =
    (g.threshold_pct * 100 ≤ g.swap_used)
    × (g.min_zram_used_mb ≤ g.zram_used_mb)
    × (required_mb g < g.mem_available_mb)

-- Each run was affordable, came after no run with exit code 2, and kept the cooldown since the last
-- success before it.
unfoldable pub Spaced : CompiledConfig → List Run → Type 0
Spaced cfg [] = ℕ
Spaced cfg (r ∷ rs) =
    Affordable r.2
    × (any_uncapped rs ≡ false)
    × ((last_success rs ≡ 0)
        ⊎ (min cfg.reclaim_cooldown_secs kill_reclaim_cooldown_secs ≤ r.0 - last_success rs))
    × Spaced cfg rs

-- The state remembers what its runs say.
abbrev pub Sound : CompiledConfig → ReclaimState → Type 0
Sound cfg s =
    (s.last_reclaim ≡ last_success s.runs)
    × (s.disabled ≡ false → any_uncapped s.runs ≡ false)
    × Spaced cfg s.runs

gates-Affordable : (g : ReclaimGates) → reclaim_gates_pass g ≡ passed → Affordable g
unfolding reclaim_gates_pass
gates-Affordable g h = (ground arith, ground arith, ground arith)

gates_pass : (g : ReclaimGates) → Affordable g → reclaim_gates_pass g ≡ passed
unfolding reclaim_gates_pass
gates_pass g h = ground arith

module _ (cfg : CompiledConfig) where
  abbrev Cooled : ℕ → ℕ → Type 0
  Cooled now last =
      (last ≡ 0) ⊎ (min cfg.reclaim_cooldown_secs kill_reclaim_cooldown_secs ≤ now - last)

  record_run-Sound :
      (now : ℕ) (g : ReclaimGates) (e : HelperExit) (s : ReclaimState)
      → Affordable g
      → s.disabled ≡ false
      → Cooled now s.last_reclaim
      → Sound cfg s
      → Sound cfg (record_run now g e s)
  unfolding record_run uncapped last_success Spaced
  record_run-Sound now g success s a d c h =
      (refl, (λ e. h.1 d), (a, h.1 d, subst (Cooled now) h.0 c, h.2))
  record_run-Sound now g (failure none) s a d c h =
      (h.0, (λ e. h.1 d), (a, h.1 d, subst (Cooled now) h.0 c, h.2))
  record_run-Sound now g (failure (some code)) s a d c h =
      (h.0, (λ e. ground (arith, h.1 d)), (a, h.1 d, subst (Cooled now) h.0 c, h.2))

  attempt-Sound :
      (a : Answers) (helper : Option String) (s : ReclaimState)
      → s.disabled ≡ false
      → Cooled a.now_secs s.last_reclaim
      → Sound cfg s
      → Sound cfg (attempt cfg a helper s)
  unfolding attempt
  attempt-Sound a none s d c h = (h.0, (λ e. h.1 d), h.2)
  attempt-Sound a (some helper) s d c h = by_gate (reclaim_gates_pass g) refl
    where
      g : ReclaimGates
      g = gates_of cfg a

      next : ReclaimState
      next = record_run a.now_secs g (a.run_reclaim_helper helper) s

      by_gate :
          (w : Gate)
          → reclaim_gates_pass g ≡ w
          → Sound cfg
              (elim w [ passed ↦ next | below_threshold ↦ s | little_zram ↦ s | no_headroom ↦ s ])
      by_gate passed q =
          record_run-Sound a.now_secs g (a.run_reclaim_helper helper) s (gates-Affordable g q) d c h
      by_gate below_threshold q = h
      by_gate little_zram q = h
      by_gate no_headroom q = h

  -- Whatever the system answers, a check keeps that the time of the last reclaim is that of the newest
  -- successful run, and that every run of the helper had swap, zram and headroom within the gates,
  -- followed no run with exit code 2, and came no sooner after the last success before it than the
  -- smaller of the cooldown and two minutes.
  pub check-Sound :
      (pressure : MemoryPressure) (skip_calm_gate : Bool) (a : Answers) (s : ReclaimState)
      → Sound cfg s
      → Sound cfg (check_proactive_reclaim cfg pressure skip_calm_gate a s)
  unfolding check_proactive_reclaim effective_cooldown
  check-Sound pressure skip_calm_gate a s h =
      ground (arith, attempt-Sound a (resolve_reclaim_helper a.helper_available) s)

  record_run-runs :
      (now : ℕ) (g : ReclaimGates) (e : HelperExit) (s : ReclaimState)
      → (record_run now g e s).runs ≡ (now, e, g) ∷ s.runs
  unfolding record_run
  record_run-runs now g success s = refl
  record_run-runs now g (failure none) s = refl
  record_run-runs now g (failure (some code)) s = refl

  attempt-runs :
      (a : Answers) (helper : String) (s : ReclaimState)
      → Affordable (gates_of cfg a)
      → (attempt cfg a (some helper) s).runs
        ≡ (a.now_secs, a.run_reclaim_helper helper, gates_of cfg a) ∷ s.runs
  unfolding attempt
  attempt-runs a helper s h =
      ap (λ w. (next w).runs) (gates_pass (gates_of cfg a) h)
      ∙ record_run-runs a.now_secs (gates_of cfg a) (a.run_reclaim_helper helper) s
    where
      next : Gate → ReclaimState
      next w = elim w [
        | passed ↦ record_run a.now_secs (gates_of cfg a) (a.run_reclaim_helper helper) s
        | below_threshold ↦ s
        | little_zram ↦ s
        | no_headroom ↦ s
      ]
