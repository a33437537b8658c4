-- ===== src/Throttle/Limits.antt =====
-- mgd/src/throttle.rs: which cgroups are throttled, and what the CPU files hold.
use lmkd_linux.Prelude.{
  ℕ, ◌≤◌, ◌<◌, ◌≡◌, ◌≢◌, ◌⊎◌, inl, inr, String, Bool, true, false, ◌||◌, Option, some, List, [],
  ◌∷◌, string_eq, is_same, ltb, Bool-cases, if◌then◌else◌, arith,
}
use lmkd_linux.Prelude.Maps.{lookup, insert, contains_key, lookup-insert}
use lmkd_linux.Time.{Instant, duration_since, as_secs}
use lmkd_linux.Process.{Process}
use lmkd_linux.Config.{CompiledConfig}
use lmkd_linux.Throttle.{
  ThrottledState, unthrottled, weight_only, full, Write, weight, cpu_max, Files, ThrottleManager,
  current_state, let_go, restore_cgroup_cpu, min_priority, excluded, since, target_state,
  should_force_release, apply_target, group_step, group_steps,
}

-- What the files of a cgroup hold after some writes, from their defaults.
unfoldable pub last_weight : String → List Write → ℕ
last_weight q [] = 100
last_weight q (weight p n ∷ ws) = if string_eq.beq p q then n else last_weight q ws
last_weight q (cpu_max p b ∷ ws) = last_weight q ws

unfoldable pub last_capped : String → List Write → Bool
last_capped q [] = false
last_capped q (weight p n ∷ ws) = last_capped q ws
last_capped q (cpu_max p b ∷ ws) = if string_eq.beq p q then b else last_capped q ws

-- A cgroup that counts as unthrottled has its defaults.
abbrev pub Recorded : String → ThrottleManager → Type 0
Recorded q t =
    current_state q t ≡ unthrottled
    → (last_weight q t.writes ≡ 100) × (last_capped q t.writes ≡ false)

module _ (f : Files) (cfg : CompiledConfig) (foreground : Option String) (psi : ℕ) (now : Instant)
    (path : String) (ps : List Process) (t : ThrottleManager) where
  abbrev next : ThrottleManager
  next = group_step f cfg foreground psi now path ps t

  set-lookup :
      (q : String) (s : ThrottledState)
      → lookup q (insert path s t.states)
        ≡ (if string_eq.beq path q then some s else lookup q t.states)
  set-lookup q s = lookup-insert path q s t.states

  -- A turn for one cgroup leaves the others.
  pub group_step_other : (q : String) → q ≢ path → current_state q next ≡ current_state q t
  unfolding group_step let_go current_state restore_cgroup_cpu apply_target
  group_step_other q h = ground (
    arith,
    string_eq.beq_iff path q,
    set-lookup q unthrottled,
    set-lookup q weight_only,
    set-lookup q full,
  )

  group_step-Recorded : (q : String) → Recorded q t → Recorded q next
  unfolding group_step let_go current_state restore_cgroup_cpu apply_target last_weight last_capped
  group_step-Recorded q h e = (
    ground (
      arith,
      string_eq.beq_iff path q,
      set-lookup q unthrottled,
      set-lookup q weight_only,
      set-lookup q full,
    ),
    ground (
      arith,
      string_eq.beq_iff path q,
      set-lookup q unthrottled,
      set-lookup q weight_only,
      set-lookup q full,
    ),
  )

  abbrev spared : Bool
  spared =
      is_same foreground path || ltb (min_priority cfg ps) 60 || excluded cfg.throttle_exclude ps

  -- The state of a cgroup after its turn.
  next-current : current_state path next ≡ (
      if spared
      then unthrottled
      else target_state cfg psi
          (as_secs (duration_since now (since path now t)))
          (min_priority cfg ps))
  unfolding group_step let_go current_state restore_cgroup_cpu apply_target
  next-current = ground (
    arith,
    string_eq.beq_iff path path,
    set-lookup path unthrottled,
    set-lookup path weight_only,
    set-lookup path full,
  )

  -- A cgroup is throttled only in the background, where all its processes have a priority of at least
  -- 60, no exclude rule names one, it has been there for ten seconds, and not for the longest duration
  -- without a stall; and it is capped only if all the priorities are at least 80.
  pub group_step_throttles :
      current_state path next ≢ unthrottled
      → let elapsed = as_secs (duration_since now (since path now t)) in
        (foreground ≢ some path)
        × (60 ≤ min_priority cfg ps)
        × (excluded cfg.throttle_exclude ps ≡ false)
        × (10 ≤ elapsed)
        × ((elapsed < cfg.throttle_max_duration_sec) ⊎ (200 ≤ psi))
        × (current_state path next ≡ full → 80 ≤ min_priority cfg ps)
  unfolding target_state should_force_release
  group_step_throttles h =
      let e = next-current in
      (
        ground (arith, e, string_eq.beq_iff path path),
        ground (arith, e),
        ground (arith, e),
        ground (arith, e),
        ground (arith, e),
        λ k. ground (arith, e),
      )

-- The turns of one update for all cgroups.
module _ (f : Files) (cfg : CompiledConfig) (foreground : Option String) (psi : ℕ)
    (now : Instant) where
  abbrev steps : List (String × List Process) → ThrottleManager → ThrottleManager
  steps gs t = group_steps f cfg foreground psi now gs t

  pub steps-Recorded :
      (gs : List (String × List Process)) (t : ThrottleManager) (q : String)
      → Recorded q t
      → Recorded q (steps gs t)
  unfolding group_steps
  steps-Recorded [] t q h = h
  steps-Recorded ((path, ps) ∷ gs) t q h =
      steps-Recorded gs (group_step f cfg foreground psi now path ps t) q
        (group_step-Recorded f cfg foreground psi now path ps t q h)

  step_foreground :
      (q path : String) (ps : List Process) (t : ThrottleManager)
      → foreground ≡ some q
      → (q ≡ path) ⊎ (current_state q t ≡ unthrottled)
      → current_state q (group_step f cfg foreground psi now path ps t) ≡ unthrottled
  step_foreground q path ps t h k = ground (
    arith,
    string_eq.beq_iff q path,
    string_eq.beq_iff path q,
    next-current f cfg foreground psi now path ps t,
    group_step_other f cfg foreground psi now path ps t q,
  )

  pub steps_foreground :
      (gs : List (String × List Process)) (t : ThrottleManager) (q : String)
      → foreground ≡ some q
      → (contains_key q gs ≡ true) ⊎ (current_state q t ≡ unthrottled)
      → current_state q (steps gs t) ≡ unthrottled
  unfolding group_steps lookup
  steps_foreground [] t q h k = ground arith
  steps_foreground ((path, ps) ∷ gs) t q h k = elim (Bool-cases (string_eq.beq path q)) [
    | inl e ↦
        steps_foreground gs _ q h
          (inr (step_foreground q path ps t h (inl (ground (arith, string_eq.beq_iff path q)))))
    | inr e ↦ elim k [
      | inl c ↦ steps_foreground gs _ q h (inl (ground arith))
      | inr s ↦ steps_foreground gs _ q h (inr (step_foreground q path ps t h (inr s)))
    ]
  ]
