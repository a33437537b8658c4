-- ===== src/Decision/Severity.antt =====
-- mgd/src/engine/decision.rs: how severe an action may be, from the level and the priority.
use lmkd_linux.Prelude.{
  ℕ, min, ◌*◌, ◌/◌, ◌≤◌, ◌<◌, ◌≡◌, ◌≢◌, ◌⊎◌, ◌↔◌, ◌-◌, Bool, true, false, Option, none, some, arith,
}
use lmkd_linux.Prelude.Int.{pos, sub_ℕ, ◌-ℤ◌}
use lmkd_linux.Types.{Kb}
use lmkd_linux.Psi.{PressureLevel, rank, elevated, high, critical}
use lmkd_linux.Config.{CompiledConfig, priority_for}
use lmkd_linux.Process.{Process}
use lmkd_linux.Decision.{
  Action, nothing, freeze, checkpoint, terminate, kill, Ratio, Env, determine_process_action,
  candidate, decide, effective_priority, calculate_ram_deficit_kb, i64_limit, sub_i64, as_i64,
}

-- The order in which the actions are declared.
abbrev pub severity : Action → ℕ
severity nothing = 0
severity freeze = 1
severity checkpoint = 2
severity terminate = 3
severity kill = 4

module _ (prio : ℕ) (r : Ratio) (o : Option Bool) (swap_exhausted cp_supported : Bool) where
  abbrev act : PressureLevel → Action
  act level = determine_process_action level prio r o swap_exhausted cp_supported

  -- A higher level never softens the action, unless the configuration asks for a checkpoint of the
  -- process and the system can make one.
  pub determine_process_action_mono :
      (l m : PressureLevel)
      → (o ≢ some true) ⊎ (cp_supported ≡ false)
      → rank l ≤ rank m
      → severity (act l) ≤ severity (act m)
  unfolding determine_process_action
  determine_process_action_mono l m h k = ground arith

  -- While swap is not exhausted, elevated pressure at most freezes, high pressure at most
  -- terminates, and neither acts on a process of a priority below 60.
  pub determine_process_action_gentle :
      swap_exhausted ≡ false
      → (severity (act elevated) ≤ severity freeze)
        × (severity (act high) ≤ severity terminate)
        × (prio < 60 → (act elevated ≡ nothing) × (act high ≡ nothing))
  unfolding determine_process_action
  determine_process_action_gentle h =
      (ground arith, ground arith, λ k. (ground arith, ground arith))

  -- Below critical pressure a process is killed exactly when swap is exhausted and its priority is
  -- at least 80.
  pub determine_process_action-kill :
      (l : PressureLevel)
      → rank l < rank critical
      → (act l ≡ kill) ↔ ((swap_exhausted ≡ true) × (80 ≤ prio))
  unfolding determine_process_action
  determine_process_action-kill l h = ((λ k. (ground arith, ground arith)), λ k. ground arith)

-- The foreground process is 25 less expendable, but never below 20; so a foreground process of the
-- system tier, whose own priority is 19 or less, is moved out of it.
pub effective_priority-foreground :
    (env : Env) (cfg : CompiledConfig) (p : Process)
    → env.active_pid ≡ some p.pid
    → let prio = priority_for cfg p.name p.exe_basename in
      (20 ≤ effective_priority env cfg p)
      × (45 ≤ prio → effective_priority env cfg p ≡ prio - 25)
      × (prio < 20 → effective_priority env cfg p ≡ 20)
unfolding effective_priority
effective_priority-foreground env cfg p e = (ground arith, (λ h. ground arith), λ h. ground arith)

-- A process of the system tier that is not in the foreground is left alone at every level.
pub background_system_tier :
    (level : PressureLevel) (env : Env) (cfg : CompiledConfig) (p : Process) (swap_exhausted : Bool)
    → env.active_pid ≢ some p.pid
    → priority_for cfg p.name p.exe_basename < 20
    → decide level env cfg swap_exhausted (candidate level env cfg p) ≡ none
unfolding decide candidate
background_system_tier level env cfg p swap_exhausted e h = ground arith

difference : (t a : ℕ) → t < i64_limit → a < i64_limit → sub_i64 (pos t) (as_i64 a) ≡ sub_ℕ t a
unfolding sub_i64 as_i64 ◌-ℤ◌
difference t a h k = ground arith

-- With an available size and a target that an `i64` can hold, the deficit is the target less the
-- available memory, with no wrap-around.
pub calculate_ram_deficit_kb-sub :
    (available_kb total_kb : Kb) (pct : ℕ)
    → available_kb < i64_limit
    → total_kb * pct / 10000 < i64_limit
    → calculate_ram_deficit_kb available_kb total_kb pct
      ≡ sub_ℕ (total_kb * pct / 10000) available_kb
unfolding calculate_ram_deficit_kb
calculate_ram_deficit_kb-sub available_kb total_kb pct h k =
    rw (min_left (total_kb * pct / 10000) k) (difference _ available_kb k h)
  where
    min_left : (t : ℕ) → t < i64_limit → min t (i64_limit - 1) ≡ t
    min_left t q = omega arith
