-- ===== src/Throttle/Forgotten.antt =====
-- mgd/src/throttle.rs: a whole update of the CPU shares.
use lmkd_linux.Prelude.{
  ℕ, ◌≡◌, refl, ◌∙◌, ◌⊎◌, String, Bool, true, false, Option, some, List, [], ◌∷◌, string_eq,
  if◌then◌else◌, arith,
}
use lmkd_linux.Prelude.Maps.{lookup, contains_key, retain_keys, lookup-retain_keys}
use lmkd_linux.Types.{Pid}
use lmkd_linux.Time.{Instant}
use lmkd_linux.Process.{Process}
use lmkd_linux.Config.{CompiledConfig}
use lmkd_linux.Throttle.{
  ThrottledState, unthrottled, Files, ThrottleManager, current_state, let_go, restore_cgroup_cpu,
  apply_target, group_step, group_steps, cgroup_groups, find_foreground_cgroup, restore_each,
  update,
}
use lmkd_linux.Throttle.Limits.{
  Recorded, last_weight, last_capped, steps-Recorded, steps_foreground, group_step_other,
}

restore_each-defaults :
    (states : List (String × ThrottledState)) (t : ThrottleManager) (q : String)
    → (last_weight q (restore_each states t).writes
        ≡ (if contains_key q states then 100 else last_weight q t.writes))
      × (last_capped q (restore_each states t).writes
          ≡ (if contains_key q states then false else last_capped q t.writes))
unfolding restore_each restore_cgroup_cpu lookup last_weight last_capped
restore_each-defaults [] t q = (refl, refl)
restore_each-defaults ((path, s) ∷ rest) t q =
    let ih = restore_each-defaults rest (restore_cgroup_cpu path t) q in
    (ground (arith, ih.0), ground (arith, ih.1))

step_writes :
    (f : Files) (cfg : CompiledConfig) (foreground : Option String) (psi : ℕ) (now : Instant)
    (path : String) (ps : List Process) (t : ThrottleManager) (q : String)
    → string_eq.beq path q ≡ false
    → let next = group_step f cfg foreground psi now path ps t in
      (last_weight q next.writes ≡ last_weight q t.writes)
      × (last_capped q next.writes ≡ last_capped q t.writes)
unfolding group_step let_go restore_cgroup_cpu apply_target last_weight last_capped
step_writes f cfg foreground psi now path ps t q h = (ground arith, ground arith)

steps_writes :
    (f : Files) (cfg : CompiledConfig) (foreground : Option String) (psi : ℕ) (now : Instant)
    (gs : List (String × List Process)) (t : ThrottleManager) (q : String)
    → contains_key q gs ≡ false
    → let next = group_steps f cfg foreground psi now gs t in
      (last_weight q next.writes ≡ last_weight q t.writes)
      × (last_capped q next.writes ≡ last_capped q t.writes)
      × (current_state q next ≡ current_state q t)
unfolding group_steps lookup
steps_writes f cfg foreground psi now [] t q h = (refl, refl, refl)
steps_writes f cfg foreground psi now ((path, ps) ∷ gs) t q h =
    let w = step_writes f cfg foreground psi now path ps t q (ground arith) in
    let o =
      group_step_other f cfg foreground psi now path ps t q
        (λ e. ground (arith, string_eq.beq_iff path q)) in
    let ih =
      steps_writes f cfg foreground psi now gs (group_step f cfg foreground psi now path ps t) q
        (ground arith) in
    (ih.0 ∙ w.0, ih.1 ∙ w.1, ih.2 ∙ o)

module _ (f : Files) (procs : List Process) (active_pid : Option Pid) (psi : ℕ)
    (cfg : CompiledConfig) (now : Instant) (t : ThrottleManager) where
  abbrev updated : Bool → ThrottleManager
  updated active = update f procs active_pid active psi cfg now t

  abbrev listed : String → Bool
  listed path = contains_key path (cgroup_groups procs)

  -- What an update under pressure starts its turns from.
  abbrev kept : ThrottleManager
  kept = record t { states = retain_keys listed t.states; tracker = retain_keys listed t.tracker }

  kept-current :
      (q : String) → current_state q kept ≡ (if listed q then current_state q t else unthrottled)
  unfolding current_state
  kept-current q = ground (arith, lookup-retain_keys listed q t.states)

  unlisted-current :
      (q : String) → contains_key q t.states ≡ false → current_state q t ≡ unthrottled
  unfolding current_state
  unlisted-current q h = ground arith

  -- After every update the cgroup of the foreground process is not throttled.
  pub update_foreground :
      (active : Bool) (q : String)
      → find_foreground_cgroup procs active_pid ≡ some q
      → current_state q (updated active) ≡ unthrottled
  unfolding update current_state lookup
  update_foreground false q h = refl
  update_foreground true q h =
      steps_foreground f cfg (find_foreground_cgroup procs active_pid) psi now (cgroup_groups procs)
        kept q h start
    where
      start : (listed q ≡ true) ⊎ (current_state q kept ≡ unthrottled)
      start = ground (arith, kept-current q)

  -- What is recorded as unthrottled has its default shares, for a cgroup that has a listed process or is
  -- not throttled before the update, and for every cgroup when the pressure is no longer elevated.
  pub update-Recorded :
      (active : Bool) (q : String)
      → (active ≡ false)
        ⊎ (contains_key q (cgroup_groups procs) ≡ true)
        ⊎ (current_state q t ≡ unthrottled)
      → Recorded q t
      → Recorded q (updated active)
  unfolding update
  update-Recorded false q h r e =
      let d = restore_each-defaults t.states t q in
      (ground (arith, d.0, old), ground (arith, d.1, old))
    where
      old :
          contains_key q t.states ≡ false
          → (last_weight q t.writes ≡ 100) × (last_capped q t.writes ≡ false)
      old h = r (unlisted-current q h)
  update-Recorded true q h r e =
      steps-Recorded f cfg (find_foreground_cgroup procs active_pid) psi now (cgroup_groups procs)
        kept q start e
    where
      start : Recorded q kept
      start e = r (ground (arith, kept-current q))

  -- A cgroup without a listed process, as when all its processes are frozen, is forgotten under
  -- pressure: it counts as unthrottled, and its files keep whatever shares they had.
  pub update_forgets :
      (q : String)
      → contains_key q (cgroup_groups procs) ≡ false
      → (current_state q (updated true) ≡ unthrottled)
        × (last_weight q (updated true).writes ≡ last_weight q t.writes)
        × (last_capped q (updated true).writes ≡ last_capped q t.writes)
  unfolding update
  update_forgets q h =
      let w =
        steps_writes f cfg (find_foreground_cgroup procs active_pid) psi now (cgroup_groups procs)
          kept q h in
      (ground (arith, w.2, kept-current q), w.0, w.1)
