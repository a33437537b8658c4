-- ===== src/MemCap/Caps.antt =====
-- mgd/src/throttle.rs: the memory caps on record and in force, and who may be capped.
use lmkd_linux.Prelude.{
  ℕ, ◌≤◌, ◌≡◌, ◌≢◌, refl, ◌⊎◌, inl, inr, String, Bool, Option, none, some, List, [], ◌∷◌, string_eq,
  Bool-cases, if◌then◌else◌, arith,
}
use lmkd_linux.Prelude.Maps.{lookup, contains_key, lookup-insert, lookup-remove}
use lmkd_linux.Types.{Pid}
use lmkd_linux.Time.{Instant, duration_since, as_secs}
use lmkd_linux.Psi.{PressureLevel, high, below}
use lmkd_linux.Process.{Process}
use lmkd_linux.Config.{CompiledConfig}
use lmkd_linux.Throttle.{min_priority, cgroup_groups, find_foreground_cgroup}
use lmkd_linux.MemCap.{
  MemoryMax, unlimited, limit, MemCapManager, spare, since, set_cap, cap_bytes,
  restore_cgroup_memory, group_step, group_steps, update, restore_each, restore_all,
}

-- The limit that the writes leave on a cgroup, if those that lift it work.
unfoldable pub in_force : String → List MemoryMax → Option ℕ
in_force q [] = none
in_force q (unlimited p ∷ ws) = if string_eq.beq p q then none else in_force q ws
in_force q (limit p cap ∷ ws) = if string_eq.beq p q then some cap else in_force q ws

abbrev pub Synced : MemCapManager → Type 0
Synced t = (q : String) → in_force q t.writes ≡ lookup q t.capped

module _ (write_ok : String → Bool) (cfg : CompiledConfig) (foreground : Option String)
    (now : Instant) (path : String) (ps : List Process) (t : MemCapManager) where
  abbrev next : MemCapManager
  next = group_step write_ok cfg foreground now path ps t

  group_step-Synced :
      (q : String)
      → in_force q t.writes ≡ lookup q t.capped
      → in_force q next.writes ≡ lookup q next.capped
  unfolding group_step spare set_cap restore_cgroup_memory in_force
  group_step-Synced q h = ground (
    arith,
    string_eq.beq_iff path q,
    lookup-insert path q (cap_bytes ps) t.capped,
    lookup-remove path q t.capped,
  )

  -- One turn caps a cgroup only if it is in the background, has been there for ten seconds, has no process
  -- of a priority below 60, and was not capped; the cap is its memory and 512 MB. A cap that is there stays
  -- as it is in the background, and is lifted in the foreground.
  pub group_step_caps :
      (cap : ℕ)
      → lookup path next.capped ≡ some cap
      → (foreground ≢ some path)
        × (60 ≤ min_priority cfg ps)
        × ((lookup path t.capped ≡ some cap)
            ⊎ ((lookup path t.capped ≡ none)
                × (10 ≤ as_secs (duration_since now (since path now t)))
                × (cap ≡ cap_bytes ps)))
  unfolding group_step spare set_cap restore_cgroup_memory
  group_step_caps cap h =
      let i = lookup-insert path path (cap_bytes ps) t.capped in
      let r = lookup-remove path path t.capped in
      let b = string_eq.beq_iff path path in
      (ground (arith, i, r, b), ground (arith, i, r, b), ground (arith, i, r, b))

steps-Synced :
    (write_ok : String → Bool) (cfg : CompiledConfig) (foreground : Option String) (now : Instant)
    (gs : List (String × List Process)) (t : MemCapManager)
    → Synced t
    → Synced (group_steps write_ok cfg foreground now gs t)
unfolding group_steps
steps-Synced write_ok cfg foreground now [] t h = h
steps-Synced write_ok cfg foreground now ((path, ps) ∷ gs) t h =
    steps-Synced write_ok cfg foreground now gs (group_step write_ok cfg foreground now path ps t)
      (λ q. group_step-Synced write_ok cfg foreground now path ps t q (h q))

restore_each-none :
    (capped : List (String × ℕ)) (t : MemCapManager) (q : String)
    → in_force q (restore_each capped t).writes
      ≡ (if contains_key q capped then none else in_force q t.writes)
unfolding restore_each restore_cgroup_memory in_force lookup
restore_each-none [] t q = refl
restore_each-none ((path, cap) ∷ rest) t q =
    ground (arith, restore_each-none rest (restore_cgroup_memory path t) q)

-- The manager's record is exactly the limits that its writes leave in force, if those that lift a limit
-- work: an update keeps it so, and `restore_all` keeps it so and leaves no cgroup with a limit.
pub update-Synced :
    (write_ok : String → Bool) (procs : List Process) (active_pid : Option Pid)
    (level : PressureLevel) (cfg : CompiledConfig) (now : Instant) (t : MemCapManager)
    → Synced t
    → Synced (update write_ok procs active_pid level cfg now t)
      × Synced (restore_all t)
      × ((q : String) → in_force q (restore_all t).writes ≡ none)
unfolding update restore_all lookup
update-Synced write_ok procs active_pid level cfg now t h = (kept, lifted, lifted)
  where
    kept : Synced (update write_ok procs active_pid level cfg now t)
    kept = elim (Bool-cases (below level high)) [
      | inl e ↦ rw e h
      | inr e ↦ rw e (
          steps-Synced write_ok cfg (find_foreground_cgroup procs active_pid) now
            (cgroup_groups procs) _ h)
    ]

    lifted : (q : String) → in_force q (restore_each t.capped t).writes ≡ none
    lifted q = ground (arith, restore_each-none t.capped t q, h q)
