-- ===== src/Evictor/Control.antt =====
-- mgd/src/evictor/mod.rs: what follows from the level over many turns.
use lmkd_linux.Prelude.{
  ℕ, ◌+◌, ◌<◌, ◌≡◌, inl, inr, Bool, Bool-cases, Option, none, List, [], ◌∷◌, if◌then◌else◌, arith,
  String,
}
use lmkd_linux.Types.{Pid}
use lmkd_linux.Time.{Instant}
use lmkd_linux.Psi.{PressureLevel, rank, high, below}
use lmkd_linux.Process.{Process}
use lmkd_linux.Config.{CompiledConfig}
use lmkd_linux.MemCap
use lmkd_linux.MemCap.{MemCapManager}
use lmkd_linux.MemCap.Caps.{Synced, in_force, update-Synced}
use lmkd_linux.Evictor.{Controller, Reading, control, memcap_step}

-- The number of hibernations in a run of turns.
unfoldable pub hibernations : CompiledConfig → List Reading → Controller → ℕ
hibernations cfg [] c = 0
hibernations cfg (r ∷ rs) c =
    let rest = hibernations cfg rs (control cfg r c).0 in
    if (control cfg r c).1 then rest + 1 else rest

-- After each turn at a level below high no cgroup has a memory limit in force, if the writes that lift
-- one work; and after any turn the record of the caps agrees with what is in force.
pub memcap_step-Synced :
    (write_ok : String → Bool) (procs : List Process) (active_pid : Option Pid)
    (level : PressureLevel) (cfg : CompiledConfig) (now : Instant) (due : Bool) (t : MemCapManager)
    → Synced t
    → let next = memcap_step write_ok procs active_pid level cfg now due t in
      Synced next × (rank level < rank high → (q : String) → in_force q next.writes ≡ none)
unfolding memcap_step
memcap_step-Synced write_ok procs active_pid level cfg now due t h =
    elim (Bool-cases (below level high)) [
      | inl e ↦ rw e (lifted.0, λ _. lifted.1)
      | inr e ↦ rw e (kept, λ k. absurd (ground arith))
    ]
  where
    updated : MemCapManager
    updated = if due then MemCap.update write_ok procs active_pid level cfg now t else t

    kept : Synced updated
    kept = elim (Bool-cases due) [
      | inl e ↦ rw e (update-Synced write_ok procs active_pid level cfg now t h).0
      | inr e ↦ rw e h
    ]

    lifted :
        Synced (MemCap.restore_all updated)
        × ((q : String) → in_force q (MemCap.restore_all updated).writes ≡ none)
    lifted =
        let (_, synced, free) =
          update-Synced write_ok procs active_pid level cfg now updated kept in
        (synced, free)
