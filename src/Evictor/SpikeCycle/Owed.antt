-- ===== src/Evictor/SpikeCycle/Owed.antt =====
-- mgd/src/evictor/spike.rs: no process that the cycle stops is forgotten.
use lmkd_linux.Prelude.{
  ℕ, ◌≡◌, ◌⊎◌, inl, inr, Bool, true, false, ◌&&◌, ◌||◌, not, List, [], ◌∷◌, ◌++◌, nat_eq, ◌==◌,
  arith,
}
use lmkd_linux.Types.{Pid}
use lmkd_linux.Process.{Process}
use lmkd_linux.Config.{CompiledConfig}
use lmkd_linux.Execute.{success, fail}
use lmkd_linux.Spike.{SpikeVictim}
use lmkd_linux.Spike.Victims.{
  SpikeTracker, on_spike_exit, drain_timed_out_victims, drain_orphaned_victims, release_requested,
}
use lmkd_linux.Evictor.SpikeCycle.{
  Call, stop, continue, System, CycleState, unfreeze_victim, unfreeze_each, let_go, exit_each,
  exited, release_victims,
}
use lmkd_linux.Evictor.SpikeCycle.Release.{
  held, handed_out, handed_out-append, IsKeyed, Conserves, exit-Conserves, timed_out-Conserves,
  orphaned-Conserves, requested-Conserves,
}

-- The process with this pid and start time was stopped, and no attempt to continue it came after.
unfoldable pub owed : Pid → ℕ → List Call → Bool
owed pid st [] = false
owed pid st (stop q t success ∷ l) = (q == pid && t == st) || owed pid st l
owed pid st (stop q t (fail vanished) ∷ l) = owed pid st l
owed pid st (continue q t r ∷ l) = not (q == pid && t == st) && owed pid st l

-- Who is owed a signal is a victim of the tracker, or is among those about to be unfrozen.
abbrev pub Kept : List SpikeVictim → CycleState → Type 0
Kept pending s =
    IsKeyed s.tracker
    × ((pid : Pid) (st : ℕ)
        → owed pid st s.calls ≡ true
        → (held pid st s.tracker ≡ true) ⊎ (handed_out pid st pending ≡ true))

module _ (sys : System) where
  unfreeze_victim-Kept :
      (v : SpikeVictim) (pending : List SpikeVictim) (s : CycleState)
      → Kept (v ∷ pending) s
      → Kept pending (unfreeze_victim sys v s)
  unfolding unfreeze_victim owed
  unfreeze_victim-Kept v pending s h = (h.0, λ pid st o. ground (arith, h.1 pid st))

  pub unfreeze_each-Kept :
      (vs pending : List SpikeVictim) (s : CycleState)
      → Kept (vs ++ pending) s
      → Kept pending (unfreeze_each sys vs s)
  unfolding unfreeze_each
  unfreeze_each-Kept [] pending s h = h
  unfreeze_each-Kept (v ∷ vs) pending s h =
      unfreeze_each-Kept vs pending (unfreeze_victim sys v s)
        (unfreeze_victim-Kept v (vs ++ pending) s h)

  -- Handing victims out moves them from the tracker to the pending ones.
  pub handed-Kept :
      (t : SpikeTracker) (vs pending : List SpikeVictim) (s : CycleState)
      → (IsKeyed s.tracker → Conserves s.tracker (t, vs))
      → Kept pending s
      → Kept (vs ++ pending) (record s { tracker = t })
  handed-Kept t vs pending s c h = (
    (c h.0).0,
    λ pid st o. elim (h.1 pid st o) [
      | inl stays ↦ elim ((c h.0).1 pid st stays) [
        | inl still ↦ inl still
        | inr out ↦ inr (ground (arith, handed_out-append pid st vs pending, out))
      ]
      | inr waits ↦ inr (ground (arith, handed_out-append pid st vs pending, waits))
    ],
  )

  let_go-Kept :
      (r : SpikeTracker × List SpikeVictim) (pending : List SpikeVictim) (s : CycleState)
      → (IsKeyed s.tracker → Conserves s.tracker r)
      → Kept pending s
      → Kept pending (let_go sys r s)
  unfolding let_go
  let_go-Kept (t, vs) pending s c h =
      unfreeze_each-Kept vs pending (record s { tracker = t }) (handed-Kept t vs pending s c h)

  exit_each-Kept : (pids : List Pid) (s : CycleState) → Kept [] s → Kept [] (exit_each sys pids s)
  unfolding exit_each
  exit_each-Kept [] s h = h
  exit_each-Kept (pid ∷ pids) s h =
      exit_each-Kept pids (let_go sys (on_spike_exit pid s.tracker) s)
        (let_go-Kept (on_spike_exit pid s.tracker) [] s (exit-Conserves pid s.tracker) h)

  pub release_victims-Kept :
      (cfg : CompiledConfig) (procs : List Process) (manual_release : List Pid) (s : CycleState)
      → Kept [] s
      → Kept [] (release_victims sys cfg procs manual_release s)
  unfolding release_victims
  release_victims-Kept cfg procs manual_release s h = by_manual manual_release
    where
      left : CycleState
      left = exit_each sys (exited procs s.tracker) s

      timed : CycleState
      timed =
          let_go sys (drain_timed_out_victims sys.now cfg.spike_max_victim_freeze_sec left.tracker)
            left

      orphaned : CycleState
      orphaned = let_go sys (drain_orphaned_victims timed.tracker) timed

      timed-Kept : Kept [] timed
      timed-Kept =
          let_go-Kept _ [] left
            (timed_out-Conserves sys.now cfg.spike_max_victim_freeze_sec left.tracker)
            (exit_each-Kept (exited procs s.tracker) s h)

      orphaned-Kept : Kept [] orphaned
      orphaned-Kept = let_go-Kept _ [] timed (orphaned-Conserves timed.tracker) timed-Kept

      by_manual :
          (pids : List Pid)
          → Kept [] (elim pids [
            | [] ↦ orphaned
            | pid ∷ rest ↦
                let_go sys (release_requested sys.now (pid ∷ rest) orphaned.tracker) orphaned
          ])
      by_manual [] = orphaned-Kept
      by_manual (pid ∷ rest) =
          let_go-Kept _ [] orphaned (requested-Conserves sys.now (pid ∷ rest) orphaned.tracker)
            orphaned-Kept
