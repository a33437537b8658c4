-- ===== src/Evictor/SpikeCycle/Whole.antt =====
-- mgd/src/evictor/spike.rs: the decisions of an update and a whole cycle.
use mathlib.Core.Path.{subst}
use mathlib.Core.List.{append-nil}
use lmkd_linux.Prelude.{
  ◌≡◌, refl, Bool, true, false, ◌||◌, none, List, [], ◌∷◌, ◌++◌, map, any, keep, All, All-map,
  All-of_keep, nat_eq, nat_beq, if◌then◌else◌, arith,
}
use lmkd_linux.Prelude.Maps.{lookup}
use lmkd_linux.Prelude.Sorting.{sort-All}
use lmkd_linux.Types.{Pid, Kb}
use lmkd_linux.Process.{Process}
use lmkd_linux.Config.{CompiledConfig}
use lmkd_linux.Registry.Frozen
use lmkd_linux.Registry.Frozen.{FrozenRegistry}
use lmkd_linux.Spike.{
  SpikeVictim, SpikeDecision, freeze_for_headroom, throttle_spike, restore_throttle,
  release_victims as release_decision, from_config,
}
use lmkd_linux.Spike.Victims.{SpikeTracker}
use lmkd_linux.Spike.Tracker.{update}
use lmkd_linux.Evictor.{excluded_pids}
use lmkd_linux.Evictor.SpikeCycle.{
  System, CycleState, release_victims, is_candidate, expendable_first, headroom_candidates,
  carry_out, carry_out_all, run_spike_cycle,
}
use lmkd_linux.Evictor.SpikeCycle.Update.{victims_in, update-Conserves}
use lmkd_linux.Evictor.SpikeCycle.Owed.{Kept, unfreeze_each-Kept, handed-Kept, release_victims-Kept}
use lmkd_linux.Evictor.SpikeCycle.Freezes.{Clear, freeze_for-Kept}

any-append :
    (pid : Pid) (xs ys : List Pid)
    → any (λ x. nat_beq x pid) (xs ++ ys)
      ≡ (any (λ x. nat_beq x pid) xs || any (λ x. nat_beq x pid) ys)
any-append pid [] ys = refl
any-append pid (x ∷ xs) ys = ground (arith, any-append pid xs ys)

lookup-none :
    (pid : Pid) (m : List (Pid × SpikeVictim))
    → any (λ x. nat_beq x pid) (map (λ x. x.0) m) ≡ false
    → lookup pid m ≡ none
unfolding lookup
lookup-none pid [] h = refl
lookup-none pid ((j, v) ∷ m) h = ground (arith, lookup-none pid m)

excluded-lookup :
    (frozen : FrozenRegistry) (t : SpikeTracker) (pid : Pid)
    → any (λ x. nat_beq x pid) (excluded_pids frozen t true) ≡ false
    → lookup pid t.victims ≡ none
unfolding excluded_pids
excluded-lookup frozen t pid h = lookup-none pid t.victims (
    ground (
      arith,
      any-append pid (Frozen.frozen_pids frozen ++ map (λ x. x.0) t.victims)
          (map (λ x. x.0) t.spikes),
      any-append pid (Frozen.frozen_pids frozen) (map (λ x. x.0) t.victims),
    ))

module _ (sys : System) (cfg : CompiledConfig) (frozen : FrozenRegistry)
    (procs : List Process) where
  candidates-Clear :
      (t : SpikeTracker) → All (Clear sys t) (headroom_candidates sys cfg frozen t procs)
  unfolding headroom_candidates is_candidate
  candidates-Clear t = sort-All (expendable_first cfg) (Clear sys t) (keep test procs) (
      All-map (λ p. test p ≡ true) (Clear sys t) (keep test procs)
        (λ p h v e. absurd (ground (arith, e, excluded-lookup frozen t p.pid)))
        (All-of_keep test procs))
    where
      test : Process → Bool
      test = is_candidate sys cfg (excluded_pids frozen t true) t

  carry_out-Kept :
      (d : SpikeDecision) (ds : List SpikeDecision) (s : CycleState)
      → Kept (victims_in (d ∷ ds)) s
      → Kept (victims_in ds) (carry_out sys cfg frozen procs d s)
  unfolding carry_out victims_in
  carry_out-Kept (release_decision vs) ds s h = unfreeze_each-Kept sys vs (victims_in ds) s h
  carry_out-Kept (freeze_for_headroom needed) ds s h =
      freeze_for-Kept sys _ _ needed (victims_in ds) s (candidates-Clear s.tracker) h
  carry_out-Kept (throttle_spike pid path) ds s h = h
  carry_out-Kept (restore_throttle pid path) ds s h = h

  carry_out_all-Kept :
      (ds : List SpikeDecision) (s : CycleState)
      → Kept (victims_in ds) s
      → Kept [] (carry_out_all sys cfg frozen procs ds s)
  unfolding carry_out_all victims_in
  carry_out_all-Kept [] s h = h
  carry_out_all-Kept (d ∷ ds) s h =
      carry_out_all-Kept ds (carry_out sys cfg frozen procs d s) (carry_out-Kept d ds s h)

  -- A cycle forgets nobody: when every process that was stopped, and not continued since, is a victim of
  -- the tracker before the cycle, each such process is one after it. A process is told apart by its
  -- pid and start time, and a call of `unfreeze_checked` counts as continuing it whatever it returns.
  pub run_spike_cycle-Kept :
      (available : Kb) (manual_release : List Pid) (s : CycleState)
      → Kept [] s
      → Kept [] (run_spike_cycle sys cfg frozen available procs manual_release s)
  unfolding run_spike_cycle
  run_spike_cycle-Kept available manual_release s h = by_mode cfg.spike_mode_enabled
    where
      released : CycleState
      released = release_victims sys cfg procs manual_release s

      released-Kept : Kept [] released
      released-Kept = release_victims-Kept sys cfg procs manual_release s h

      r : SpikeTracker × List SpikeDecision
      r = update (from_config cfg) sys.foreground_pid sys.now procs available released.tracker

      updated : CycleState
      updated = record released { tracker = r.0 }

      updated-Kept : Kept (victims_in r.1) updated
      updated-Kept =
          subst (λ l. Kept l updated) (append-nil (victims_in r.1))
            (handed-Kept sys r.0 (victims_in r.1) [] released
              (update-Conserves (from_config cfg) sys.foreground_pid sys.now procs available
                released.tracker)
              released-Kept)

      by_mode :
          (enabled : Bool)
          → Kept [] (if enabled then carry_out_all sys cfg frozen procs r.1 updated else released)
      by_mode true = carry_out_all-Kept r.1 updated updated-Kept
      by_mode false = released-Kept
