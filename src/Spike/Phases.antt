-- ===== src/Spike/Phases.antt =====
-- mgd/src/spike_mode.rs: spikes phase by phase.
use lmkd_linux.Prelude.{
  String, ◌<◌, ◌≡◌, Bool, true, false, Option, List, [], ◌∷◌, All, nat_eq, Option-cases,
  if◌then◌else◌, arith, inl, inr,
}
use lmkd_linux.Prelude.Maps.{lookup, insert-All, lookup-All}
use lmkd_linux.Types.{Pid, Kb}
use lmkd_linux.Time.{Instant}
use lmkd_linux.Process.{Process}
use lmkd_linux.Spike.{
  tracking, SpikeState, Params, new_state, sample_step, peak_step, oscillation_step, phase_step,
  demote, track, cpu_step,
}
use lmkd_linux.Spike.Victims.{SpikeTracker, drain_if_none_tracking}
use lmkd_linux.Spike.Tracker.{
  register, register_all, track_all, advance_caches, release_step, cpu_all, update,
}

-- A tracked spike has peaked and fallen back, only a tracked one is throttled, and the idle ticks are
-- fewer than it takes to give it up.
pub record Sound (p : Params) (s : SpikeState) : Type 0 where
  pub shown : s.phase ≡ tracking → (s.has_peaked ≡ true) × (s.has_oscillated ≡ true)
  pub throttled : s.cpu_throttled ≡ true → s.phase ≡ tracking
  pub short : 0 < p.idle_ticks_required → s.idle_ticks < p.idle_ticks_required

module _ (p : Params) where
  new_state-Sound :
      (pid : Pid) (name : String) (baseline : Kb) (cg : Option String) (force : Bool)
      → Sound p (new_state pid name baseline cg force)
  unfolding new_state
  new_state-Sound pid name baseline cg force = record {
    shown = λ e. ground arith;
    throttled = λ e. ground arith;
    short = λ h. h;
  }

  sample_step-Sound :
      (now : Instant) (proc : Process) (s : SpikeState)
      → Sound p s
      → Sound p (sample_step p now proc s)
  unfolding sample_step
  sample_step-Sound now proc s h = record {
    shown = h.shown;
    throttled = h.throttled;
    short = h.short;
  }

  peak_step-Sound : (s : SpikeState) → Sound p s → Sound p (peak_step p s)
  unfolding peak_step
  peak_step-Sound s h = record {
    shown = λ e. ground (arith, h.shown);
    throttled = λ e. ground (arith, h.throttled);
    short = λ e. ground (arith, h.short);
  }

  oscillation_step-Sound :
      (proc : Process) (s : SpikeState) → Sound p s → Sound p (oscillation_step p proc s)
  unfolding oscillation_step
  oscillation_step-Sound proc s h = record {
    shown = λ e. ground (arith, h.shown);
    throttled = λ e. ground (arith, h.throttled);
    short = λ e. ground (arith, h.short);
  }

  phase_step-Sound :
      (proc : Process) (d : Kb) (s : SpikeState) → Sound p s → Sound p (phase_step p proc d s).0
  unfolding phase_step demote
  phase_step-Sound proc d s h = record {
    shown = λ e. ground (arith, h.shown);
    throttled = λ e. ground (arith, h.throttled);
    short = λ e. ground (arith, h.short);
  }

  track-Sound :
      (now : Instant) (proc : Process) (d : Kb) (s : SpikeState)
      → Sound p s
      → Sound p (track p now proc d s).0
  unfolding track
  track-Sound now proc d s h =
      phase_step-Sound proc d _
        (oscillation_step-Sound proc _ (peak_step-Sound _ (sample_step-Sound now proc s h)))

  cpu_step-Sound :
      (fg : Option Pid) (proc : Process) (s : SpikeState)
      → Sound p s
      → Sound p (cpu_step p fg proc s).0
  unfolding cpu_step
  cpu_step-Sound fg proc s h = record {
    shown = λ e. ground (arith, h.shown);
    throttled = λ e. ground (arith, h.throttled);
    short = λ e. ground (arith, h.short);
  }

  abbrev AllSound : SpikeTracker → Type 0
  AllSound t = All (λ x. Sound p x.1) t.spikes

  pick-Sound :
      (b : Bool) (x y : SpikeTracker) → AllSound x → AllSound y → AllSound (if b then x else y)
  pick-Sound true x y h k = h
  pick-Sound false x y h k = k

  register-Sound : (proc : Process) (t : SpikeTracker) → AllSound t → AllSound (register p proc t)
  unfolding register
  register-Sound proc t h = pick-Sound _ t _ h (
      insert-All (Sound p) proc.pid _ t.spikes
        (new_state-Sound proc.pid proc.name _ proc.cgroup_path _) h)

  register_all-Sound :
      (procs : List Process) (t : SpikeTracker) → AllSound t → AllSound (register_all p procs t)
  unfolding register_all
  register_all-Sound [] t h = h
  register_all-Sound (proc ∷ procs) t h =
      register_all-Sound procs (register p proc t) (register-Sound proc t h)

  track_all-Sound :
      (now : Instant) (procs : List Process) (t : SpikeTracker)
      → AllSound t
      → AllSound (track_all p now procs t).0
  unfolding track_all
  track_all-Sound now [] t h = h
  track_all-Sound now (proc ∷ procs) t h = elim (Option-cases (lookup proc.pid t.spikes)) [
    | inl e ↦ rw (e, track_all) (track_all-Sound now procs t h)
    | inr (s, e) ↦
        rw (e, track_all)
          (track_all-Sound now procs _ (
            insert-All (Sound p) proc.pid _ t.spikes
              (track-Sound now proc _ s (lookup-All (Sound p) proc.pid t.spikes s h e)) h))
  ]

  cpu_all-Sound :
      (fg : Option Pid) (procs : List Process) (t : SpikeTracker)
      → AllSound t
      → AllSound (cpu_all p fg procs t).0
  unfolding cpu_all
  cpu_all-Sound fg [] t h = h
  cpu_all-Sound fg (proc ∷ procs) t h = elim (Option-cases (lookup proc.pid t.spikes)) [
    | inl e ↦ rw (e, cpu_all) (cpu_all-Sound fg procs t h)
    | inr (s, e) ↦
        rw (e, cpu_all)
          (cpu_all-Sound fg procs _ (
            insert-All (Sound p) proc.pid _ t.spikes
              (cpu_step-Sound fg proc s (lookup-All (Sound p) proc.pid t.spikes s h e)) h))
  ]

  release-spikes :
      (demoted : Bool) (t : SpikeTracker) → (release_step demoted t).0.spikes ≡ t.spikes
  unfolding release_step drain_if_none_tracking
  release-spikes demoted t = ground arith

  -- An update keeps every spike sound: a tracked one has peaked and fallen back, only a tracked one is
  -- throttled, and none has been idle for as long as it takes to give it up.
  pub update-Sound :
      (fg : Option Pid) (now : Instant) (procs : List Process) (available : Kb) (t : SpikeTracker)
      → All (λ x. Sound p x.1) t.spikes
      → All (λ x. Sound p x.1) (update p fg now procs available t).0.spikes
  unfolding update advance_caches
  update-Sound fg now procs available t h =
      let registered = register_all p procs t in
      let (tracked, ds, demoted) = track_all p now procs registered in
      cpu_all-Sound fg procs (release_step demoted (advance_caches now procs tracked)).0 (
        rw (release-spikes demoted (advance_caches now procs tracked))
          (track_all-Sound now procs registered (register_all-Sound procs t h)))
