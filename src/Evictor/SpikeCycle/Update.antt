-- ===== src/Evictor/SpikeCycle/Update.antt =====
-- mgd/src/spike_mode.rs: an update of the tracker keeps the victims, or hands them out in a decision.
use mathlib.Core.Path.{subst}
use mathlib.Core.List.{append_assoc, append-nil}
use lmkd_linux.Prelude.{
  ◌≡◌, refl, sym, ◌∙◌, ap, inl, inr, Bool, true, false, ◌||◌, Option, none, some, List, [], ◌∷◌,
  ◌++◌, nat_eq, arith,
}
use lmkd_linux.Prelude.Maps.{lookup, insert}
use lmkd_linux.Types.{Pid, Kb}
use lmkd_linux.Time.{Instant}
use lmkd_linux.Process.{Process}
use lmkd_linux.Spike.{
  SpikeVictim, SpikeState, SpikeDecision, freeze_for_headroom, throttle_spike, restore_throttle,
  release_victims, Params, lift, phase_step, track, cpu_step, sample_step, peak_step,
  oscillation_step,
}
use lmkd_linux.Spike.Victims.{SpikeTracker, drain_if_none_tracking}
use lmkd_linux.Spike.Tracker.{
  register, register_all, track_all, advance_caches, release_step, headroom, cpu_all, update,
  rss_delta,
}
use lmkd_linux.Evictor.SpikeCycle.Release.{held_in, IsKeyed, Conserves, drain-Conserves}

-- The victims that a decision releases.
unfoldable pub victims_in : List SpikeDecision → List SpikeVictim
victims_in [] = []
victims_in (release_victims vs ∷ ds) = vs ++ victims_in ds
victims_in (freeze_for_headroom needed ∷ ds) = victims_in ds
victims_in (throttle_spike pid path ∷ ds) = victims_in ds
victims_in (restore_throttle pid path ∷ ds) = victims_in ds

victims_in-append :
    (ds es : List SpikeDecision) → victims_in (ds ++ es) ≡ victims_in ds ++ victims_in es
unfolding victims_in
victims_in-append [] es = refl
victims_in-append (release_victims vs ∷ ds) es =
    ap (λ l. vs ++ l) (victims_in-append ds es)
    ∙ sym (append_assoc vs (victims_in ds) (victims_in es))
victims_in-append (freeze_for_headroom needed ∷ ds) es = victims_in-append ds es
victims_in-append (throttle_spike pid path ∷ ds) es = victims_in-append ds es
victims_in-append (restore_throttle pid path ∷ ds) es = victims_in-append ds es

-- The victims stay and no decision releases any.
abbrev Quiet : SpikeTracker → SpikeTracker → List SpikeDecision → Type 0
Quiet t after ds = (after.victims ≡ t.victims) × (victims_in ds ≡ [])

register-victims :
    (p : Params) (proc : Process) (t : SpikeTracker) → (register p proc t).victims ≡ t.victims
unfolding register
register-victims p proc t = ground arith

register_all-victims :
    (p : Params) (procs : List Process) (t : SpikeTracker)
    → (register_all p procs t).victims ≡ t.victims
unfolding register_all
register_all-victims p [] t = refl
register_all-victims p (proc ∷ procs) t =
    register_all-victims p procs (register p proc t) ∙ register-victims p proc t

track-quiet :
    (p : Params) (now : Instant) (proc : Process) (delta : Kb) (s : SpikeState)
    → victims_in (track p now proc delta s).1 ≡ []
unfolding track phase_step lift victims_in
track-quiet p now proc delta s =
    by_phase (oscillation_step p proc (peak_step p (sample_step p now proc s)))
  where
    by_phase : (s : SpikeState) → victims_in (phase_step p proc delta s).1 ≡ []
    by_phase s = ground arith

cpu_step-quiet :
    (p : Params) (fg : Option Pid) (proc : Process) (s : SpikeState)
    → victims_in (cpu_step p fg proc s).1 ≡ []
unfolding cpu_step victims_in
cpu_step-quiet p fg proc s = ground arith

quiet-append :
    (ds es : List SpikeDecision)
    → victims_in ds ≡ []
    → victims_in es ≡ []
    → victims_in (ds ++ es) ≡ []
quiet-append ds es h k = victims_in-append ds es ∙ ap (λ l. l ++ victims_in es) h ∙ k

track_all-Quiet :
    (p : Params) (now : Instant) (procs : List Process) (t : SpikeTracker)
    → Quiet t (track_all p now procs t).0 (track_all p now procs t).1
unfolding track_all victims_in
track_all-Quiet p now [] t = (refl, refl)
track_all-Quiet p now (proc ∷ procs) t =
    by_entry (lookup proc.pid t.spikes) (track_all-Quiet p now procs)
  where
    by_entry :
        (o : Option SpikeState)
        → ((u : SpikeTracker) → Quiet u (track_all p now procs u).0 (track_all p now procs u).1)
        → let r : SpikeTracker × List SpikeDecision × Bool = elim o [
          | none ↦ track_all p now procs t
          | some s ↦
              let (next, ds, demoted) = track p now proc (rss_delta t proc) s in
              let (after, es, later) =
                track_all p now procs (record t { spikes = insert proc.pid next t.spikes }) in
              (after, ds ++ es, demoted || later)
        ] in
          Quiet t r.0 r.1
    by_entry none ih = ih t
    by_entry (some s) ih =
        let step = track p now proc (rss_delta t proc) s in
        let rest = ih (record t { spikes = insert proc.pid step.0 t.spikes }) in
        (rest.0, quiet-append step.1 _ (track-quiet p now proc (rss_delta t proc) s) rest.1)

cpu_all-Quiet :
    (p : Params) (fg : Option Pid) (procs : List Process) (t : SpikeTracker)
    → Quiet t (cpu_all p fg procs t).0 (cpu_all p fg procs t).1
unfolding cpu_all victims_in
cpu_all-Quiet p fg [] t = (refl, refl)
cpu_all-Quiet p fg (proc ∷ procs) t = by_entry (lookup proc.pid t.spikes) (cpu_all-Quiet p fg procs)
  where
    by_entry :
        (o : Option SpikeState)
        → ((u : SpikeTracker) → Quiet u (cpu_all p fg procs u).0 (cpu_all p fg procs u).1)
        → let r : SpikeTracker × List SpikeDecision = elim o [
          | none ↦ cpu_all p fg procs t
          | some s ↦
              let (next, ds) = cpu_step p fg proc s in
              let (after, es) =
                cpu_all p fg procs (record t { spikes = insert proc.pid next t.spikes }) in
              (after, ds ++ es)
        ] in
          Quiet t r.0 r.1
    by_entry none ih = ih t
    by_entry (some s) ih =
        let step = cpu_step p fg proc s in
        let rest = ih (record t { spikes = insert proc.pid step.0 t.spikes }) in
        (rest.0, quiet-append step.1 _ (cpu_step-quiet p fg proc s) rest.1)

headroom-quiet :
    (p : Params) (available : Kb) (t : SpikeTracker) → victims_in (headroom p available t) ≡ []
unfolding headroom victims_in
headroom-quiet p available t = ground arith

-- The release after a demotion hands out what it drains.
release_step-Conserves :
    (demoted : Bool) (t : SpikeTracker)
    → IsKeyed t
    → Conserves t ((release_step demoted t).0, victims_in (release_step demoted t).1)
unfolding release_step victims_in
release_step-Conserves false t keyed = (keyed, λ pid st h. inl h)
release_step-Conserves true t keyed =
    by_victims (drain_if_none_tracking t).1 (drain-Conserves t keyed)
  where
    by_victims :
        (vs : List SpikeVictim)
        → Conserves t ((drain_if_none_tracking t).0, vs)
        → let r : SpikeTracker × List SpikeDecision = elim vs [
          | [] ↦ ((drain_if_none_tracking t).0, [])
          | v ∷ rest ↦ ((drain_if_none_tracking t).0, release_victims (v ∷ rest) ∷ [])
        ] in
          Conserves t (r.0, victims_in r.1)
    by_victims [] c = c
    by_victims (v ∷ vs) c =
        subst (λ l. Conserves t ((drain_if_none_tracking t).0, l)) (sym (append-nil (v ∷ vs))) c

-- Only the map of the victims matters.
moved-Conserves :
    (t u v w : SpikeTracker) (vs : List SpikeVictim)
    → u.victims ≡ t.victims
    → w.victims ≡ v.victims
    → Conserves u (v, vs)
    → Conserves t (w, vs)
moved-Conserves t u v w vs e f c = (
  (λ pid x h. c.0 pid x (ground (arith, f, h))),
  λ pid st h. elim (c.1 pid st (ap (held_in pid st) e ∙ h)) [
    | inl stays ↦ inl (ap (held_in pid st) f ∙ stays)
    | inr out ↦ inr out
  ],
)

only_middle :
    (xs bs cs ds : List SpikeDecision)
    → victims_in xs ≡ []
    → victims_in cs ≡ []
    → victims_in ds ≡ []
    → victims_in (xs ++ bs ++ cs ++ ds) ≡ victims_in bs
only_middle xs bs cs ds a c d = simp (victims_in-append, a, c, d, append-nil)

-- A whole update hands out in its decisions every victim that it does not keep.
pub update-Conserves :
    (p : Params) (fg : Option Pid) (now : Instant) (procs : List Process) (available : Kb)
    (t : SpikeTracker)
    → IsKeyed t
    → let r = update p fg now procs available t in Conserves t (r.0, victims_in r.1)
unfolding update advance_caches
update-Conserves p fg now procs available t keyed =
    subst (λ l. Conserves t (after.0, l)) (sym all_in)
      (moved-Conserves t advanced released.0 after.0 (victims_in released.1)
        (tracked-Quiet.0 ∙ register_all-victims p procs t) (cpu_all-Quiet p fg procs released.0).0
        (release_step-Conserves tracked.2 advanced advanced-IsKeyed))
  where
    tracked : SpikeTracker × List SpikeDecision × Bool
    tracked = track_all p now procs (register_all p procs t)

    tracked-Quiet : Quiet (register_all p procs t) tracked.0 tracked.1
    tracked-Quiet = track_all-Quiet p now procs (register_all p procs t)

    advanced : SpikeTracker
    advanced = advance_caches now procs tracked.0

    advanced-IsKeyed : IsKeyed advanced
    advanced-IsKeyed =
        subst (λ m. (pid : Pid) (v : SpikeVictim) → lookup pid m ≡ some v → v.pid ≡ pid)
          (sym (tracked-Quiet.0 ∙ register_all-victims p procs t)) keyed

    released : SpikeTracker × List SpikeDecision
    released = release_step tracked.2 advanced

    after : SpikeTracker × List SpikeDecision
    after = cpu_all p fg procs released.0

    all_in :
        victims_in (tracked.1 ++ released.1 ++ headroom p available released.0 ++ after.1)
        ≡ victims_in released.1
    all_in =
        only_middle tracked.1 released.1 (headroom p available released.0) after.1 tracked-Quiet.1
          (headroom-quiet p available released.0) (cpu_all-Quiet p fg procs released.0).1
