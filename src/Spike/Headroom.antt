-- ===== src/Spike/Headroom.antt =====
-- mgd/src/spike_mode.rs: the decisions of an update that are about victims.
use lmkd_linux.Prelude.{
  ◌≡◌, refl, Bool, true, false, ◌&&◌, ◌||◌, Option, List, [], ◌∷◌, ◌++◌, any, keep, nat_eq,
  Option-cases, inl, inr, arith,
}
use lmkd_linux.Prelude.Maps.{lookup, insert}
use lmkd_linux.Types.{Pid, Kb, kb_sum}
use lmkd_linux.Time.{Instant}
use lmkd_linux.Process.{Process}
use lmkd_linux.Spike.{
  SpikeState, SpikeDecision, freeze_for_headroom, release_victims, Params, phase_step, lift, track,
  cpu_step,
}
use lmkd_linux.Spike.Victims.{
  SpikeTracker, values, is_tracking, any_tracking, drain_if_none_tracking,
}
use lmkd_linux.Spike.Tracker.{
  register_all, track_all, advance_caches, release_step, sum_rss_max, headroom, cpu_all, update,
  rss_delta,
}

abbrev pub is_release : SpikeDecision → Bool
is_release (release_victims vs) = true
is_release _ = false

abbrev pub is_request : SpikeDecision → Bool
is_request (freeze_for_headroom k) = true
is_request _ = false

abbrev about_victims : SpikeDecision → Bool
about_victims d = is_release d || is_request d

any-append :
    (p : SpikeDecision → Bool) (xs ys : List SpikeDecision)
    → any p (xs ++ ys) ≡ any p xs || any p ys
any-append p [] ys = refl
any-append p (x ∷ xs) ys = ground (arith, any-append p xs ys)

quiet-append :
    (xs ys : List SpikeDecision)
    → any about_victims xs ≡ false
    → any about_victims ys ≡ false
    → any about_victims (xs ++ ys) ≡ false
quiet-append xs ys h k = ground (arith, any-append about_victims xs ys)

-- Decisions about CPU shares neither release nor ask.
quiet-parts :
    (xs : List SpikeDecision)
    → any about_victims xs ≡ false
    → (any is_release xs ≡ false) × (any is_request xs ≡ false)
quiet-parts [] h = (refl, refl)
quiet-parts (x ∷ xs) h =
    let ih = quiet-parts xs (ground arith) in (ground (arith, ih.0), ground (arith, ih.1))

track_quiet :
    (p : Params) (now : Instant) (proc : Process) (d : Kb) (s : SpikeState)
    → any about_victims (track p now proc d s).1 ≡ false
unfolding track phase_step lift
track_quiet p now proc d s = ground arith

cpu_quiet :
    (p : Params) (fg : Option Pid) (proc : Process) (s : SpikeState)
    → any about_victims (cpu_step p fg proc s).1 ≡ false
unfolding cpu_step
cpu_quiet p fg proc s = ground arith

track_all_quiet :
    (p : Params) (now : Instant) (procs : List Process) (t : SpikeTracker)
    → any about_victims (track_all p now procs t).1 ≡ false
unfolding track_all
track_all_quiet p now [] t = refl
track_all_quiet p now (proc ∷ procs) t = elim (Option-cases (lookup proc.pid t.spikes)) [
  | inl e ↦ rw (e, track_all) (track_all_quiet p now procs t)
  | inr (s, e) ↦
      let step = track p now proc (rss_delta t proc) s in
      let t' = record t { spikes = insert proc.pid step.0 t.spikes } in
      rw (e, track_all)
        (quiet-append step.1 (track_all p now procs t').1
          (track_quiet p now proc (rss_delta t proc) s) (track_all_quiet p now procs t'))
]

cpu_all_quiet :
    (p : Params) (fg : Option Pid) (procs : List Process) (t : SpikeTracker)
    → any about_victims (cpu_all p fg procs t).1 ≡ false
unfolding cpu_all
cpu_all_quiet p fg [] t = refl
cpu_all_quiet p fg (proc ∷ procs) t = elim (Option-cases (lookup proc.pid t.spikes)) [
  | inl e ↦ rw (e, cpu_all) (cpu_all_quiet p fg procs t)
  | inr (s, e) ↦
      let step = cpu_step p fg proc s in
      let t' = record t { spikes = insert proc.pid step.0 t.spikes } in
      rw (e, cpu_all)
        (quiet-append step.1 (cpu_all p fg procs t').1 (cpu_quiet p fg proc s)
          (cpu_all_quiet p fg procs t'))
]

keep_none : (xs : List SpikeState) → any is_tracking xs ≡ false → keep is_tracking xs ≡ []
keep_none [] h = refl
keep_none (x ∷ xs) h = ground (arith, keep_none xs (ground arith))

headroom_none :
    (p : Params) (available : Kb) (t : SpikeTracker)
    → any_tracking t ≡ false
    → headroom p available t ≡ []
unfolding headroom sum_rss_max kb_sum
headroom_none p available t h = ground (arith, keep_none (values t.spikes) h)

headroom_no_release :
    (p : Params) (available : Kb) (t : SpikeTracker)
    → any is_release (headroom p available t) ≡ false
unfolding headroom
headroom_no_release p available t = ground arith

release_step_cases :
    (demoted : Bool) (t : SpikeTracker)
    → let (after, rs) = release_step demoted t in
      (any is_request rs ≡ false) × (any is_release rs ≡ true → any_tracking after ≡ false)
unfolding release_step drain_if_none_tracking
release_step_cases demoted t = (ground arith, λ h. ground arith)

-- Four lists of decisions, of which the outer two are about CPU shares.
exclusive_parts :
    (ds rs hs cs : List SpikeDecision)
    → any about_victims ds ≡ false
    → any about_victims cs ≡ false
    → any is_request rs ≡ false
    → any is_release hs ≡ false
    → (any is_release rs ≡ true → hs ≡ [])
    → (any is_release (ds ++ rs ++ hs ++ cs) && any is_request (ds ++ rs ++ hs ++ cs)) ≡ false
exclusive_parts ds rs hs cs d c r h k =
    let qd = quiet-parts ds d in
    let qc = quiet-parts cs c in
    let rel : any is_release (ds ++ rs ++ hs ++ cs) ≡ any is_release rs =
      rw
        (
          any-append is_release (ds ++ rs ++ hs) cs,
          any-append is_release (ds ++ rs) hs,
          any-append is_release ds rs,
          qd.0,
          qc.0,
          h,
        )
        (ground arith) in
    let req : any is_request (ds ++ rs ++ hs ++ cs) ≡ any is_request hs =
      rw
        (
          any-append is_request (ds ++ rs ++ hs) cs,
          any-append is_request (ds ++ rs) hs,
          any-append is_request ds rs,
          qd.1,
          qc.1,
          r,
        )
        (ground arith) in
    rw (rel, req) (ground (arith, k))

-- No update both releases victims and asks for more processes to be frozen.
pub update_exclusive :
    (p : Params) (fg : Option Pid) (now : Instant) (procs : List Process) (available : Kb)
    (t : SpikeTracker)
    → let ds = (update p fg now procs available t).1 in
      (any is_release ds && any is_request ds) ≡ false
unfolding update
update_exclusive p fg now procs available t =
    let (tracked, ds, demoted) = track_all p now procs (register_all p procs t) in
    let cached = advance_caches now procs tracked in
    let c = release_step_cases demoted cached in
    let released = (release_step demoted cached).0 in
    exclusive_parts ds (release_step demoted cached).1 (headroom p available released)
      (cpu_all p fg procs released).1 (track_all_quiet p now procs (register_all p procs t))
      (cpu_all_quiet p fg procs released) c.0 (headroom_no_release p available released)
      (λ e. headroom_none p available released (c.1 e))
