-- ===== src/LeakGuard/Window.antt =====
-- mgd/src/leak_guard.rs: the window of samples of a group.
use lmkd_linux.Prelude.{
  ℕ, ◌≤◌, ◌≡◌, inl, inr, String, false, List, [], ◌∷◌, ◌++◌, All, All-map, All-append, length,
  Bool-cases, ltb, arith,
}
use lmkd_linux.Time.{Instant, duration_since, from_secs}
use lmkd_linux.Process.{Process}
use lmkd_linux.LeakGuard.{CountSample, GroupState, Params, prune, group_step}

-- The oldest sample first, none from after `now`.
abbrev pub Timed : Instant → List CountSample → Type 0
Timed now [] = Unit
Timed now (s ∷ ss) = (s.taken_at ≤ now) × All (λ t. s.taken_at ≤ t.taken_at) ss × Timed now ss

prune_window :
    (window : ℕ) (now : Instant) (ss : List CountSample)
    → Timed now ss
    → All (λ s. duration_since now s.taken_at ≤ window) (prune window now ss)
      × Timed now (prune window now ss)
unfolding prune
prune_window window now [] h = (tt, tt)
prune_window window now (s ∷ ss) h =
    elim (Bool-cases (ltb window (duration_since now s.taken_at))) [
      | inl e ↦ rw (e, prune) (prune_window window now ss h.2)
      | inr e ↦ rw (e, prune) ((ground arith, All-map _ _ ss (λ t q. older_fits t q e) h.1), h)
    ]
  where
    older_fits :
        (t : CountSample)
        → s.taken_at ≤ t.taken_at
        → ltb window (duration_since now s.taken_at) ≡ false
        → duration_since now t.taken_at ≤ window
    older_fits t q e = ground arith

Timed-push :
    (before now : Instant) (n : ℕ) (ss : List CountSample)
    → before ≤ now
    → Timed before ss
    → Timed now (ss ++ record { count = n; taken_at = now } ∷ [])
Timed-push before now n [] h t = (omega arith, tt, tt)
Timed-push before now n (s ∷ ss) h t =
    (omega arith, All-append _ ss _ t.1 (omega arith, tt), Timed-push before now n ss h t.2)

-- From samples in order of time, a later step leaves samples in order of time, all of them within
-- the window.
pub group_step-Timed :
    (p : Params) (before now : Instant) (display : String) (members : List Process) (g : GroupState)
    → before ≤ now
    → Timed before g.samples
    → let ss = (group_step p now display members g).0.samples in
      All (λ s. duration_since now s.taken_at ≤ from_secs p.window_sec) ss × Timed now ss
unfolding group_step
group_step-Timed p before now display members g h t =
    prune_window (from_secs p.window_sec) now _
      (Timed-push before now (length members) g.samples h t)
