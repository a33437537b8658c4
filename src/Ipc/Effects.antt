-- ===== src/Ipc/Effects.antt =====
-- mgd/src/ipc.rs: what the commands do to the registry of frozen processes.
use lmkd_linux.Prelude.{
  ℕ, ◌≡◌, refl, ap, Bool, true, false, ◌&&◌, ◌||◌, not, is_some, List, [], ◌∷◌, map, any, keep,
  ◌==◌, nat_eq, ==_iff, arith,
}
use lmkd_linux.Prelude.Maps.{contains_key, lookup}
use lmkd_linux.Prelude.Text.{Text}
use lmkd_linux.Types.{Pid}
use lmkd_linux.Process.{Process}
use lmkd_linux.Execute.{is_success}
use lmkd_linux.Registry.Frozen as Frozen
use lmkd_linux.Registry.Laws.{add-is_frozen, delete-is_frozen}
use lmkd_linux.Signals.{sigstop, send_signal, unfreeze_checked}
use lmkd_linux.Ipc.{
  Reply, ok, no_match, System, Daemon, matches, name_of, unfreeze_one, unfreeze_each,
  pids_to_unfreeze, queue_release, cmd_unfreeze, freeze_one, freeze_each, candidates, cmd_freeze,
}

abbrev frozen_in : Pid → Daemon → Bool
frozen_in j s = Frozen.is_frozen j s.frozen

-- Whether a process with that start time on record is continued, or gone.
abbrev pub released : System → Pid → ℕ → Bool
released sys j st = is_success (unfreeze_checked (sys.read_start_time j) (sys.continued j) j st).0

abbrev pub stops : System → Pid → Bool
stops sys j = is_success (send_signal (sys.stopped j) j sigstop).0

at_same : (f : Pid → Bool) (p j : Pid) → (p == j && f p) ≡ (p == j && f j)
at_same f p j = by_test (p == j) refl
  where
    by_test : (b : Bool) → b ≡ (p == j) → (b && f p) ≡ (b && f j)
    by_test true q = let same_pid : p ≡ j = ground (arith, q) in ap f same_pid
    by_test false q = refl

any-keep :
    (m : Pid → Bool) (j : Pid) (pids : List Pid)
    → any (λ p. p == j) (keep m pids) ≡ (m j && any (λ p. p == j) pids)
any-keep m j [] = ground arith
any-keep m j (p ∷ pids) = ground (arith, any-keep m j pids, at_same m p j)

any-frozen_pids :
    (j : Pid) (r : Frozen.FrozenRegistry)
    → any (λ p. p == j) (Frozen.frozen_pids r) ≡ Frozen.is_frozen j r
unfolding Frozen.frozen_pids Frozen.is_frozen lookup
any-frozen_pids j r = in_keys r.frozen
  where
    in_keys :
        (m : List (Pid × Frozen.FrozenEntry))
        → any (λ p. p == j) (map (λ e. e.0) m) ≡ contains_key j m
    in_keys [] = refl
    in_keys (e ∷ m) = ground (arith, in_keys m)

module _ (sys : System) where
  unfreeze_one-is_frozen :
      (p j : Pid) (st : ℕ) (s : Daemon)
      → frozen_in j (unfreeze_one sys (p, st) s).0
        ≡ (frozen_in j s && not (p == j && released sys p st))
  unfolding unfreeze_one
  unfreeze_one-is_frozen p j st s = ground (arith, delete-is_frozen p j s.frozen, ==_iff p j)

  unfreeze_each-is_frozen :
      (st : Pid → ℕ) (pids : List Pid) (s : Daemon) (j : Pid)
      → frozen_in j (unfreeze_each sys (map (λ p. (p, st p)) pids) s).0
        ≡ (frozen_in j s && not (any (λ p. p == j) pids && released sys j (st j)))
  unfolding unfreeze_each
  unfreeze_each-is_frozen st [] s j = ground arith
  unfreeze_each-is_frozen st (p ∷ pids) s j =
      let next = (unfreeze_one sys (p, st p) s).0 in
      ground (
        arith,
        unfreeze_each-is_frozen st pids next j,
        unfreeze_one-is_frozen p j (st p) s,
        at_same (λ q. released sys q (st q)) p j,
      )

  queue_release-frozen :
      (vs : List Pid) (s : Daemon) (j : Pid)
      → frozen_in j (queue_release vs s).0 ≡ frozen_in j (unfreeze_each sys [] s).0
  unfolding queue_release unfreeze_each
  queue_release-frozen [] s j = refl
  queue_release-frozen (v ∷ vs) s j = refl

  -- A process is frozen after `unfreeze` exactly when it was and is not one that the argument matches and
  -- that was continued or is gone.
  pub cmd_unfreeze-is_frozen :
      (arg : Text) (s : Daemon) (j : Pid)
      → frozen_in j (cmd_unfreeze sys arg s).0 ≡ (
          frozen_in j s
          && not
              (matches arg j (name_of j s.frozen) && released sys j (Frozen.start_time j s.frozen)))
  unfolding cmd_unfreeze pids_to_unfreeze
  cmd_unfreeze-is_frozen arg s j = ground (
    arith,
    by_list (pids_to_unfreeze arg s.frozen)
        (map (λ v. v.0) (keep (λ v. matches arg v.0 v.1) sys.victims)),
    unfreeze_each-is_frozen (λ pid. Frozen.start_time pid s.frozen)
        (keep (λ pid. matches arg pid (name_of pid s.frozen)) (Frozen.frozen_pids s.frozen)) s j,
    any-keep (λ pid. matches arg pid (name_of pid s.frozen)) j (Frozen.frozen_pids s.frozen),
    any-frozen_pids j s.frozen,
  )
    where
      by_list :
          (ps : List (Pid × ℕ)) (vs : List Pid)
          → frozen_in j
              (elim ps as (λ _. Daemon × Reply) [
                | [] ↦ queue_release vs s
                | p ∷ ps ↦ let (after, lines) = unfreeze_each sys (p ∷ ps) s in (after, ok lines)
              ]).0
            ≡ frozen_in j (unfreeze_each sys ps s).0
      by_list [] vs = queue_release-frozen vs s j
      by_list (p ∷ ps) vs = refl

  freeze_one-is_frozen :
      (p : Process) (j : Pid) (s : Daemon)
      → frozen_in j (freeze_one sys p s).0
        ≡ (frozen_in j s || (p.pid == j && stops sys p.pid && is_some (sys.read_start_time p.pid)))
  unfolding freeze_one
  freeze_one-is_frozen p j s = ground (
    arith,
    (add-is_frozen (sys.read_start_time p.pid) sys.unix_now p.pid j p.name s.frozen).1,
    (add-is_frozen (sys.read_start_time p.pid) sys.unix_now p.pid j p.name s.frozen).0,
    at_same (λ q. frozen_in q s) p.pid j,
    ==_iff p.pid j,
  )

  freeze_each-is_frozen :
      (ps : List Process) (s : Daemon) (j : Pid)
      → frozen_in j (freeze_each sys ps s).0 ≡ (
          frozen_in j s
          || (any (λ p. p.pid == j) ps && stops sys j && is_some (sys.read_start_time j)))
  unfolding freeze_each
  freeze_each-is_frozen [] s j = ground arith
  freeze_each-is_frozen (p ∷ ps) s j =
      let next = (freeze_one sys p s).0 in
      ground (
        arith,
        freeze_each-is_frozen ps next j,
        freeze_one-is_frozen p j s,
        at_same (λ q. stops sys q && is_some (sys.read_start_time q)) p.pid j,
      )

  -- A process is frozen after `freeze` exactly when it was, or it is one of the listed processes that the
  -- argument matches, was stopped, and still has a start time.
  pub cmd_freeze-is_frozen :
      (arg : Text) (s : Daemon) (j : Pid)
      → frozen_in j (cmd_freeze sys arg s).0 ≡ (
          frozen_in j s
          || (any (λ p. p.pid == j) (candidates arg sys.processes)
              && stops sys j
              && is_some (sys.read_start_time j)))
  unfolding cmd_freeze
  cmd_freeze-is_frozen arg s j =
      by_list (candidates arg sys.processes)
        (freeze_each-is_frozen (candidates arg sys.processes) s j)
    where
      by_list :
          (ps : List Process)
          → frozen_in j (freeze_each sys ps s).0 ≡ (
              frozen_in j s
              || (any (λ p. p.pid == j) ps && stops sys j && is_some (sys.read_start_time j)))
          → frozen_in j
              (elim ps as (λ _. Daemon × Reply) [
                | [] ↦ (s, no_match)
                | p ∷ ps ↦ let (after, lines) = freeze_each sys (p ∷ ps) s in (after, ok lines)
              ]).0
            ≡ (frozen_in j s
                || (any (λ p. p.pid == j) ps && stops sys j && is_some (sys.read_start_time j)))
      by_list [] h = ground arith
      by_list (p ∷ ps) h = h
