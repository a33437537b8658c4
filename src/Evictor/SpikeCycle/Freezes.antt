-- ===== src/Evictor/SpikeCycle/Freezes.antt =====
-- mgd/src/evictor/spike.rs: whom the headroom loop stops becomes a victim.
use mathlib.Core.Path.{subst}
use lmkd_linux.Prelude.{
  ℕ, ◌-◌, ◌≡◌, refl, sym, ◌∙◌, ap, ◌⊎◌, inl, inr, Bool, true, false, ◌&&◌, Option, none, some, List,
  [], ◌∷◌, All, All-map, nat_eq, ◌==◌, Option-cases, Bool-cases, if◌then◌else◌, arith,
}
use lmkd_linux.Prelude.Maps.{lookup, lookup-insert}
use lmkd_linux.Types.{Pid, Kb}
use lmkd_linux.Process.{Process}
use lmkd_linux.Execute.{OpResult, success, fail}
use lmkd_linux.Signals.{freeze_checked}
use lmkd_linux.Spike.{SpikeVictim}
use lmkd_linux.Spike.Victims.{SpikeTracker, persist_victims, record_victim_frozen}
use lmkd_linux.Evictor.SpikeCycle.{
  System, CycleState, victim_of, frozen_step, freeze_candidate, freeze_for,
}
use lmkd_linux.Evictor.SpikeCycle.Release.{held, IsKeyed}
use lmkd_linux.Evictor.SpikeCycle.Owed.{owed, Kept}

module _ (sys : System) where
  -- A victim with the pid of a candidate would be the process that is there now.
  abbrev pub Clear : SpikeTracker → Process → Type 0
  Clear t p =
      (v : SpikeVictim)
      → lookup p.pid t.victims ≡ some v
      → sys.read_start_time p.pid ≡ some v.start_time

  abbrev with_victim : Pid → Process → ℕ → SpikeTracker → SpikeTracker
  with_victim spike_pid p st t = record_victim_frozen (victim_of sys spike_pid p st) t

  with_victim-Clear :
      (spike_pid : Pid) (p q : Process) (st : ℕ) (t : SpikeTracker)
      → sys.read_start_time p.pid ≡ some st
      → Clear t q
      → Clear (with_victim spike_pid p st t) q
  unfolding record_victim_frozen persist_victims victim_of
  with_victim-Clear spike_pid p q st t read c v h = elim (Bool-cases (p.pid == q.pid)) [
    | inl same ↦
        let e : p.pid ≡ q.pid = ground arith in
        let f : victim_of sys spike_pid p st ≡ v =
          ground (arith, lookup-insert p.pid q.pid (victim_of sys spike_pid p st) t.victims) in
        subst (λ x. sys.read_start_time x ≡ some v.start_time) e
          (read ∙ ap (λ x. some x.start_time) f)
    | inr other ↦
        c v (ground (arith, lookup-insert p.pid q.pid (victim_of sys spike_pid p st) t.victims))
  ]

  with_victim-IsKeyed :
      (spike_pid : Pid) (p : Process) (st : ℕ) (t : SpikeTracker)
      → IsKeyed t
      → IsKeyed (with_victim spike_pid p st t)
  unfolding record_victim_frozen persist_victims victim_of
  with_victim-IsKeyed spike_pid p st t keyed pid v h = elim (Bool-cases (p.pid == pid)) [
    | inl same ↦
        let e : p.pid ≡ pid = ground arith in
        let f : victim_of sys spike_pid p st ≡ v =
          ground (arith, lookup-insert p.pid pid (victim_of sys spike_pid p st) t.victims) in
        sym (ap (λ x. x.pid) f) ∙ e
    | inr other ↦
        keyed pid v
          (ground (arith, lookup-insert p.pid pid (victim_of sys spike_pid p st) t.victims))
  ]

  with_victim-held :
      (spike_pid : Pid) (p : Process) (st : ℕ) (t : SpikeTracker) (pid : Pid) (st' : ℕ)
      → sys.read_start_time p.pid ≡ some st
      → Clear t p
      → ((p.pid == pid) && (st == st') ≡ true) ⊎ (held pid st' t ≡ true)
      → held pid st' (with_victim spike_pid p st t) ≡ true
  unfolding record_victim_frozen persist_victims victim_of
  with_victim-held spike_pid p st t pid st' read c h = elim (Bool-cases (p.pid == pid)) [
    | inl same ↦
        let e : p.pid ≡ pid = ground arith in
        let now : (st == st') ≡ true = elim h [
          | inl m ↦ ground arith
          | inr k ↦ same_start (subst (λ x. held x st' t ≡ true) (sym e) k)
        ] in
        ground (arith, lookup-insert p.pid pid (victim_of sys spike_pid p st) t.victims)
    | inr other ↦ ground (arith, lookup-insert p.pid pid (victim_of sys spike_pid p st) t.victims)
  ]
    where
      same_start : held p.pid st' t ≡ true → (st == st') ≡ true
      same_start k = elim (Option-cases (lookup p.pid t.victims)) [
        | inl e ↦ absurd (ground (arith, k, e))
        | inr (v, e) ↦
            let f : some v.start_time ≡ some st = sym (c v e) ∙ read in ground (arith, k, e, f)
      ]

  frozen_step-Kept :
      (spike_pid : Pid) (p : Process) (st : ℕ) (r : OpResult) (pending : List SpikeVictim)
      (s : CycleState)
      → sys.read_start_time p.pid ≡ some st
      → Clear s.tracker p
      → Kept pending s
      → Kept pending (frozen_step sys spike_pid p st r s).0
  unfolding frozen_step owed
  frozen_step-Kept spike_pid p st success pending s read c h = (
    with_victim-IsKeyed spike_pid p st s.tracker h.0,
    λ pid st' o.
        ground (arith, h.1 pid st', with_victim-held spike_pid p st s.tracker pid st' read c),
  )
  frozen_step-Kept spike_pid p st (fail vanished) pending s read c h =
      (h.0, λ pid st' o. h.1 pid st' o)

  freeze_candidate-Kept :
      (spike_pid : Pid) (p : Process) (pending : List SpikeVictim) (s : CycleState)
      → Clear s.tracker p
      → Kept pending s
      → Kept pending (freeze_candidate sys spike_pid p s).0
  unfolding freeze_candidate
  freeze_candidate-Kept spike_pid p pending s c h = by_start (sys.read_start_time p.pid) (λ st e. e)
    where
      by_start :
          (o : Option ℕ)
          → ((st : ℕ) → o ≡ some st → sys.read_start_time p.pid ≡ some st)
          → let r : CycleState × Kb = elim o [
            | none ↦ (s, 0)
            | some st ↦
                frozen_step sys spike_pid p st
                  (freeze_checked (sys.checked_start_time p.pid) (sys.delivered p.pid) p.pid st).0
                  s
          ] in
            Kept pending r.0
      by_start none f = h
      by_start (some st) f = frozen_step-Kept spike_pid p st _ pending s (f st refl) c h

  freeze_candidate-Clear :
      (spike_pid : Pid) (p q : Process) (s : CycleState)
      → Clear s.tracker q
      → Clear (freeze_candidate sys spike_pid p s).0.tracker q
  unfolding freeze_candidate frozen_step
  freeze_candidate-Clear spike_pid p q s c = by_start (sys.read_start_time p.pid) (λ st e. e)
    where
      by_result :
          (st : ℕ) (r : OpResult)
          → sys.read_start_time p.pid ≡ some st
          → Clear (frozen_step sys spike_pid p st r s).0.tracker q
      by_result st success e = with_victim-Clear spike_pid p q st s.tracker e c
      by_result st (fail vanished) e = c

      by_start :
          (o : Option ℕ)
          → ((st : ℕ) → o ≡ some st → sys.read_start_time p.pid ≡ some st)
          → let r : CycleState × Kb = elim o [
            | none ↦ (s, 0)
            | some st ↦
                frozen_step sys spike_pid p st
                  (freeze_checked (sys.checked_start_time p.pid) (sys.delivered p.pid) p.pid st).0
                  s
          ] in
            Clear r.0.tracker q
      by_start none f = c
      by_start (some st) f = by_result st _ (f st refl)

  pub freeze_for-Kept :
      (spike_pid : Pid) (ps : List Process) (needed : Kb) (pending : List SpikeVictim)
      (s : CycleState)
      → All (Clear s.tracker) ps
      → Kept pending s
      → Kept pending (freeze_for sys spike_pid ps needed s)
  unfolding freeze_for
  freeze_for-Kept spike_pid [] needed pending s c h = h
  freeze_for-Kept spike_pid (p ∷ ps) needed pending s c h = by_need (needed == 0) (
      freeze_for-Kept spike_pid ps (needed - step.1) pending step.0
        (All-map (Clear s.tracker) (Clear step.0.tracker) ps
          (λ q. freeze_candidate-Clear spike_pid p q s) c.1)
        (freeze_candidate-Kept spike_pid p pending s c.0 h))
    where
      step : CycleState × Kb
      step = freeze_candidate sys spike_pid p s

      by_need :
          (covered : Bool)
          → Kept pending (freeze_for sys spike_pid ps (needed - step.1) step.0)
          → Kept pending
              (if covered then s else freeze_for sys spike_pid ps (needed - step.1) step.0)
      by_need true ih = h
      by_need false ih = ih
