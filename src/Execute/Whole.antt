-- ===== src/Execute/Whole.antt =====
-- mgd/src/evictor/execute.rs: a whole plan carried out.
use lmkd_linux.Prelude.{
  ◌+◌, ◌≡◌, ◌≢◌, refl, ap, ◌∙◌, inl, inr, true, false, List, [], ◌∷◌, All, keep, length, Bool-cases,
  if◌then◌else◌, arith,
}
use lmkd_linux.Types.{Pid}
use lmkd_linux.Process.{Process}
use lmkd_linux.Decision.{Decision}
use lmkd_linux.Registry.Frozen
use lmkd_linux.Execute.{Oracle, State, carry_out, execute_plan, is_destructive}
use lmkd_linux.Execute.Single.{calls_on, Accounted, carry_out_other, carry_out-Accounted}

module _ (o : Oracle) (procs : List Process) where
  pub skip-eq :
      (d : Decision) (ds : List Decision) (s : State)
      → Frozen.is_frozen d.pid s.frozen ≡ true
      → execute_plan o procs (d ∷ ds) s ≡ execute_plan o procs ds s
  unfolding execute_plan
  skip-eq d ds s e = rw (e, execute_plan)

  pub state-eq :
      (d : Decision) (ds : List Decision) (s : State)
      → Frozen.is_frozen d.pid s.frozen ≡ false
      → (execute_plan o procs (d ∷ ds) s).0 ≡ (execute_plan o procs ds (carry_out o procs d s)).0
  unfolding execute_plan
  state-eq d ds s e = rw (e, execute_plan)

  count-eq :
      (d : Decision) (ds : List Decision) (s : State)
      → Frozen.is_frozen d.pid s.frozen ≡ false
      → (execute_plan o procs (d ∷ ds) s).1 ≡ (
          if is_destructive d.action
          then (execute_plan o procs ds (carry_out o procs d s)).1 + 1
          else (execute_plan o procs ds (carry_out o procs d s)).1)
  unfolding execute_plan
  count-eq d ds s e = rw (e, execute_plan)

  pub plan-nil : (s : State) → execute_plan o procs [] s ≡ (s, 0)
  unfolding execute_plan
  plan-nil s = refl

  other_pid :
      (q : Pid) (d : Decision) (s : State)
      → Frozen.is_frozen q s.frozen ≡ true
      → Frozen.is_frozen d.pid s.frozen ≡ false
      → q ≢ d.pid
  other_pid q d s h k e = cc (ap (λ x. Frozen.is_frozen x s.frozen) e)

  -- A process that is frozen when the plan starts gets no signal and no dump from it, whatever the
  -- plan decides, and is still frozen at the end.
  pub execute_plan_spares_frozen :
      (q : Pid) (ds : List Decision) (s : State)
      → Frozen.is_frozen q s.frozen ≡ true
      → let t = (execute_plan o procs ds s).0 in
        (calls_on q t.calls ≡ calls_on q s.calls) × (Frozen.is_frozen q t.frozen ≡ true)
  execute_plan_spares_frozen q [] s h = rw (plan-nil s) (refl, h)
  execute_plan_spares_frozen q (d ∷ ds) s h = elim (Bool-cases (Frozen.is_frozen d.pid s.frozen)) [
    | inl e ↦ rw (skip-eq d ds s e) (execute_plan_spares_frozen q ds s h)
    | inr e ↦
        let k = carry_out_other o procs d s q (other_pid q d s h e) in
        let r = execute_plan_spares_frozen q ds (carry_out o procs d s) (k.1 ∙ h) in
        rw (state-eq d ds s e) (r.0 ∙ k.0, r.1)
  ]

  -- After any plan each process is registered exactly if the calls have left it stopped, unless the sink
  -- failed to unfreeze it, provided that this held before: nothing stays stopped that the daemon would not
  -- resume, but for a failed unfreeze, whose result is dropped.
  pub execute_plan-Accounted :
      (ds : List Decision) (s : State)
      → ((q : Pid) → Accounted o s q)
      → (q : Pid) → Accounted o (execute_plan o procs ds s).0 q
  execute_plan-Accounted [] s h q = rw (plan-nil s) (h q)
  execute_plan-Accounted (d ∷ ds) s h q = elim (Bool-cases (Frozen.is_frozen d.pid s.frozen)) [
    | inl e ↦ rw (skip-eq d ds s e) (execute_plan-Accounted ds s h q)
    | inr e ↦ rw (state-eq d ds s e) (
        execute_plan-Accounted ds (carry_out o procs d s)
          (λ p. carry_out-Accounted o procs d s p e (h p)) q)
  ]

  -- No two decisions are about one process.
  abbrev pub Distinct : List Decision → Type 0
  Distinct [] = Unit
  Distinct (d ∷ ds) = All (λ x. x.pid ≢ d.pid) ds × Distinct ds

  abbrev Unfrozen : State → List Decision → Type 0
  Unfrozen s = All (λ x. Frozen.is_frozen x.pid s.frozen ≡ false)

  still_Unfrozen :
      (d : Decision) (ds : List Decision) (s : State)
      → All (λ x. x.pid ≢ d.pid) ds
      → Unfrozen s ds
      → Unfrozen (carry_out o procs d s) ds
  still_Unfrozen d [] s h u = tt
  still_Unfrozen d (x ∷ xs) s h u =
      ((carry_out_other o procs d s x.pid h.0).1 ∙ u.0, still_Unfrozen d xs s h.1 u.1)

  -- A plan of distinct processes, none of them frozen, counts its kills and checkpoints.
  pub execute_plan_count :
      (ds : List Decision) (s : State)
      → Distinct ds
      → All (λ x. Frozen.is_frozen x.pid s.frozen ≡ false) ds
      → (execute_plan o procs ds s).1 ≡ length (keep (λ d. is_destructive d.action) ds)
  execute_plan_count [] s h u = rw (plan-nil s) refl
  execute_plan_count (d ∷ ds) s h u = ground (
    arith,
    count-eq d ds s u.0,
    execute_plan_count ds (carry_out o procs d s) h.1 (still_Unfrozen d ds s h.0 u.1),
  )
