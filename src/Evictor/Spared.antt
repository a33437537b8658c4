-- ===== src/Evictor/Spared.antt =====
-- mgd/src/evictor/mod.rs: whom a turn of the evictor leaves alone.
use mathlib.Core.List.{Memᴰ}
use lmkd_linux.Prelude.{
  ◌<◌, ◌≡◌, ◌≢◌, refl, sym, ◌∙◌, ap, ◌⊎◌, inl, inr, Bool, true, false, String, List, [], ◌∷◌, All,
  All-map, keep, nat_eq, string_eq, Bool-cases, arith,
}
use mathlib.Core.Path.{subst}
use lmkd_linux.Prelude.Sorting.{sort, sort-All}
use lmkd_linux.Types.{Pid}
use lmkd_linux.Time.{Instant}
use lmkd_linux.Meminfo.{MemInfo}
use lmkd_linux.Psi.{PressureLevel, elevated, at_least}
use lmkd_linux.Process.{Process}
use lmkd_linux.Config.{CompiledConfig, is_protected}
use lmkd_linux.Decision.{Env, Decision, effective_priority, plan}
use lmkd_linux.Decision.Safety.{Justified, plan-Justified}
use lmkd_linux.Registry.Frozen
use lmkd_linux.Execute.{Oracle, State, carry_out, execute_plan}
use lmkd_linux.Execute.Single.{calls_on, carry_out_other}
use lmkd_linux.Execute.Whole.{skip-eq, state-eq, plan-nil}
use lmkd_linux.Spike.Victims.{SpikeTracker}
use lmkd_linux.Evictor.{
  excluded_pids, targetable, larger, plan_procs, forget_kills, swap_exhausted, evict,
}

-- What keeps a process out of the plan.
abbrev pub Spared : Env → CompiledConfig → List Pid → List (String × Instant) → Process → Type 0
Spared env cfg excluded recently_killed p =
    (is_protected cfg p.name ≡ true)
    ⊎ (effective_priority env cfg p < 20)
    ⊎ (targetable excluded recently_killed p ≡ false)

mem-All {ℓ} : {A : Type ℓ} (P : A → Type 0) (x : A) (xs : List A) → Memᴰ x xs → All P xs → P x
mem-All P x xs (Memᴰ.head e) h = subst P (sym e) h.0
mem-All P x (y ∷ ys) (Memᴰ.tail m) h = mem-All P x ys m h.1

kept-All :
    (P : Process → Type 0) (test : Process → Bool) (xs : List Process)
    → All P xs
    → All (λ p. P p × (test p ≡ true)) (keep test xs)
kept-All P test [] h = tt
kept-All P test (x ∷ xs) h = elim (Bool-cases (test x)) [
  | inl e ↦ rw e ((h.0, e), kept-All P test xs h.1)
  | inr e ↦ rw e (kept-All P test xs h.1)
]

module _ (o : Oracle) (procs : List Process) (q : Pid) where
  execute_plan_other :
      (ds : List Decision) (s : State)
      → All (λ d. q ≢ d.pid) ds
      → calls_on q (execute_plan o procs ds s).0.calls ≡ calls_on q s.calls
  execute_plan_other [] s h = rw (plan-nil o procs s) refl
  execute_plan_other (d ∷ ds) s h = elim (Bool-cases (Frozen.is_frozen d.pid s.frozen)) [
    | inl e ↦ rw (skip-eq o procs d ds s e) (execute_plan_other ds s h.1)
    | inr e ↦
        rw (state-eq o procs d ds s e) (
          execute_plan_other ds (carry_out o procs d s) h.1 ∙ (carry_out_other o procs d s q h.0).0)
  ]

not_planned :
    (env : Env) (cfg : CompiledConfig) (excluded : List Pid) (killed : List (String × Instant))
    (q : Pid) (ps : List Process) (d : Decision)
    → All
        (λ p.
          (p.pid ≡ q → Spared env cfg excluded killed p) × (targetable excluded killed p ≡ true))
        ps
    → Justified env cfg ps d
    → q ≢ d.pid
not_planned env cfg excluded killed q ps d h j e =
    let p = mem-All _ j.proc ps j.listed h in
    elim (p.0 (sym (e ∙ j.same_pid))) [
      | inl a ↦ ground (arith, a, j.unprotected, ap (is_protected cfg) j.same_name)
      | inr (inl a) ↦ ground (arith, a, j.tier, j.same_prio)
      | inr (inr a) ↦ ground (arith, a, p.1)
    ]

-- Planning and carrying out the plan, which is the part of a turn that `evict` models, sends no signal to
-- a pid, and dumps no such process, if each process listed under it is named by a protect rule, or has an
-- effective priority below 20, or is frozen, a spike or a victim of one, or sits in a cgroup where a kill
-- was made in the last 45 seconds. The spike cycle and the leak guard of the same turn send signals of
-- their own, of which nothing is said here.
pub evict-Spared :
    (o : Oracle) (env : Env) (cfg : CompiledConfig) (level : PressureLevel) (m : MemInfo)
    (spikes : SpikeTracker) (procs : List Process) (s : State) (q : Pid)
    → All
        (λ p.
          p.pid ≡ q
          → Spared env cfg
              (excluded_pids s.frozen spikes true)
              (forget_kills o.now s).recently_killed_cgroups
              p)
        procs
    → calls_on q (evict o env cfg level m spikes procs s).0.calls ≡ calls_on q s.calls
unfolding evict plan_procs
evict-Spared o env cfg level m spikes procs s q h = elim (Bool-cases (at_least level elevated)) [
  | inl e ↦ rw e (execute_plan_other o _ q _ (forget_kills o.now s) others)
  | inr e ↦ rw e refl
]
  where
    excluded : List Pid
    excluded = excluded_pids s.frozen spikes true

    killed : List (String × Instant)
    killed = (forget_kills o.now s).recently_killed_cgroups

    ps : List Process
    ps = keep (targetable excluded killed) (sort larger procs)

    others :
        All (λ d. q ≢ d.pid) (plan level env ps m.available_kb m.total_kb (swap_exhausted m) cfg)
    others =
        All-map _ _ _
          (λ d j.
            not_planned env cfg excluded killed q ps d
              (kept-All _ (targetable excluded killed) (sort larger procs)
                (sort-All larger _ procs h))
              j)
          (plan-Justified level env ps m.available_kb m.total_kb (swap_exhausted m) cfg)
