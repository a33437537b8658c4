-- ===== src/Decision/Candidates.antt =====
-- mgd/src/engine/decision.rs: the candidates of `plan`, in their order.
use lmkd_linux.Prelude.{
  ◌≤◌, ◌≡◌, inl, inr, true, false, List, [], ◌∷◌, map, keep, All, Bool-cases, arith,
}
use lmkd_linux.Prelude.Sorting.{Sorted, sort-All, sort-Sorted}
use lmkd_linux.Config.{CompiledConfig}
use lmkd_linux.Process.{Process}
use lmkd_linux.Psi.{PressureLevel}
use lmkd_linux.Decision.{Candidate, Env, candidate, candidates, big_enough, goes_first}

pub goes_first-total : (a b : Candidate) → goes_first a b ≡ false → goes_first b a ≡ true
unfolding goes_first
goes_first-total a b h = ground arith

pub goes_first_trans :
    (a b c : Candidate) → goes_first a b ≡ true → goes_first b c ≡ true → goes_first a c ≡ true
unfolding goes_first
goes_first_trans a b c h k = ground arith

pub goes_first-prio : (a b : Candidate) → goes_first a b ≡ true → b.prio ≤ a.prio
unfolding goes_first
goes_first-prio a b h = ground arith

module _ (level : PressureLevel) (env : Env) (cfg : CompiledConfig) where
  mapped-All {ℓ κ} :
      (Q : Process → Type ℓ) (P : Candidate → Type κ)
      → ((p : Process) → Q p → big_enough p ≡ true → P (candidate level env cfg p))
      → (procs : List Process) → All Q procs
      → All P (map (candidate level env cfg) (keep big_enough procs))
  mapped-All Q P f [] h = tt
  mapped-All Q P f (p ∷ ps) h = elim (Bool-cases (big_enough p)) [
    | inl e ↦ rw e (f p h.0 e, mapped-All Q P f ps h.1)
    | inr e ↦ rw e (mapped-All Q P f ps h.1)
  ]

  pub candidates-All {ℓ κ} :
      (Q : Process → Type ℓ) (P : Candidate → Type κ)
      → ((p : Process) → Q p → big_enough p ≡ true → P (candidate level env cfg p))
      → (procs : List Process) → All Q procs
      → All P (candidates level env cfg procs)
  unfolding candidates
  candidates-All Q P f procs h = sort-All goes_first P _ (mapped-All Q P f procs h)

  pub candidates-Sorted :
      (procs : List Process) → Sorted goes_first (candidates level env cfg procs)
  unfolding candidates
  candidates-Sorted procs = sort-Sorted goes_first goes_first-total goes_first_trans _
