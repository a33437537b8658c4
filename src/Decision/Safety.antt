-- ===== src/Decision/Safety.antt =====
-- mgd/src/engine/decision.rs: what `plan` may touch, in which order, and when it stops.
use mathlib.Core.List.{Memᴰ}
use lmkd_linux.Prelude.{
  ℕ, ◌≤◌, ◌<◌, ◌≡◌, refl, ◌≢◌, inl, inr, Bool, true, false, Option, some, List, [], ◌∷◌, All,
  All-map, ltb→lt, Bool-cases, Option-cases, leb, leb→le, arith,
}
use lmkd_linux.Prelude.Int.{ℤ, pos, leb_ℤ}
use lmkd_linux.Prelude.Sorting.{Sorted}
use lmkd_linux.Types.{Kb, kb_add}
use lmkd_linux.Config.{CompiledConfig, is_protected}
use lmkd_linux.Process.{Process}
use lmkd_linux.Psi.{PressureLevel, elevated, at_least}
use lmkd_linux.Decision.Loop.{
  Fits, Greedy, plan_loop-Greedy, plan_loop-All, loop_done, sub_ℕ-zero, deficit_limit,
}
use lmkd_linux.Decision.{
  Action, nothing, Decision, Candidate, Env, candidate, candidates, decide, effective_priority,
  goes_first, plan, plan_loop, calculate_ram_deficit_kb, i64_limit, sub_i64, freed,
}
use lmkd_linux.Decision.Candidates.{goes_first-prio, candidates-All, candidates-Sorted}

-- Priorities do not rise along the list.
abbrev pub Descending : List Decision → Type 0
Descending [] = Unit
Descending (d ∷ ds) = All (λ x. x.prio ≤ d.prio) ds × Descending ds

plan_loop-Descending :
    (dec : Candidate → Option Action) (z : ℤ) (cs : List Candidate)
    → Sorted goes_first cs
    → Descending (plan_loop dec z cs)
unfolding plan_loop
plan_loop-Descending dec z [] h = tt
plan_loop-Descending dec z (c ∷ cs) h = elim (Bool-cases (leb_ℤ z (pos 0))) [
  | inl e ↦ rw (e, plan_loop) tt
  | inr e ↦ elim (Option-cases (dec c)) [
    | inl n ↦ rw (e, n, plan_loop) (plan_loop-Descending dec z cs h.1)
    | inr (a, n) ↦
        rw (e, n, plan_loop)
          (
            plan_loop-All dec (λ b. goes_first c b ≡ true) (λ x. x.prio ≤ c.prio)
                (λ b _ q _. goes_first-prio c b q) (sub_i64 z (freed a c.proc.rss_kb)) cs h.0,
            plan_loop-Descending dec (sub_i64 z (freed a c.proc.rss_kb)) cs h.1,
          )
  ]
]

deficit-lt :
    (available_kb total_kb : Kb) (pct : ℕ) {d : ℕ}
    → calculate_ram_deficit_kb available_kb total_kb pct ≡ pos d
    → d < i64_limit
unfolding calculate_ram_deficit_kb
deficit-lt available_kb total_kb pct e = deficit_limit _ _ e

listed_self : (xs : List Process) → All (λ x. Memᴰ x xs) xs
listed_self [] = tt
listed_self (x ∷ xs) = (Memᴰ.head refl, All-map _ _ xs (λ y m. Memᴰ.tail m) (listed_self xs))

-- Why a decision was made: it is about a listed process of more than 10 MB, at its effective
-- priority, which is outside the system tier and the protect list, and it does something.
pub record Justified (env : Env) (cfg : CompiledConfig) (procs : List Process) (d : Decision)
    : Type 0 where
  pub proc : Process
  pub listed : Memᴰ proc procs
  pub big : 10240 < kb_add proc.rss_kb proc.swap_kb
  pub same_pid : d.pid ≡ proc.pid
  pub same_name : d.name ≡ proc.name
  pub same_rss : d.rss ≡ proc.rss_kb
  pub same_prio : d.prio ≡ effective_priority env cfg proc
  pub tier : 20 ≤ d.prio
  pub unprotected : is_protected cfg d.name ≡ false
  pub acts : d.action ≢ nothing

abbrev Chosen : Env → CompiledConfig → List Process → Candidate → Type 0
Chosen env cfg procs c =
    Memᴰ c.proc procs
    × (10240 < kb_add c.proc.rss_kb c.proc.swap_kb)
    × (c.prio ≡ effective_priority env cfg c.proc)

decide-facts :
    (level : PressureLevel) (env : Env) (cfg : CompiledConfig) (swap : Bool) (c : Candidate)
    (a : Action)
    → decide level env cfg swap c ≡ some a
    → (20 ≤ c.prio) × (is_protected cfg c.proc.name ≡ false) × (a ≢ nothing)
unfolding decide
decide-facts level env cfg swap c a h = (ground arith, ground arith, λ e. ground arith)

module _ (level : PressureLevel) (env : Env) (procs : List Process) (available_kb total_kb : Kb)
    (swap_exhausted : Bool) (cfg : CompiledConfig) where
  plan-All {κ} :
      (P : Decision → Type κ)
      → ((z : ℤ)
          → All P
              (plan_loop (decide level env cfg swap_exhausted) z (candidates level env cfg procs)))
      → All P (plan level env procs available_kb total_kb swap_exhausted cfg)
  unfolding plan
  plan-All P f = elim (Bool-cases (at_least level elevated)) [
    | inl a ↦ elim (Bool-cases (leb_ℤ deficit (pos 0))) [
      | inl b ↦ rw (a, b) tt
      | inr b ↦ rw (a, b) (f deficit)
    ]
    | inr a ↦ rw a tt
  ]
    where
      deficit : ℤ
      deficit = calculate_ram_deficit_kb available_kb total_kb cfg.target_available_pct

  -- Every decision of a plan acts on a listed process with more than 10 MB of memory and swap, of an
  -- effective priority of at least 20, that no protect rule names; it carries that process's pid, name,
  -- size and effective priority.
  pub plan-Justified :
      All (Justified env cfg procs) (plan level env procs available_kb total_kb swap_exhausted cfg)
  plan-Justified = plan-All (Justified env cfg procs) λ z.
      plan_loop-All (decide level env cfg swap_exhausted) (Chosen env cfg procs) _
        (λ c a q e.
          let (t, u, n) = decide-facts level env cfg swap_exhausted c a e in
          record {
            proc = c.proc;
            listed = q.0;
            big = q.1;
            same_pid = refl;
            same_name = refl;
            same_rss = refl;
            same_prio = q.2;
            tier = t;
            unprotected = u;
            acts = n;
          })
        z _
        (candidates-All level env cfg (λ p. Memᴰ p procs) (Chosen env cfg procs)
          (λ p m b. unfold candidate in (m, ltb→lt 10240 (kb_add p.rss_kb p.swap_kb) b, refl)) procs
          (listed_self procs))

  plan-plan_loop :
      (d : ℕ)
      → at_least level elevated ≡ true
      → calculate_ram_deficit_kb available_kb total_kb cfg.target_available_pct ≡ pos d
      → plan level env procs available_kb total_kb swap_exhausted cfg
        ≡ plan_loop (decide level env cfg swap_exhausted) (pos d) (candidates level env cfg procs)
  unfolding plan
  plan-plan_loop d a e = elim (Bool-cases (leb d 0)) [
    | inl z ↦ rw (a, e) (ground (arith, covered z))
    | inr z ↦ rw (a, e) (ground arith)
  ]
    where
      covered :
          leb d 0 ≡ true
          → plan_loop (decide level env cfg swap_exhausted) (pos d) (candidates level env cfg procs)
            ≡ []
      covered z =
          rw (← sub_ℕ-zero d) (loop_done (decide level env cfg swap_exhausted) d 0 _ (leb→le d 0 z))

  -- The plan is greedy: with a level of elevated or more, a deficit of `d` KB and sizes that fit an
  -- `i64`, it is a prefix of the decisions wanted for the sorted candidates, each decision was made
  -- while the earlier ones freed less than `d`, and it ends early only once they free `d`.
  pub plan-Greedy :
      (d : ℕ)
      → at_least level elevated ≡ true
      → calculate_ram_deficit_kb available_kb total_kb cfg.target_available_pct ≡ pos d
      → All (λ p. p.rss_kb < i64_limit) procs
      → Greedy
          (decide level env cfg swap_exhausted)
          d
          0
          (candidates level env cfg procs)
          (plan level env procs available_kb total_kb swap_exhausted cfg)
  plan-Greedy d a e h = rw plan_eq (
      rw (← sub_ℕ-zero d) (
        plan_loop-Greedy dec d 0 cs d_limit (
          candidates-All level env cfg (λ p. p.rss_kb < i64_limit) Fits
            (λ p small big. unfold candidate in small) procs h)))
    where
      dec : Candidate → Option Action
      dec = decide level env cfg swap_exhausted

      cs : List Candidate
      cs = candidates level env cfg procs

      d_limit : d < i64_limit
      d_limit = deficit-lt available_kb total_kb cfg.target_available_pct e

      plan_eq :
          plan level env procs available_kb total_kb swap_exhausted cfg ≡ plan_loop dec (pos d) cs
      plan_eq = plan-plan_loop d a e

  -- Later decisions of a plan are about processes that are no less important.
  pub plan-Descending : Descending (plan level env procs available_kb total_kb swap_exhausted cfg)
  unfolding plan
  plan-Descending = elim (Bool-cases (at_least level elevated)) [
    | inl a ↦ elim (Bool-cases (leb_ℤ deficit (pos 0))) [
      | inl b ↦ rw (a, b) tt
      | inr b ↦
          rw (a, b)
            (plan_loop-Descending (decide level env cfg swap_exhausted) deficit
              (candidates level env cfg procs) (candidates-Sorted level env cfg procs))
    ]
    | inr a ↦ rw a tt
  ]
    where
      deficit : ℤ
      deficit = calculate_ram_deficit_kb available_kb total_kb cfg.target_available_pct
