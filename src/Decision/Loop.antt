-- ===== src/Decision/Loop.antt =====
-- mgd/src/engine/decision.rs: the loop of `plan` against a greedy specification, which takes the wanted
-- decisions in order until the memory that they free covers the deficit.
use lmkd_linux.Prelude.{
  ℕ, ◌+◌, ◌≤◌, ◌<◌, ◌≡◌, refl, sym, ap, ◌⊎◌, inl, inr, Option, none, some, List, [], ◌∷◌, ◌++◌, All,
  sum_by, leb, leb→le, Bool-cases, Option-cases, arith,
}
use lmkd_linux.Prelude.Int.{ℤ, pos, sub_ℕ, ◌-ℤ◌, leb_ℤ}
use lmkd_linux.Types.{Kb}
use lmkd_linux.Decision.{
  Action, freeze, Decision, Candidate, decision_of, i64_limit, wrap_i64, sub_i64, freed, plan_loop,
}

-- The memory that a decision frees at once.
abbrev pub credit : Action → Kb → ℕ
credit freeze rss = 0
credit _ rss = rss

abbrev pub credit_of : Decision → ℕ
credit_of d = credit d.action d.rss

-- Every candidate that is not skipped, decided.
pub wanted : (Candidate → Option Action) → List Candidate → List Decision
wanted dec [] = []
wanted dec (c ∷ cs) = elim (dec c) [
  | none ↦ wanted dec cs
  | some a ↦ decision_of c a ∷ wanted dec cs
]

-- Whenever a decision was made, the ones before it had freed less than `d`.
abbrev pub Needed : ℕ → ℕ → List Decision → Type 0
Needed d acc [] = Unit
Needed d acc (x ∷ xs) = (acc < d) × Needed d (acc + credit_of x) xs

-- Sizes of processes fit an `i64`.
abbrev pub Fits : Candidate → Type 0
Fits c = c.proc.rss_kb < i64_limit

sub_i64-freed :
    (d acc : ℕ) (a : Action) (rss : Kb)
    → d < i64_limit
    → acc < d
    → rss < i64_limit
    → sub_i64 (sub_ℕ d acc) (freed a rss) ≡ sub_ℕ d (acc + credit a rss)
unfolding sub_i64 freed ◌-ℤ◌
sub_i64-freed d acc a rss hd ha hr = ground arith

plan_loop-nil : (dec : Candidate → Option Action) (z : ℤ) → plan_loop dec z [] ≡ []
unfolding plan_loop
plan_loop-nil dec z = refl

wanted-nil : (dec : Candidate → Option Action) → wanted dec [] ≡ []
unfolding wanted
wanted-nil dec = refl

pub sub_ℕ-zero : (d : ℕ) → sub_ℕ d 0 ≡ pos d
sub_ℕ-zero d = ground arith

wrap_limit : (w : ℤ) {d : ℕ} → wrap_i64 w ≡ pos d → d < i64_limit
wrap_limit w h = ground arith

pub deficit_limit : (z y : ℤ) {d : ℕ} → sub_i64 z y ≡ pos d → d < i64_limit
unfolding sub_i64
deficit_limit z y h = wrap_limit (z -ℤ y) h

module _ (dec : Candidate → Option Action) where
  pub loop_done : (d acc : ℕ) (cs : List Candidate) → d ≤ acc → plan_loop dec (sub_ℕ d acc) cs ≡ []
  unfolding plan_loop
  loop_done d acc [] h = refl
  loop_done d acc (c ∷ cs) h = ground arith

  loop_skip :
      (d acc : ℕ) (c : Candidate) (cs : List Candidate)
      → acc < d
      → dec c ≡ none
      → plan_loop dec (sub_ℕ d acc) (c ∷ cs) ≡ plan_loop dec (sub_ℕ d acc) cs
  unfolding plan_loop
  loop_skip d acc c cs h e = ground arith

  loop_take :
      (d acc : ℕ) (c : Candidate) (cs : List Candidate) (a : Action)
      → d < i64_limit
      → acc < d
      → Fits c
      → dec c ≡ some a
      → plan_loop dec (sub_ℕ d acc) (c ∷ cs)
        ≡ decision_of c a ∷ plan_loop dec (sub_ℕ d (acc + credit a c.proc.rss_kb)) cs
  unfolding plan_loop
  loop_take d acc c cs a hd ha hr e =
      rw (← sub_i64-freed d acc a c.proc.rss_kb hd ha hr) (ground arith)

  wanted-none :
      (c : Candidate) (cs : List Candidate) → dec c ≡ none → wanted dec (c ∷ cs) ≡ wanted dec cs
  unfolding wanted
  wanted-none c cs e = ground arith

  wanted-some :
      (c : Candidate) (cs : List Candidate) (a : Action)
      → dec c ≡ some a
      → wanted dec (c ∷ cs) ≡ decision_of c a ∷ wanted dec cs
  unfolding wanted
  wanted-some c cs a e = ground arith

  -- A prefix of the wanted decisions, which stops early only when the deficit is covered, and in
  -- which each decision was still needed.
  pub record Greedy (d acc : ℕ) (cs : List Candidate) (ds : List Decision) : Type 0 where
    pub rest : List Decision
    pub prefix : ds ++ rest ≡ wanted dec cs
    pub stop : (rest ≡ []) ⊎ (d ≤ acc + sum_by credit_of ds)
    pub needed : Needed d acc ds

  Greedy-skip :
      (d acc : ℕ) (c : Candidate) (cs : List Candidate) (ds : List Decision)
      → dec c ≡ none
      → Greedy d acc cs ds
      → Greedy d acc (c ∷ cs) ds
  Greedy-skip d acc c cs ds e g = record {
    rest = g.rest;
    prefix = rw (wanted-none c cs e) g.prefix;
    stop = g.stop;
    needed = g.needed;
  }

  Greedy-take :
      (d acc : ℕ) (c : Candidate) (cs : List Candidate) (a : Action) (ds : List Decision)
      → acc < d
      → dec c ≡ some a
      → Greedy d (acc + credit a c.proc.rss_kb) cs ds
      → Greedy d acc (c ∷ cs) (decision_of c a ∷ ds)
  Greedy-take d acc c cs a ds h e g = record {
    rest = g.rest;
    prefix = rw (wanted-some c cs a e) (ap (λ l. decision_of c a ∷ l) g.prefix);
    stop = elim g.stop [ inl q ↦ inl q | inr q ↦ inr (omega arith) ];
    needed = (h, g.needed);
  }

  pub plan_loop-Greedy :
      (d acc : ℕ) (cs : List Candidate)
      → d < i64_limit
      → All Fits cs
      → Greedy d acc cs (plan_loop dec (sub_ℕ d acc) cs)
  plan_loop-Greedy d acc [] hd hs = record {
    rest = [];
    prefix = rw (plan_loop-nil dec (sub_ℕ d acc)) (sym (wanted-nil dec));
    stop = inl refl;
    needed = rw (plan_loop-nil dec (sub_ℕ d acc)) tt;
  }
  plan_loop-Greedy d acc (c ∷ cs) hd hs = elim (Bool-cases (leb d acc)) [
    | inl over ↦ rw (loop_done d acc (c ∷ cs) (leb→le d acc over)) (record {
      rest = wanted dec (c ∷ cs);
      prefix = refl;
      stop = inr (ground arith);
      needed = tt;
    })
    | inr more ↦ elim (Option-cases (dec c)) [
      | inl e ↦
          rw (loop_skip d acc c cs (ground arith) e)
            (Greedy-skip d acc c cs _ e (plan_loop-Greedy d acc cs hd hs.1))
      | inr (a, e) ↦ rw (loop_take d acc c cs a hd (ground arith) hs.0 e) (
          Greedy-take d acc c cs a _ (ground arith) e
            (plan_loop-Greedy d (acc + credit a c.proc.rss_kb) cs hd hs.1))
    ]
  ]

  -- What holds of each decision made on a candidate with `Q` holds of the whole plan.
  pub plan_loop-All {ℓ κ} :
      (Q : Candidate → Type ℓ) (P : Decision → Type κ)
      → ((c : Candidate) (a : Action) → Q c → dec c ≡ some a → P (decision_of c a))
      → (z : ℤ) (cs : List Candidate) → All Q cs
      → All P (plan_loop dec z cs)
  unfolding plan_loop
  plan_loop-All Q P f z [] h = tt
  plan_loop-All Q P f z (c ∷ cs) h = elim (Bool-cases (leb_ℤ z (pos 0))) [
    | inl e ↦ rw (e, plan_loop) tt
    | inr e ↦ elim (Option-cases (dec c)) [
      | inl n ↦ rw (e, n, plan_loop) (plan_loop-All Q P f z cs h.1)
      | inr (a, n) ↦
          rw (e, n, plan_loop)
            (f c a h.0 n, plan_loop-All Q P f (sub_i64 z (freed a c.proc.rss_kb)) cs h.1)
    ]
  ]
