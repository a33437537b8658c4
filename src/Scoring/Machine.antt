-- ===== src/Scoring/Machine.antt =====
-- mgd/src/evictor/scoring.rs: the state machine tick by tick.
use lmkd_linux.Prelude.{
  ℕ, ◌+◌, ◌≤◌, ◌<◌, ◌≡◌, ◌≢◌, ◌⊎◌, ◌↔◌, refl, ap, inl, inr, Bool-cases, ltb→lt, List, [], ◌∷◌,
  length, true, ltb, if◌then◌else◌, arith,
}
use lmkd_linux.Prelude.Int.{ℤ}
use lmkd_linux.Scoring.{
  ControlState, critical_state, order, trend_over, StateMachine, initial, required_ticks, advance,
}

-- How many ticks of `target` in a row the machine asks for.
abbrev pub needed : ControlState → ControlState → ℕ
needed current target = if ltb (order current) (order target) then 2 else required_ticks target

-- A count in progress is for a state other than the current one, and is below its goal.
pub record Inv (sm : StateMachine) : Type 0 where
  pub other : 0 < sm.pending_ticks → sm.pending ≢ sm.current
  pub short : 0 < sm.pending_ticks → sm.pending_ticks < needed sm.current sm.pending

pub initial-Inv : Inv initial
initial-Inv = ground arith

pub advance-Inv :
    (sm : StateMachine) (target : ControlState) (trend : ℤ)
    → Inv sm
    → Inv (advance sm target trend).0
unfolding advance
advance-Inv sm target trend v = ground arith

-- A tick moves to the target or stays.
pub advance-current :
    (sm : StateMachine) (target : ControlState) (trend : ℤ)
    → ((advance sm target trend).0.current ≡ sm.current)
      ⊎ ((advance sm target trend).0.current ≡ target)
unfolding advance
advance-current sm target trend = ground arith

-- Two ticks in a row with a target above the current state reach it, whatever the machine was
-- counting before.
pub advance_twice :
    (sm : StateMachine) (target : ControlState) (t1 t2 : ℤ)
    → Inv sm
    → order sm.current < order target
    → (advance (advance sm target t1).0 target t2).0.current ≡ target
unfolding advance
advance_twice sm target t1 t2 v h = ground arith

-- One tick alone escalates exactly if it is the second one for its target or an instant one: a
-- trend over 0.08 with a target of critical or emergency. The flag reports the instant ones.
pub advance_escalates :
    (sm : StateMachine) (target : ControlState) (trend : ℤ)
    → Inv sm
    → order sm.current < order target
    → let (next, fired) = advance sm target trend in
      ((next.current ≡ target)
        ↔ ((fired ≡ true) ⊎ ((sm.pending ≡ target) × (sm.pending_ticks ≡ 1))))
      × ((fired ≡ true)
          ↔ ((order critical_state ≤ order target) × (trend_over 8000000 trend ≡ true)))
unfolding advance
advance_escalates sm target trend v h = (
  ((λ k. ground arith), λ k. ground arith),
  ((λ k. (ground arith, ground arith)), λ k. ground arith),
)

-- Ticks with one target.
pub hold : StateMachine → ControlState → List ℤ → StateMachine
hold sm target [] = sm
hold sm target (trend ∷ trends) = hold (advance sm target trend).0 target trends

abbrev counting : ControlState → ControlState → ℕ → StateMachine
counting current target n = record { current = current; pending = target; pending_ticks = n }

count_down :
    (current target : ControlState) (n : ℕ) (trend : ℤ)
    → order target < order current
    → n + 1 < required_ticks target
    → (advance (counting current target n) target trend).0 ≡ counting current target (n + 1)
unfolding advance
count_down current target n trend h k = ground arith

count_last :
    (current target : ControlState) (n : ℕ) (trend : ℤ)
    → order target < order current
    → n + 1 ≡ required_ticks target
    → (advance (counting current target n) target trend).0.current ≡ target
unfolding advance
count_last current target n trend h k = ground arith

first_tick :
    (sm : StateMachine) (target : ControlState) (trend : ℤ)
    → order target < order sm.current
    → (sm.pending ≢ target) ⊎ (sm.pending_ticks ≡ 0)
    → (advance sm target trend).0 ≡ counting sm.current target 1
unfolding advance
first_tick sm target trend h k = ground arith

abbrev pub Recovers : ControlState → ControlState → ℕ → StateMachine → Type 0
Recovers current target n sm =
    (n < required_ticks target → sm.current ≡ current)
    × (n ≡ required_ticks target → sm.current ≡ target)

hold-step :
    (sm next : StateMachine) (target : ControlState) (trend : ℤ) (trends : List ℤ)
    → (advance sm target trend).0 ≡ next
    → hold sm target (trend ∷ trends) ≡ hold next target trends
unfolding hold
hold-step sm next target trend trends e = ap (λ s. hold s target trends) e

hold-counting :
    (current target : ControlState) (n : ℕ) (trends : List ℤ)
    → order target < order current
    → n < required_ticks target
    → Recovers current target (n + length trends) (hold (counting current target n) target trends)
unfolding hold
hold-counting current target n [] h k = ((λ _. refl), λ e. absurd (omega arith))
hold-counting current target n (t ∷ []) h k = (
  (λ lt. ap (λ s. s.current) (count_down current target n t h lt)),
  λ e. count_last current target n t h e,
)
hold-counting current target n (t ∷ u ∷ us) h k =
    elim (Bool-cases (ltb (n + 1) (required_ticks target))) [
      | inl lt ↦
          let r = hold-counting current target (n + 1) (u ∷ us) h (ltb→lt _ _ lt) in
          rw (hold-step _ _ target t (u ∷ us) (count_down current target n t h (ltb→lt _ _ lt)))
            ((λ q. r.0 (omega arith)), λ q. r.1 (omega arith))
      | inr ge ↦ ((λ q. absurd (ground arith)), λ q. absurd (ground arith))
    ]

-- Recovery takes exactly its number of ticks: 12 to calm, 6 to warning, 4 to any other state. With
-- fewer ticks of a lower target, from a machine that was not counting for it, the state stays; with
-- as many, it is the target.
pub hold-Recovers :
    (sm : StateMachine) (target : ControlState) (trends : List ℤ)
    → order target < order sm.current
    → (sm.pending ≢ target) ⊎ (sm.pending_ticks ≡ 0)
    → Recovers sm.current target (length trends) (hold sm target trends)
unfolding hold
hold-Recovers sm target [] h k = ((λ _. refl), λ e. absurd (ground arith))
hold-Recovers sm target (t ∷ ts) h k =
    let r = hold-counting sm.current target 1 ts h (ground arith) in
    rw (hold-step sm _ target t ts (first_tick sm target t h k))
      ((λ lt. r.0 (omega arith)), λ e. r.1 (omega arith))
