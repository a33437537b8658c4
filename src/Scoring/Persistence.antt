-- ===== src/Scoring/Persistence.antt =====
-- mgd/src/evictor/scoring.rs: runs of the state machine, with the targets that it has seen.
use lmkd_linux.Prelude.{ℕ, zero, suc, ◌+◌, ◌<◌, ◌≡◌, refl, List, [], ◌∷◌, ◌⊎◌, inl, inr, arith}
use mathlib.Core.Path.{subst}
use lmkd_linux.Prelude.Int.{ℤ}
use lmkd_linux.Scoring.{ControlState, order, StateMachine, initial, required_ticks, advance}
use lmkd_linux.Scoring.Machine.{Inv, initial-Inv, advance-Inv}

unfoldable pub run : StateMachine → List (ControlState × ℤ) → StateMachine
run sm [] = sm
run sm ((target, trend) ∷ ticks) = run (advance sm target trend).0 ticks

-- The targets of a run, the newest first, in front of those seen before it.
abbrev pub seen : List ControlState → List (ControlState × ℤ) → List ControlState
seen past [] = past
seen past ((target, trend) ∷ ticks) = seen (target ∷ past) ticks

-- The newest `n` targets are all `t`.
abbrev pub Recent : ℕ → ControlState → List ControlState → Type 0
Recent zero t past = Unit
Recent (suc n) t [] = ⊥
Recent (suc n) t (x ∷ past) = (x ≡ t) × Recent n t past

Recent-tick :
    (n m : ℕ) (t : ControlState) (past : List ControlState)
    → n ≡ m + 1
    → Recent m t past
    → Recent n t (t ∷ past)
Recent-tick zero m t past e r = tt
Recent-tick (suc n) m t past e r = (refl, subst (λ k. Recent k t past) (omega arith) r)

-- The count of a machine is backed by the targets that it has seen.
record Backed (sm : StateMachine) (past : List ControlState) : Type 0 where
  inv : Inv sm
  backed : Recent sm.pending_ticks sm.pending past

-- What a tick does to the count: nothing is pending, a count starts, or it goes on.
Count : StateMachine → ControlState → StateMachine → Type 0
Count sm target next =
    (next.pending_ticks ≡ 0)
    ⊎ (next.pending ≡ target) × (next.pending_ticks ≡ 1)
    ⊎ (next.pending ≡ target) × (sm.pending ≡ target) × (next.pending_ticks ≡ sm.pending_ticks + 1)

advance-Count :
    (sm : StateMachine) (target : ControlState) (trend : ℤ)
    → Count sm target (advance sm target trend).0
unfolding Count advance
advance-Count sm target trend = ground arith

advance-Backed :
    (sm : StateMachine) (target : ControlState) (trend : ℤ) (past : List ControlState)
    → Backed sm past
    → Backed (advance sm target trend).0 (target ∷ past)
unfolding Count
advance-Backed sm target trend past b = record {
  inv = advance-Inv sm target trend b.inv;
  backed = elim (advance-Count sm target trend) [
    | inl z ↦ rw z tt
    | inr (inl (p, e)) ↦ rw (e, p) (refl, tt)
    | inr (inr (p, q, e)) ↦ rw p (Recent-tick _ sm.pending_ticks target past e (rw q at b.backed))
  ];
}

run-Backed :
    (sm : StateMachine) (past : List ControlState) (ticks : List (ControlState × ℤ))
    → Backed sm past
    → Backed (run sm ticks) (seen past ticks)
unfolding run
run-Backed sm past [] b = b
run-Backed sm past ((target, trend) ∷ ticks) b =
    run-Backed (advance sm target trend).0 (target ∷ past) ticks
      (advance-Backed sm target trend past b)

advance_drop :
    (sm : StateMachine) (target : ControlState) (trend : ℤ)
    → Inv sm
    → order (advance sm target trend).0.current < order sm.current
    → ((advance sm target trend).0.current ≡ target)
      × (sm.pending ≡ target)
      × (required_ticks target ≡ sm.pending_ticks + 1)
unfolding advance
advance_drop sm target trend v h = ground arith

initial-Backed : Backed initial []
initial-Backed = record { inv = initial-Inv; backed = tt }

-- The state never drops on less than its number of ticks: after any ticks from the start, a tick
-- that lowers the state moves it to that tick's target, and that target was asked for by the last
-- 12 ticks if it is calm, the last 6 if it is warning, and the last 4 otherwise.
pub drop_needs_persistence :
    (ticks : List (ControlState × ℤ)) (target : ControlState) (trend : ℤ)
    → order (advance (run initial ticks) target trend).0.current < order (run initial ticks).current
    → ((advance (run initial ticks) target trend).0.current ≡ target)
      × Recent (required_ticks target) target (target ∷ seen [] ticks)
drop_needs_persistence ticks target trend h =
    let b = run-Backed initial [] ticks initial-Backed in
    let (c, p, e) = advance_drop (run initial ticks) target trend b.inv h in
    (c, Recent-tick _ _ target (seen [] ticks) e (rw p at b.backed))
