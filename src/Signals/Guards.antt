-- ===== src/Signals/Guards.antt =====
-- mgd/src/executor/freezer.rs and killer.rs: the guards against pids that were reused.
use lmkd_linux.Prelude.{
  ℕ, zero, suc, ◌+◌, ◌<◌, ◌≡◌, ◌≢◌, ◌⊎◌, ◌↔◌, refl, Bool, true, false, Option, none, some, [], ◌∷◌,
  arith,
}
use lmkd_linux.Types.{Pid}
use lmkd_linux.Execute.{success, fail}
use lmkd_linux.Signals.{
  sigterm_signal, sigkill_signal, unfreeze_checked, freeze_checked, Victim, outlives, same_start,
  sigkill, sigterm,
}

-- A process whose start time is not the expected one, or that is gone, gets neither SIGSTOP nor
-- SIGCONT: freezing it fails, and releasing it counts as done.
pub checked_spares_recycled :
    (st : Option ℕ) (delivered : Bool) (pid : Pid) (expected : ℕ)
    → st ≢ some expected
    → (freeze_checked st delivered pid expected ≡ (fail false, []))
      × (unfreeze_checked st delivered pid expected ≡ (success, []))
unfolding freeze_checked unfreeze_checked
checked_spares_recycled st delivered pid expected h = (ground arith, ground arith)

outlives_all :
    (at : ℕ → Bool) (i n : ℕ) → (outlives at i n ≡ true) ↔ ((k : ℕ) → k < n → at (i + k) ≡ true)
unfolding outlives
outlives_all at i zero = ((λ _ k h. absurd (omega arith)), λ _. refl)
outlives_all at i (suc n) =
    let ih = outlives_all at (i + 1) n in
    (
      (λ e k h. later (ground arith) (ih.0 (ground arith)) k h),
      λ f.
          let now = move (i + 0) i (omega arith) (f 0 (omega arith)) in
          let rest =
            ih.1 (λ k h. move (i + suc k) (i + 1 + k) (omega arith) (f (suc k) (omega arith))) in
          ground (arith, now, rest),
    )
  where
    move : (a b : ℕ) → a ≡ b → at a ≡ true → at b ≡ true
    move a b e h = rw (← e) h

    later :
        at i ≡ true
        → ((k : ℕ) → k < n → at (i + 1 + k) ≡ true)
        → (k : ℕ) → k < suc n
        → at (i + k) ≡ true
    later h f zero q = move i (i + 0) (omega arith) h
    later h f (suc k) q = move (i + 1 + k) (i + suc k) (omega arith) (f k (omega arith))

sigterm-tests :
    (v : Victim)
    → ((sigterm v).1 ≡ sigterm_signal ∷ sigkill_signal ∷ []) ↔ (
        (v.term_delivered ≡ true)
        × (outlives v.exists_at 0 10 ≡ true)
        × ((v.original_start ≡ none) ⊎ (v.later_start ≡ v.original_start)))
unfolding sigterm sigkill same_start
sigterm-tests v = ((λ h. (ground arith, ground arith, ground arith)), λ h. ground arith)

-- The escalation to SIGKILL: it is sent exactly if SIGTERM was delivered, the process is there at all
-- ten polls, and its start time was unknown or is still the same.
pub sigterm_escalates :
    (v : Victim)
    → ((sigterm v).1 ≡ sigterm_signal ∷ sigkill_signal ∷ []) ↔ (
        (v.term_delivered ≡ true)
        × ((k : ℕ) → k < 10 → v.exists_at k ≡ true)
        × ((v.original_start ≡ none) ⊎ (v.later_start ≡ v.original_start)))
sigterm_escalates v =
    let tests = sigterm-tests v in
    let polls = outlives_all v.exists_at 0 10 in
    (
      (λ h.
          let (d, o, s) = tests.0 h in
          (d, (λ k q. move (0 + k) k (omega arith) (polls.0 o k q)), s)),
      λ (d, f, s). tests.1 (d, polls.1 (λ k q. move k (0 + k) (omega arith) (f k q)), s),
    )
  where
    move : (a b : ℕ) → a ≡ b → v.exists_at a ≡ true → v.exists_at b ≡ true
    move a b e h = rw (← e) h
