-- ===== src/Signals.antt =====
-- mgd/src/executor/freezer.rs and killer.rs: signals, with a guard against pids that were reused. What
-- the kernel answers is a parameter.
pub mod Guards
use lmkd_linux.Prelude.{
  ℕ, ◌+◌, ◌^◌, zero, suc, Bool, true, false, ◌&&◌, not, Option, none, some, List, [], ◌∷◌, ltb,
  ◌==◌, is_some, if◌then◌else◌,
}
use lmkd_linux.Types.{Pid}
use lmkd_linux.Execute.{OpResult, success, fail}

pub data Signal : Type 0 where
  sigstop sigcont sigterm_signal sigkill_signal : Signal

-- The result and the signals that reached the system call. `delivered` is its answer.
unfoldable pub send_signal : Bool → Pid → Signal → OpResult × List Signal
send_signal delivered pid signal =
    if ltb pid (2 ^ 31)
    then (if delivered then success else fail false, signal ∷ [])
    else (fail false, [])

unfoldable pub unfreeze_checked : Option ℕ → Bool → Pid → ℕ → OpResult × List Signal
unfreeze_checked none delivered pid expected = (success, [])
unfreeze_checked (some st) delivered pid expected =
    if not (st == expected) then (success, []) else send_signal delivered pid sigcont

unfoldable pub freeze_checked : Option ℕ → Bool → Pid → ℕ → OpResult × List Signal
freeze_checked none delivered pid expected = (fail false, [])
freeze_checked (some st) delivered pid expected =
    if not (st == expected) then (fail false, []) else send_signal delivered pid sigstop

-- What `sigterm` meets: the start times before and after the wait, what the two signals return, and
-- whether the process exists at each half second.
pub record Victim : Type 0 where
  pub original_start : Option ℕ
  pub later_start : Option ℕ
  pub term_delivered : Bool
  pub kill_delivered : Bool
  pub exists_at : ℕ → Bool

-- `for _ in 0..10`: whether the process is still there after polls `i` to `i + n - 1`.
outlives : (ℕ → Bool) → ℕ → ℕ → Bool
outlives at i zero = true
outlives at i (suc n) = at i && outlives at (i + 1) n

same_start : Option ℕ → Option ℕ → Bool
same_start none none = true
same_start (some a) (some b) = a == b
same_start _ _ = false

unfoldable pub sigkill : Bool → OpResult × List Signal
sigkill delivered = (if delivered then success else fail false, sigkill_signal ∷ [])

unfoldable pub sigterm : Victim → OpResult × List Signal
unfolding sigkill outlives same_start
sigterm v =
    if not v.term_delivered
    then (fail false, sigterm_signal ∷ [])
    else if not (outlives v.exists_at 0 10)
    then (success, sigterm_signal ∷ [])
    else if is_some v.original_start && not (same_start v.later_start v.original_start)
    then (success, sigterm_signal ∷ [])
    else ((sigkill v.kill_delivered).0, sigterm_signal ∷ (sigkill v.kill_delivered).1)
