-- ===== src/Scoring/Score.antt =====
-- mgd/src/evictor/scoring.rs: the composite score and the target that it picks.
use lmkd_linux.Prelude.{ℕ, ◌-◌, ◌≤◌, ◌<◌, ◌≡◌, refl, ◌⊎◌, ◌↔◌, arith}
use lmkd_linux.Prelude.Int.{ℤ, pos, ◌≤ℤ◌}
use lmkd_linux.Types.{Kb}
use lmkd_linux.Time.{Instant}
use lmkd_linux.Meminfo.{MemInfo}
use lmkd_linux.Psi.{rank}
use lmkd_linux.Scoring.{
  ControlState, warning, emergency_state, order, to_pressure_level, target_state_for, ScoreTracker,
  shares, composite, update_with, swap_io_rate, one,
}

mono_score :
    (p p' : ℕ) (t : ℤ) (psi io : ℕ)
    → p ≤ p'
    → order (target_state_for p t psi io) ≤ order (target_state_for p' t psi io)
unfolding target_state_for
mono_score p p' t psi io h = ground arith

mono_trend :
    (p : ℕ) (t t' : ℤ) (psi io : ℕ)
    → t ≤ℤ t'
    → order (target_state_for p t psi io) ≤ order (target_state_for p t' psi io)
unfolding target_state_for
mono_trend p t t' psi io h = ground arith

mono_live :
    (p : ℕ) (t : ℤ) (psi psi' io io' : ℕ)
    → psi ≤ psi'
    → io ≤ io'
    → order (target_state_for p t psi io) ≤ order (target_state_for p t psi' io')
unfolding target_state_for
mono_live p t psi psi' io io' h k = ground arith

-- A score, trend, stall and swap I/O rate that are all at least as high give a target that is at
-- least as high.
pub target_state_for_mono :
    (p p' : ℕ) (t t' : ℤ) (psi psi' io io' : ℕ)
    → p ≤ p'
    → t ≤ℤ t'
    → psi ≤ psi'
    → io ≤ io'
    → order (target_state_for p t psi io) ≤ order (target_state_for p' t' psi' io')
target_state_for_mono p p' t t' psi psi' io io' h k l m = omega (
  arith,
  mono_score p p' t psi io h,
  mono_trend p' t t' psi io k,
  mono_live p' t' psi psi' io io' l m,
)

-- The warning band needs life: with a score below 0.20 the target is at most warning, and it is
-- warning exactly when the score has reached 0.15 and stall or swap I/O is over its floor.
pub target_state_for-warning :
    (p : ℕ) (t : ℤ) (psi io : ℕ)
    → p < 20000000
    → (order (target_state_for p t psi io) ≤ order warning)
      × ((target_state_for p t psi io ≡ warning)
          ↔ ((15000000 ≤ p) × ((50 < psi) ⊎ (1000000000 < io))))
unfolding target_state_for
target_state_for-warning p t psi io h =
    (ground arith, ((λ k. (ground arith, ground arith)), λ k. ground arith))

-- Without a rising trend the target is a function of four fixed bands of the score.
pub target_state_for-bands :
    (p : ℕ) (t : ℤ) (psi io : ℕ)
    → t ≤ℤ pos 2000000
    → ((target_state_for p t psi io ≡ emergency_state) ↔ (70000000 ≤ p))
      × ((3 ≤ order (target_state_for p t psi io)) ↔ (50000000 ≤ p))
      × ((2 ≤ order (target_state_for p t psi io)) ↔ (30000000 ≤ p))
unfolding target_state_for
target_state_for-bands p t psi io h = (
  ((λ k. ground arith), λ k. ground arith),
  ((λ k. ground arith), λ k. ground arith),
  ((λ k. ground arith), λ k. ground arith),
)

pub order-to_pressure_level : (s : ControlState) → rank (to_pressure_level s) ≡ order s
unfolding to_pressure_level
order-to_pressure_level s = ground arith

shares-le :
    (psi : ℕ) (m : MemInfo) (gpu : Kb) (io : ℕ)
    → let s = shares psi m gpu io in
      (s.psi_val ≤ one) × (s.swap_val ≤ one) × (s.gpu_share ≤ one) × (s.swap_io_val ≤ one)
unfolding shares
shares-le psi m gpu io = (ground arith, ground arith, ground arith, ground arith)

shares_idle :
    (psi : ℕ) (m : MemInfo)
    → m.swap_total_kb ≡ 0
    → let s = shares psi m 0 0 in (s.swap_val ≡ 0) × (s.gpu_share ≡ 0) × (s.swap_io_val ≡ 0)
unfolding shares
shares_idle psi m h = (ground arith, ground arith, ground arith)

module _ (st : ScoreTracker) (psi : ℕ) (m : MemInfo) (pin pout : ℕ) (gpu : Kb) (now : Instant) where
  -- The score is at most one, each share counts by its weight, and the tracker remembers the score,
  -- the time and the counters of this cycle.
  pub update_with-bounds :
      let (st', c) = update_with st psi m pin pout gpu now in
      (c.p_score ≤ 100000000)
      × (c.gpu_val ≤ one)
      × (st'.last_score ≡ c.p_score)
      × (st'.last_time ≡ now)
      × (st'.last_pswpin ≡ pin)
      × (st'.last_pswpout ≡ pout)
  unfolding update_with composite
  update_with-bounds =
      let b = shares-le psi m gpu (swap_io_rate st pin pout (now - st.last_time)) in
      (omega arith, b.2, refl, refl, refl, refl)

  -- Stalls alone never reach the emergency score: with no swap, no GPU memory and no swap I/O the
  -- score is at most 0.55, whatever the pressure.
  pub update_with_stall_only :
      m.swap_total_kb ≡ 0
      → gpu ≡ 0
      → swap_io_rate st pin pout (now - st.last_time) ≡ 0
      → (update_with st psi m pin pout gpu now).1.p_score ≤ 55000000
  unfolding update_with composite
  update_with_stall_only h k l =
      rw (k, l) (omega (arith, shares_idle psi m h, (shares-le psi m 0 0).0))
