-- ===== src/Psi/Levels.antt =====
-- mgd/src/monitor/psi.rs: the tiers of pressure_level_with.
use lmkd_linux.Prelude.{◌≤◌, ◌<◌, ◌≡◌, ◌↔◌, true, arith}
use lmkd_linux.Psi.{rank, MemoryPressure, PsiThresholds, valid, pressure_level_with, critical}

-- More pressure never gives a lower level: with valid thresholds, if both averages over ten seconds
-- of `q` are at least those of `p`, then the level of `q` is at least the level of `p`.
pub pressure_level_with_mono :
    (p q : MemoryPressure) (t : PsiThresholds)
    → valid t ≡ true
    → p.some_avg10 ≤ q.some_avg10
    → p.full_avg10 ≤ q.full_avg10
    → rank (pressure_level_with p t) ≤ rank (pressure_level_with q t)
unfolding pressure_level_with valid
pressure_level_with_mono p q t v hs hf = ground arith

-- The thresholds split the readings exactly: with valid thresholds and no full stall over the
-- accelerator's floor, the level is at least elevated, high, critical or emergency exactly when
-- `some_avg10` has reached the threshold of that name.
pub pressure_level_with_tiers :
    (p : MemoryPressure) (t : PsiThresholds)
    → valid t ≡ true
    → p.full_avg10 < t.full_critical_pct
    → ((1 ≤ rank (pressure_level_with p t)) ↔ (t.elevated_pct ≤ p.some_avg10))
      × ((2 ≤ rank (pressure_level_with p t)) ↔ (t.high_pct ≤ p.some_avg10))
      × ((3 ≤ rank (pressure_level_with p t)) ↔ (t.critical_pct ≤ p.some_avg10))
      × ((4 ≤ rank (pressure_level_with p t)) ↔ (t.emergency_pct ≤ p.some_avg10))
unfolding pressure_level_with valid
pressure_level_with_tiers p t v hf = (
  ((λ h. ground arith), (λ h. ground arith)),
  ((λ h. ground arith), (λ h. ground arith)),
  ((λ h. ground arith), (λ h. ground arith)),
  ((λ h. ground arith), (λ h. ground arith)),
)

-- The accelerator: a full stall at its floor or over it gives at least critical.
pub full_stall_critical :
    (p : MemoryPressure) (t : PsiThresholds)
    → t.full_critical_pct ≤ p.full_avg10
    → rank critical ≤ rank (pressure_level_with p t)
unfolding pressure_level_with
full_stall_critical p t h = ground arith
