-- ===== src/Psi.antt =====
-- mgd/src/monitor/psi.rs: pressure readings, thresholds and levels. A percentage is a number of
-- hundredths of a percent, the precision in which the kernel prints the averages.
pub mod Levels
pub mod Parse
pub mod Printed
use lmkd_linux.Prelude.{ℕ, ◌≤◌, Bool, ◌&&◌, leb, ltb, if◌then◌else◌}

pub data PressureLevel : Type 0 where
  normal elevated high critical emergency : PressureLevel

-- The derived `Ord` goes by declaration order.
abbrev pub rank : PressureLevel → ℕ
rank normal = 0
rank elevated = 1
rank high = 2
rank critical = 3
rank emergency = 4

-- `a >= b` and `a < b` on levels.
abbrev pub at_least : PressureLevel → PressureLevel → Bool
at_least a b = leb (rank b) (rank a)

abbrev pub below : PressureLevel → PressureLevel → Bool
below a b = ltb (rank a) (rank b)

pub record MemoryPressure : Type 0 where
  pub some_avg10 : ℕ
  pub some_avg60 : ℕ
  pub some_avg300 : ℕ
  pub some_total : ℕ
  pub full_avg10 : ℕ
  pub full_avg60 : ℕ
  pub full_avg300 : ℕ
  pub full_total : ℕ

pub record PsiThresholds : Type 0 where
  pub elevated_pct : ℕ
  pub high_pct : ℕ
  pub critical_pct : ℕ
  pub emergency_pct : ℕ
  pub full_critical_pct : ℕ

abbrev pub default_thresholds : PsiThresholds
default_thresholds = record {
  elevated_pct = 500;
  high_pct = 2500;
  critical_pct = 5000;
  emergency_pct = 7000;
  full_critical_pct = 2000;
}

unfoldable pub valid : PsiThresholds → Bool
valid t =
    ltb 0 t.elevated_pct
    && ltb t.elevated_pct t.high_pct
    && ltb t.high_pct t.critical_pct
    && ltb t.critical_pct t.emergency_pct
    && leb t.emergency_pct 10000
    && ltb 0 t.full_critical_pct

unfoldable pub pressure_level_with : MemoryPressure → PsiThresholds → PressureLevel
pressure_level_with p t =
    if leb t.full_critical_pct p.full_avg10
    then (if leb t.emergency_pct p.some_avg10 then emergency else critical)
    else if leb t.emergency_pct p.some_avg10
    then emergency
    else if leb t.critical_pct p.some_avg10
    then critical
    else if leb t.high_pct p.some_avg10
    then high
    else if leb t.elevated_pct p.some_avg10
    then elevated
    else normal
