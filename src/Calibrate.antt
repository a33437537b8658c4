-- ===== src/Calibrate.antt =====
-- mgd/src/engine/calibrate.rs: passive calibration of the pressure thresholds. Readings and
-- thresholds are hundredths of a percent; the percentiles are whole percents, as in the source.
pub mod Histogram
pub mod Episodes
pub mod Suggested
use lmkd_linux.Prelude.{
  ℕ, zero, suc, ◌+◌, ◌-◌, ◌*◌, ◌/◌, ◌%◌, ◌^◌, min, max, Bool, true, false, ◌&&◌, ◌||◌, not, Option,
  none, some, List, [], ◌∷◌, ltb, leb, ◌==◌, length, unwrap_or, if◌then◌else◌,
}
use lmkd_linux.Types.{saturating_add, u32_max}
use lmkd_linux.Psi.{PsiThresholds}

abbrev pub bins : ℕ
bins = 100

abbrev pub stall_full_pct : ℕ
stall_full_pct = 100

-- In whole percents, as the percentiles.
abbrev elevated_margin_pct : ℕ
elevated_margin_pct = 2

abbrev pub min_observed_secs : ℕ
min_observed_secs = 24 * 3600

abbrev pub min_stall_events : ℕ
min_stall_events = 10

abbrev pub min_stall_secs : ℕ
min_stall_secs = 60

abbrev replicate : ℕ → ℕ → List ℕ
replicate zero a = []
replicate (suc n) a = a ∷ replicate n a

pub record CalibratorState : Type 0 where
  pub benign_secs : List ℕ
  pub stall_secs : List ℕ
  pub full_secs : List ℕ
  pub observed_secs : ℕ
  pub stall_events : ℕ
  pub max_full_avg10 : ℕ

unfoldable pub default_state : CalibratorState
default_state = record {
  benign_secs = replicate bins 0;
  stall_secs = replicate bins 0;
  full_secs = replicate bins 0;
  observed_secs = 0;
  stall_events = 0;
  max_full_avg10 = 0;
}

pub record Calibrator : Type 0 where
  pub state : CalibratorState
  pub in_stall : Bool
  pub dirty : Bool

unfoldable pub new : Calibrator
unfolding default_state
new = record { state = default_state; in_stall = false; dirty = false }

unfoldable pub from_state : CalibratorState → Calibrator
unfolding new
from_state st =
    if not (length st.benign_secs == bins)
      || not (length st.stall_secs == bins)
      || not (length st.full_secs == bins)
    then new
    else record { state = st; in_stall = false; dirty = false }

unfoldable pub bin : ℕ → ℕ
bin pct = min (pct / 100) (bins - 1)

-- `hist[b] = hist[b].saturating_add(w)`; an index out of range is a panic, which `from_state` and
-- `bin` rule out.
unfoldable pub add_at : List ℕ → ℕ → ℕ → List ℕ
add_at [] b w = []
add_at (x ∷ xs) zero w = saturating_add x w ∷ xs
add_at (x ∷ xs) (suc b) w = x ∷ add_at xs b w

abbrev is_stalling : ℕ → Bool
is_stalling full_avg10 = leb stall_full_pct full_avg10

-- What is recorded of a sample that is not excluded.
abbrev record_sample : ℕ → ℕ → ℕ → Bool → CalibratorState → CalibratorState
record_sample some_avg10 full_avg10 weight_secs in_stall st =
    let stalling = is_stalling full_avg10 in
    let b = bin some_avg10 in
    record {
      benign_secs = if stalling then st.benign_secs else add_at st.benign_secs b weight_secs;
      stall_secs = if stalling then add_at st.stall_secs b weight_secs else st.stall_secs;
      full_secs =
          if stalling then add_at st.full_secs (bin full_avg10) weight_secs else st.full_secs;
      observed_secs = saturating_add st.observed_secs weight_secs;
      stall_events =
          if stalling && not in_stall then min (st.stall_events + 1) u32_max else st.stall_events;
      max_full_avg10 = max st.max_full_avg10 full_avg10;
    }

unfoldable pub observe : Calibrator → ℕ → ℕ → Bool → ℕ → Calibrator
observe c some_avg10 full_avg10 intervention_active weight_secs =
    if intervention_active then record c { in_stall = is_stalling full_avg10 } else record {
      state = record_sample some_avg10 full_avg10 weight_secs c.in_stall c.state;
      in_stall = is_stalling full_avg10;
      dirty = true;
    }

-- `iter().sum()` of `u64`, which wraps.
abbrev pub sum : List ℕ → ℕ
sum [] = 0
sum (x ∷ xs) = x + sum xs

unfoldable pub sum_u64 : List ℕ → ℕ
sum_u64 xs = sum xs % 2 ^ 64

-- The scan of `percentile` from bin `i` with `cum` below it.
unfoldable pub scan : ℕ → ℕ → ℕ → List ℕ → ℕ
scan target cum i [] = bins
scan target cum i (w ∷ ws) =
    let rest = scan target (cum + w) (i + 1) ws in if leb target (cum + w) then i + 1 else rest

-- `(total * pct / 100).ceil()`.
abbrev pub target_of : ℕ → ℕ → ℕ
target_of total pct = (total * pct + 99) / 100

unfoldable pub percentile : List ℕ → ℕ → Option ℕ
unfolding sum_u64
percentile hist pct =
    let found = some (scan (target_of (sum_u64 hist) pct) 0 0 hist) in
    if sum_u64 hist == 0 then none else found

pub record Suggestion : Type 0 where
  pub elevated_pct : ℕ
  pub full_critical_pct : ℕ
  pub high_pct : ℕ
  pub critical_pct : ℕ
  pub emergency_pct : ℕ
  pub stall_events : ℕ
  pub benign_p95 : ℕ
  pub stall_onset_p10 : ℕ

abbrev clamp : ℕ → ℕ → ℕ → ℕ
clamp lo hi x = max lo (min x hi)

-- In whole percents.
abbrev elevated_of : ℕ → ℕ → ℕ
elevated_of benign_p95 stall_onset_p10 =
    let elevated = clamp 2 15 (benign_p95 + elevated_margin_pct) in
    if ltb stall_onset_p10 elevated then max stall_onset_p10 2 else elevated

-- The tiers scale by `elevated / 5`, so `70 * scale` percent is 1400 hundredths for each percent.
unfoldable pub suggestion_of : ℕ → ℕ → ℕ → ℕ → Suggestion
suggestion_of benign_p95 stall_onset_p10 full_p95 events =
    let elevated = elevated_of benign_p95 stall_onset_p10 in
    let emergency = min (1400 * elevated) 10000 in
    let critical = min (1000 * elevated) (emergency - 100) in
    record {
      elevated_pct = 100 * elevated;
      full_critical_pct = 100 * clamp 5 50 full_p95;
      high_pct = min (500 * elevated) (critical - 100);
      critical_pct = critical;
      emergency_pct = emergency;
      stall_events = events;
      benign_p95 = benign_p95;
      stall_onset_p10 = stall_onset_p10;
    }

unfoldable pub suggest : Calibrator → Option Suggestion
unfolding suggestion_of
suggest c =
    let st = c.state in
    if ltb st.observed_secs min_observed_secs
      || ltb st.stall_events min_stall_events
      || ltb (sum_u64 st.stall_secs) min_stall_secs
    then none
    else some (
        suggestion_of (unwrap_or (percentile st.benign_secs 95) 0)
          (unwrap_or (percentile st.stall_secs 10) 100) (unwrap_or (percentile st.full_secs 95) 20)
          st.stall_events)

-- The suggested block as the thresholds of psi.rs.
abbrev pub thresholds_of : Suggestion → PsiThresholds
thresholds_of s = record {
  elevated_pct = s.elevated_pct;
  high_pct = s.high_pct;
  critical_pct = s.critical_pct;
  emergency_pct = s.emergency_pct;
  full_critical_pct = s.full_critical_pct;
}
