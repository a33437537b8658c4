-- ===== src/Tests/Engine.antt =====
-- Examples for engine/calibrate.rs.
use lmkd_linux.Prelude.{
  ℕ, ◌+◌, ◌-◌, ◌*◌, ◌^◌, ◌≤◌, ◌<◌, ◌≡◌, ◌⊎◌, refl, false, some, List, [], ◌∷◌, length, take, arith,
  true,
}
use lmkd_linux.Calibrate.{
  Calibrator, new, default_state, suggest, suggestion_of, percentile, scan, sum, sum_u64,
  thresholds_of, min_observed_secs, min_stall_events, min_stall_secs,
}
use lmkd_linux.Calibrate.Histogram.{percentile-least}
use lmkd_linux.Psi.{valid}
use lmkd_linux.Calibrate.Suggested.{suggest-valid}
use lmkd_linux.Calibrate.Episodes.{watch, watch-onsets, Accounted, Sample}

abbrev histogram : List ℕ
histogram = 50 ∷ 40 ∷ 10 ∷ []

ninety_fifth : percentile histogram 95 ≡ some 3
unfolding percentile sum_u64 scan
ninety_fifth = refl

percentile-least_example :
    (1 ≤ 3)
    × (3 ≤ length histogram)
    × (sum histogram * 95 ≤ 100 * sum (take 3 histogram))
    × ((◌≡◌ {A = ℕ} 3 1) ⊎ (100 * sum (take (3 - 1) histogram) < sum histogram * 95))
percentile-least_example = percentile-least histogram 95 (omega arith) (omega arith) ninety_fifth

-- A day of readings at 1 %, and twenty stalls of a minute at 40 %.
abbrev day : Calibrator
day = record {
  state = record default_state {
    benign_secs = 0 ∷ 86400 ∷ [];
    stall_secs = 0 ∷ 0 ∷ 1200 ∷ [];
    full_secs = 0 ∷ 0 ∷ 0 ∷ 1200 ∷ [];
    observed_secs = 87600;
    stall_events = 20;
  };
  in_stall = false;
  dirty = false;
}

day_suggests : suggest day ≡ some (suggestion_of 2 3 4 20)
unfolding suggest percentile sum_u64 scan
day_suggests = refl

new-Accounted : Accounted new.state
unfolding new default_state
new-Accounted = record {
  benign_length = refl;
  stall_length = refl;
  full_length = refl;
  seconds = refl;
  full_seconds = refl;
}

new_fits : new.state.observed_secs + 3 ≤ 2 ^ 64 - 1
unfolding new default_state
new_fits = omega arith

abbrev sample : ℕ → Sample
sample full = record {
  some_avg10 = 4000;
  full_avg10 = full;
  intervention_active = false;
  weight_secs = 3;
}

-- Two stalls, of two samples and of one.
abbrev samples : List Sample
samples = sample 500 ∷ sample 300 ∷ sample 0 ∷ sample 200 ∷ []

suggest-valid_example :
    (min_observed_secs ≤ 87600)
    × (min_stall_events ≤ 20)
    × (min_stall_secs ≤ sum_u64 (0 ∷ 0 ∷ 1200 ∷ []))
    × (valid (thresholds_of (suggestion_of 2 3 4 20)) ≡ true)
    × (200 ≤ (suggestion_of 2 3 4 20).elevated_pct)
    × ((suggestion_of 2 3 4 20).elevated_pct ≤ 1500)
suggest-valid_example = suggest-valid day day_suggests

watch-onsets_example : (watch day samples).state.stall_events ≡ 20 + 2
watch-onsets_example = watch-onsets day samples (omega arith)
