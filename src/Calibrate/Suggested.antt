-- ===== src/Calibrate/Suggested.antt =====
-- mgd/src/engine/calibrate.rs: the suggested thresholds.
use mathlib.Core.Path.{subst}
use lmkd_linux.Prelude.{ℕ, ◌≤◌, ◌≡◌, true, some, arith, unwrap_or}
use lmkd_linux.Psi.{valid}
use lmkd_linux.Calibrate.{
  Calibrator, Suggestion, suggest, suggestion_of, percentile, sum_u64, thresholds_of,
  min_observed_secs, min_stall_events, min_stall_secs,
}

suggestion_of-valid :
    (b o f e : ℕ)
    → let s = suggestion_of b o f e in
      (valid (thresholds_of s) ≡ true) × (200 ≤ s.elevated_pct) × (s.elevated_pct ≤ 1500)
unfolding suggestion_of valid
suggestion_of-valid b o f e = (ground arith, ground arith, ground arith)

suggest_cases :
    (c : Calibrator) {s : Suggestion}
    → suggest c ≡ some s
    → (min_observed_secs ≤ c.state.observed_secs)
      × (min_stall_events ≤ c.state.stall_events)
      × (min_stall_secs ≤ sum_u64 c.state.stall_secs)
      × (suggestion_of
            (unwrap_or (percentile c.state.benign_secs 95) 0)
            (unwrap_or (percentile c.state.stall_secs 10) 100)
            (unwrap_or (percentile c.state.full_secs 95) 20)
            c.state.stall_events
          ≡ s)
unfolding suggest
suggest_cases c h = (ground arith, ground arith, ground arith, ground arith)

-- A suggestion is made only from at least 24 hours observed, 10 stall episodes and 60 seconds of
-- stalls, and its thresholds pass the validity check of the configuration, with `elevated_pct`
-- between 2 % and 15 %.
pub suggest-valid :
    (c : Calibrator) {s : Suggestion}
    → suggest c ≡ some s
    → (min_observed_secs ≤ c.state.observed_secs)
      × (min_stall_events ≤ c.state.stall_events)
      × (min_stall_secs ≤ sum_u64 c.state.stall_secs)
      × (valid (thresholds_of s) ≡ true)
      × (200 ≤ s.elevated_pct)
      × (s.elevated_pct ≤ 1500)
unfolding suggest
suggest-valid c h =
    let (seconds, events, stalls, e) = suggest_cases c h in
    let st = c.state in
    let Promise = λ (s : Suggestion).
      (valid (thresholds_of s) ≡ true) × (200 ≤ s.elevated_pct) × (s.elevated_pct ≤ 1500) in
    let v = subst Promise e (
      suggestion_of-valid (unwrap_or (percentile st.benign_secs 95) 0)
        (unwrap_or (percentile st.stall_secs 10) 100) (unwrap_or (percentile st.full_secs 95) 20)
        st.stall_events) in
    (seconds, events, stalls, v.0, v.1, v.2)
