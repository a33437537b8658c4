-- ===== src/Calibrate/Episodes.antt =====
-- mgd/src/engine/calibrate.rs: the seconds and the episodes that a calibrator has recorded.
use lmkd_linux.Prelude.{
  ℕ, zero, suc, ◌+◌, ◌≤◌, ◌<◌, ◌≡◌, refl, Bool, true, false, ◌&&◌, not, List, [], ◌∷◌, length,
  if◌then◌else◌, arith,
}
use lmkd_linux.Types.{u32_max, u64_max}
use lmkd_linux.Calibrate.{
  Calibrator, CalibratorState, bins, bin, add_at, observe, record_sample, is_stalling, sum,
}

length-add_at : (xs : List ℕ) (b w : ℕ) → length (add_at xs b w) ≡ length xs
unfolding add_at
length-add_at [] b w = refl
length-add_at (x ∷ xs) zero w = refl
length-add_at (x ∷ xs) (suc b) w = omega (arith, length-add_at xs b w)

sum-add_at :
    (xs : List ℕ) (b w : ℕ)
    → b < length xs
    → sum xs + w ≤ u64_max
    → sum (add_at xs b w) ≡ sum xs + w
unfolding add_at
sum-add_at [] b w h k = absurd (omega arith)
sum-add_at (x ∷ xs) zero w h k = omega arith
sum-add_at (x ∷ xs) (suc b) w h k = omega (arith, sum-add_at xs b w (omega arith) (omega arith))

bin-lt : (pct : ℕ) → bin pct < bins
unfolding bin
bin-lt pct = omega arith

-- Every observed second is in exactly one of the two histograms over `some_avg10`.
pub record Accounted (st : CalibratorState) : Type 0 where
  pub benign_length : length st.benign_secs ≡ bins
  pub stall_length : length st.stall_secs ≡ bins
  pub full_length : length st.full_secs ≡ bins
  pub seconds : sum st.benign_secs + sum st.stall_secs ≡ st.observed_secs
  pub full_seconds : sum st.full_secs ≡ sum st.stall_secs

record_sample-Accounted :
    (some_avg10 full_avg10 w : ℕ) (in_stall : Bool) (st : CalibratorState)
    → st.observed_secs + w ≤ u64_max
    → Accounted st
    → Accounted (record_sample some_avg10 full_avg10 w in_stall st)
record_sample-Accounted some_avg10 full_avg10 w in_stall st h a =
    let b = bin some_avg10 in
    let f = bin full_avg10 in
    let bl = bin-lt some_avg10 in
    let fl = bin-lt full_avg10 in
    let hb =
      sum-add_at st.benign_secs b w (omega (arith, a.benign_length, bl))
        (omega (arith, a.seconds)) in
    let hs =
      sum-add_at st.stall_secs b w (omega (arith, a.stall_length, bl)) (omega (arith, a.seconds)) in
    let hf =
      sum-add_at st.full_secs f w (omega (arith, a.full_length, fl))
        (omega (arith, a.seconds, a.full_seconds)) in
    record {
      benign_length = ground (arith, a.benign_length, length-add_at st.benign_secs b w);
      stall_length = ground (arith, a.stall_length, length-add_at st.stall_secs b w);
      full_length = ground (arith, a.full_length, length-add_at st.full_secs f w);
      seconds = ground (arith, a.seconds, hb, hs);
      full_seconds = ground (arith, a.full_seconds, hs, hf);
    }

-- Observing keeps the account, with all three histograms 100 bins long, as long as a `u64` can hold
-- the seconds; and a sample under an intervention records nothing.
pub observe-Accounted :
    (c : Calibrator) (some_avg10 full_avg10 w : ℕ) (intervention_active : Bool)
    → c.state.observed_secs + w ≤ u64_max
    → Accounted c.state
    → let st = (observe c some_avg10 full_avg10 intervention_active w).state in
      Accounted st × (intervention_active ≡ true → st ≡ c.state)
unfolding observe
observe-Accounted c some_avg10 full_avg10 w true h a = (a, λ _. refl)
observe-Accounted c some_avg10 full_avg10 w false h a = (
  record_sample-Accounted some_avg10 full_avg10 w c.in_stall c.state h a,
  λ e. absurd (ground arith),
)

-- What `observe` is given by one tick.
pub record Sample : Type 0 where
  pub some_avg10 : ℕ
  pub full_avg10 : ℕ
  pub intervention_active : Bool
  pub weight_secs : ℕ

unfoldable pub watch : Calibrator → List Sample → Calibrator
watch c [] = c
watch c (s ∷ ss) =
    watch (observe c s.some_avg10 s.full_avg10 s.intervention_active s.weight_secs) ss

-- The samples that are counted, and that stall right after one that does not.
abbrev pub onsets : Bool → List Sample → ℕ
onsets before [] = 0
onsets before (s ∷ ss) =
    let rest = onsets (is_stalling s.full_avg10) ss in
    if is_stalling s.full_avg10 && not before && not s.intervention_active then rest + 1 else rest

observe_events :
    (c : Calibrator) (some_avg10 full_avg10 w : ℕ) (intervention_active : Bool)
    → c.state.stall_events < u32_max
    → let n = observe c some_avg10 full_avg10 intervention_active w in
      (n.in_stall ≡ is_stalling full_avg10)
      × (n.state.stall_events ≡ (
          if is_stalling full_avg10 && not c.in_stall && not intervention_active
          then c.state.stall_events + 1
          else c.state.stall_events))
unfolding observe
observe_events c some_avg10 full_avg10 w intervention_active h = (ground arith, ground arith)

-- A stall counts once, however many samples it lasts: from any run of samples the count of episodes
-- grows by the number of onsets, the samples that stall right after one that does not and are not
-- under an intervention, as long as a `u32` can hold one for each sample.
pub watch-onsets :
    (c : Calibrator) (ss : List Sample)
    → c.state.stall_events + length ss ≤ u32_max
    → (watch c ss).state.stall_events ≡ c.state.stall_events + onsets c.in_stall ss
unfolding watch
watch-onsets c [] h = omega arith
watch-onsets c (s ∷ ss) h =
    let n = observe c s.some_avg10 s.full_avg10 s.intervention_active s.weight_secs in
    let e =
      observe_events c s.some_avg10 s.full_avg10 s.weight_secs s.intervention_active
        (omega arith) in
    let r = watch-onsets n ss (ground arith) in let q = rw e.0 at r in ground (arith, e.1, q)
