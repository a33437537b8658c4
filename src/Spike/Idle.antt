-- ===== src/Spike/Idle.antt =====
-- mgd/src/spike_mode.rs: spikes that fall idle.
use lmkd_linux.Prelude.{
  ◌+◌, ◌≤◌, ◌<◌, ◌≡◌, true, false, List, [], ◌∷◌, length, All, ltb, ltb→lt, Bool-cases, inl, inr,
  ◌⊎◌, arith,
}
use lmkd_linux.Types.{Kb}
use lmkd_linux.Time.{Instant}
use lmkd_linux.Process.{Process}
use lmkd_linux.Spike.{
  observing, tracking, SpikeState, Params, sample_step, peak_step, oscillation_step, phase_step,
  demote, track, is_idle_tick,
}

-- What one tick knows of a process.
pub record Tick : Type 0 where
  pub now : Instant
  pub proc : Process
  pub rss_delta : Kb

unfoldable pub follow : Params → List Tick → SpikeState → SpikeState
follow p [] s = s
follow p (k ∷ ks) s = follow p ks (track p k.now k.proc k.rss_delta s).0

abbrev pub Idle : Params → Tick → Type 0
Idle p k = is_idle_tick p k.proc k.rss_delta ≡ true

abbrev pub GivenUp : SpikeState → Type 0
GivenUp s =
    (s.phase ≡ observing)
    × (s.has_peaked ≡ false)
    × (s.has_oscillated ≡ false)
    × (s.cpu_throttled ≡ false)

module _ (p : Params) where
  track_stays :
      (k : Tick) (s : SpikeState)
      → Idle p k
      → s.phase ≡ tracking
      → s.idle_ticks + 1 < p.idle_ticks_required
      → let next = (track p k.now k.proc k.rss_delta s).0 in
        (next.phase ≡ tracking) × (next.idle_ticks ≡ s.idle_ticks + 1)
  unfolding track phase_step oscillation_step peak_step sample_step
  track_stays k s i h l = (ground arith, ground arith)

  track_leaves :
      (k : Tick) (s : SpikeState)
      → Idle p k
      → s.phase ≡ tracking
      → p.idle_ticks_required ≤ s.idle_ticks + 1
      → let next = (track p k.now k.proc k.rss_delta s).0 in
        (next.phase ≡ observing)
        × (next.has_peaked ≡ false)
        × (next.has_oscillated ≡ false)
        × (next.cpu_throttled ≡ false)
        × (next.idle_ticks ≡ 0)
  unfolding track phase_step oscillation_step peak_step sample_step demote
  track_leaves k s i h l = (ground arith, ground arith, ground arith, ground arith, ground arith)

  follow_from :
      (ks : List Tick) (s : SpikeState)
      → All (Idle p) ks
      → s.phase ≡ tracking
      → s.idle_ticks < p.idle_ticks_required
      → (s.idle_ticks + length ks < p.idle_ticks_required → (follow p ks s).phase ≡ tracking)
        × (s.idle_ticks + length ks ≡ p.idle_ticks_required → GivenUp (follow p ks s))
  unfolding follow
  follow_from [] s i h l = ((λ _. h), λ e. absurd (omega arith))
  follow_from (k ∷ []) s i h l = (
    (λ q. (track_stays k s i.0 h (omega arith)).0),
    λ e. let o = track_leaves k s i.0 h (omega arith) in (o.0, o.1, o.2, o.3),
  )
  follow_from (k ∷ j ∷ js) s i h l =
      elim (Bool-cases (ltb (s.idle_ticks + 1) p.idle_ticks_required)) [
        | inl e ↦
            let lt = ltb→lt _ _ e in
            let o = track_stays k s i.0 h lt in
            let r =
              follow_from (j ∷ js) (track p k.now k.proc k.rss_delta s).0 i.1 o.0
                (omega (arith, o.1, lt)) in
            ((λ q. r.0 (omega (arith, o.1, q))), λ q. r.1 (omega (arith, o.1, q)))
        | inr e ↦ ((λ q. absurd (ground arith)), λ q. absurd (ground arith))
      ]

  -- A tracked spike that has just been active is given up on exactly its number of idle ticks in a row:
  -- after fewer it is still tracked, and after that many it is back to observing, with nothing shown and
  -- no throttle.
  pub follow-Idle :
      (ks : List Tick) (s : SpikeState)
      → All (Idle p) ks
      → s.phase ≡ tracking
      → s.idle_ticks ≡ 0
      → 0 < p.idle_ticks_required
      → length ks ≤ p.idle_ticks_required
      → ((length ks < p.idle_ticks_required) × ((follow p ks s).phase ≡ tracking))
        ⊎ ((length ks ≡ p.idle_ticks_required) × GivenUp (follow p ks s))
  follow-Idle ks s i h z l le =
      let r = follow_from ks s i h (omega arith) in
      elim (Bool-cases (ltb (length ks) p.idle_ticks_required)) [
        | inl e ↦ let lt = ltb→lt _ _ e in inl (lt, r.0 (omega (arith, lt, z)))
        | inr e ↦
            let eq : length ks ≡ p.idle_ticks_required = ground (arith, e, le) in
            inr (eq, r.1 (omega (arith, eq, z)))
      ]
