-- ===== src/Spike/Release.antt =====
-- mgd/src/spike_mode.rs: the victims that are let go, and their file.
use lmkd_linux.Prelude.{
  ℕ, ◌≡◌, refl, none, some, List, [], ◌∷◌, any, nat_eq, nat_beq, ==_iff, ◌==◌, Option-cases,
  Bool-cases, inl, inr, if◌then◌else◌, arith,
}
use lmkd_linux.Prelude.Maps.{lookup, insert, remove, lookup-remove}
use lmkd_linux.Types.{Pid}
use lmkd_linux.Time.{Instant}
use lmkd_linux.Spike.{SpikeVictim}
use lmkd_linux.Spike.Victims.{
  SpikeTracker, values, persist_victims, drain_if_none_tracking, on_spike_exit,
  record_victim_frozen, release_each, release_requested, drain_timed_out_victims,
}

-- The file holds the victims in memory.
abbrev pub IsSaved : SpikeTracker → Type 0
IsSaved t = t.saved ≡ values t.victims

drain-IsSaved : (t : SpikeTracker) → IsSaved t → IsSaved (drain_if_none_tracking t).0
unfolding drain_if_none_tracking persist_victims
drain-IsSaved t h = ground arith

pub release_each-none :
    (now : Instant) (pid : Pid) (pids : List Pid) (t : SpikeTracker)
    → lookup pid t.victims ≡ none
    → release_each now (pid ∷ pids) t ≡ release_each now pids t
unfolding release_each
release_each-none now pid pids t e = rw (e, release_each)

abbrev pub without : Instant → Pid → SpikeVictim → SpikeTracker → SpikeTracker
without now pid v t = record t {
  victims = remove pid t.victims;
  victim_cooldowns = insert v.pid now t.victim_cooldowns;
}

pub release_each-some :
    (now : Instant) (pid : Pid) (pids : List Pid) (t : SpikeTracker) (v : SpikeVictim)
    → lookup pid t.victims ≡ some v
    → release_each now (pid ∷ pids) t ≡ (
      (release_each now pids (without now pid v t)).0,
      v ∷ (release_each now pids (without now pid v t)).1,
    )
unfolding release_each
release_each-some now pid pids t v e = rw (e, release_each)

release_each-lookup :
    (now : Instant) (pids : List Pid) (t : SpikeTracker) (q : Pid)
    → lookup q (release_each now pids t).0.victims
      ≡ (if any (λ p. nat_beq p q) pids then none else lookup q t.victims)
unfolding release_each
release_each-lookup now [] t q = refl
release_each-lookup now (pid ∷ pids) t q = elim (Option-cases (lookup pid t.victims)) [
  | inl e ↦
      rw (release_each-none now pid pids t e)
        (ground (arith, ==_iff pid q, release_each-lookup now pids t q))
  | inr (v, e) ↦ rw (release_each-some now pid pids t v e) (
      ground (
        arith,
        ==_iff pid q,
        release_each-lookup now pids (without now pid v t) q,
        lookup-remove pid q t.victims,
      ))
]

pub release_each_nothing :
    (now : Instant) (pids : List Pid) (t : SpikeTracker)
    → (release_each now pids t).1 ≡ []
    → (release_each now pids t).0.victims ≡ t.victims
unfolding release_each
release_each_nothing now [] t h = refl
release_each_nothing now (pid ∷ pids) t h = elim (Option-cases (lookup pid t.victims)) [
  | inl e ↦
      let k = rw (release_each-none now pid pids t e) at h in
      rw (release_each-none now pid pids t e) (release_each_nothing now pids t k)
  | inr (v, e) ↦ let k = rw (release_each-some now pid pids t v e) at h in absurd (ground arith)
]

requested-IsSaved :
    (now : Instant) (pids : List Pid) (t : SpikeTracker)
    → IsSaved t
    → IsSaved (release_requested now pids t).0
unfolding release_requested persist_victims
requested-IsSaved now pids t h = ground arith

-- A manual release lets go of exactly the victims that are named, whatever the spikes do.
pub release_requested-lookup :
    (now : Instant) (pids : List Pid) (t : SpikeTracker) (q : Pid)
    → lookup q (release_requested now pids t).0.victims
      ≡ (if any (λ p. nat_beq p q) pids then none else lookup q t.victims)
unfolding release_requested persist_victims
release_requested-lookup now pids t q =
    ground (arith, release_each-lookup now pids t q, release_each_nothing now pids t)

-- The file of the victims, from which a restarted daemon resumes them, is kept up by every operation: a
-- spike that exits, a victim that is frozen, a release on request and one on timeout.
pub operations-IsSaved :
    (now : Instant) (pid : Pid) (v : SpikeVictim) (pids : List Pid) (max_secs : ℕ)
    (t : SpikeTracker)
    → IsSaved t
    → IsSaved (on_spike_exit pid t).0
      × IsSaved (record_victim_frozen v t)
      × IsSaved (release_requested now pids t).0
      × IsSaved (drain_timed_out_victims now max_secs t).0
unfolding on_spike_exit record_victim_frozen drain_timed_out_victims
operations-IsSaved now pid v pids max_secs t h =
    (drain-IsSaved _ h, saved, requested-IsSaved now pids t h, timed_out)
  where
    saved : IsSaved (record_victim_frozen v t)
    saved = unfold persist_victims in refl

    timed_out : IsSaved (drain_timed_out_victims now max_secs t).0
    timed_out = elim (Bool-cases (max_secs == 0)) [
      | inl e ↦ rw e h
      | inr e ↦ rw e (requested-IsSaved now _ t h)
    ]
