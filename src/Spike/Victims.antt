-- ===== src/Spike/Victims.antt =====
-- mgd/src/spike_mode.rs: the victims, processes frozen for headroom.
use lmkd_linux.Prelude.{
  ℕ, Bool, true, false, ◌||◌, none, some, List, [], ◌∷◌, map, any, keep, nat_eq, ltb, leb, ◌==◌,
  if◌then◌else◌,
}
use lmkd_linux.Prelude.Maps.{lookup, insert, remove}
use lmkd_linux.Types.{Pid, Kb}
use lmkd_linux.Time.{Instant, duration_since, as_secs}
use lmkd_linux.Spike.{tracking, observing, SpikeState, SpikeVictim}

pub record SpikeTracker : Type 0 where
  pub spikes : List (Pid × SpikeState)
  pub victims : List (Pid × SpikeVictim)
  pub victim_cooldowns : List (Pid × Instant)
  pub prev_rss : List (Pid × Kb)
  pub prev_majflt : List (Pid × ℕ)
  -- spike_victims.json
  pub saved : List SpikeVictim

unfoldable pub new : SpikeTracker
new = record {
  spikes = [];
  victims = [];
  victim_cooldowns = [];
  prev_rss = [];
  prev_majflt = [];
  saved = [];
}

abbrev pub values {ℓ} : {V : Type ℓ} → List (Pid × V) → List V
values m = map (λ x. x.1) m

unfoldable pub persist_victims : SpikeTracker → SpikeTracker
persist_victims t = record t { saved = values t.victims }

abbrev pub is_tracking : SpikeState → Bool
is_tracking s = elim s.phase [ observing ↦ false | tracking ↦ true ]

abbrev pub any_tracking : SpikeTracker → Bool
any_tracking t = any is_tracking (values t.spikes)

abbrev pub is_empty {ℓ} : {A : Type ℓ} → List A → Bool
is_empty [] = true
is_empty (x ∷ xs) = false

unfoldable pub drain_if_none_tracking : SpikeTracker → SpikeTracker × List SpikeVictim
unfolding persist_victims
drain_if_none_tracking t =
    if is_empty t.victims || any_tracking t
    then (t, [])
    else (persist_victims (record t { victims = [] }), values t.victims)

unfoldable pub on_spike_exit : Pid → SpikeTracker → SpikeTracker × List SpikeVictim
on_spike_exit spike_pid t = drain_if_none_tracking (record t {
  spikes = remove spike_pid t.spikes;
  prev_rss = remove spike_pid t.prev_rss;
  prev_majflt = remove spike_pid t.prev_majflt;
})

unfoldable pub record_victim_frozen : SpikeVictim → SpikeTracker → SpikeTracker
unfolding persist_victims
record_victim_frozen v t = persist_victims (record t { victims = insert v.pid v t.victims })

unfoldable pub drain_orphaned_victims : SpikeTracker → SpikeTracker × List SpikeVictim
drain_orphaned_victims t = drain_if_none_tracking t

-- `filter_map` over `victims.remove`, and the cooldown of each victim removed.
unfoldable pub release_each : Instant → List Pid → SpikeTracker → SpikeTracker × List SpikeVictim
release_each now [] t = (t, [])
release_each now (pid ∷ pids) t = elim (lookup pid t.victims) [
  | none ↦ release_each now pids t
  | some v ↦
      let (after, released) = release_each now pids (record t {
        victims = remove pid t.victims;
        victim_cooldowns = insert v.pid now t.victim_cooldowns;
      }) in
      (after, v ∷ released)
]

abbrev pub persisted :
    SpikeTracker × List SpikeVictim → SpikeTracker → SpikeTracker × List SpikeVictim
persisted (after, released) t =
    if is_empty released then (t, []) else (persist_victims after, released)

unfoldable pub release_requested :
    Instant → List Pid → SpikeTracker → SpikeTracker × List SpikeVictim
unfolding persist_victims
release_requested now pids t = persisted (release_each now pids t) t

abbrev pub is_timed_out : Instant → ℕ → SpikeVictim → Bool
is_timed_out now max_secs v = leb max_secs (as_secs (duration_since now v.frozen_at))

unfoldable pub drain_timed_out_victims :
    Instant → ℕ → SpikeTracker → SpikeTracker × List SpikeVictim
drain_timed_out_victims now max_secs t =
    let late = map (λ v. v.pid) (keep (is_timed_out now max_secs) (values t.victims)) in
    if max_secs == 0 then (t, []) else release_requested now late t

unfoldable pub is_victim_cooldown : Instant → Pid → ℕ → SpikeTracker → Bool
is_victim_cooldown now pid cooldown_sec t = elim (lookup pid t.victim_cooldowns) [
  | none ↦ false
  | some at ↦ ltb (as_secs (duration_since now at)) cooldown_sec
]
