-- ===== src/Spike/Tracker.antt =====
-- mgd/src/spike_mode.rs: `SpikeTracker::update`, with one clock reading per update.
use lmkd_linux.Prelude.{
  ℕ, ◌-◌, ◌*◌, ◌/◌, ◌++◌, min, Bool, false, ◌&&◌, ◌||◌, not, Option, none, some, List, [], ◌∷◌, map,
  any, keep, nat_eq, unwrap_or, ltb, leb, ◌==◌, if◌then◌else◌,
}
use lmkd_linux.Prelude.Maps.{lookup, insert, retain_keys, contains_key}
use lmkd_linux.Types.{Pid, Kb, kb_sum, u64_max}
use lmkd_linux.Time.{Instant, duration_since, as_secs}
use lmkd_linux.Process.{Process}
use lmkd_linux.Spike.{
  SpikeDecision, freeze_for_headroom, release_victims, Params, new_state, track, cpu_step,
}
use lmkd_linux.Spike.Victims.{SpikeTracker, values, is_tracking, drain_if_none_tracking}

-- `scratch_rss_d` and `scratch_majflt_d`.
unfoldable pub rss_delta : SpikeTracker → Process → Kb
rss_delta t proc = proc.rss_kb - unwrap_or (lookup proc.pid t.prev_rss) proc.rss_kb

unfoldable pub majflt_delta : SpikeTracker → Process → ℕ
majflt_delta t proc = proc.majflt - unwrap_or (lookup proc.pid t.prev_majflt) proc.majflt

-- Step 1 for one process.
unfoldable pub register : Params → Process → SpikeTracker → SpikeTracker
register p proc t =
    let force_included = any (λ re. re proc.name) p.include in
    let growth_signal = ltb p.growth_threshold (rss_delta t proc) in
    let majflt_signal = ltb p.majflt_threshold (majflt_delta t proc) in
    let is_behavioral = leb p.min_rss proc.rss_kb && (growth_signal || majflt_signal) in
    let baseline = unwrap_or (lookup proc.pid t.prev_rss) proc.rss_kb in
    let state = new_state proc.pid proc.name baseline proc.cgroup_path force_included in
    if contains_key proc.pid t.spikes
      || any (λ re. re proc.name) p.exclude
      || not (force_included || is_behavioral)
    then t
    else record t { spikes = insert proc.pid state t.spikes }

unfoldable pub register_all : Params → List Process → SpikeTracker → SpikeTracker
register_all p [] t = t
register_all p (proc ∷ procs) t = register_all p procs (register p proc t)

-- Step 2: the tracker, the decisions and whether any process was demoted.
unfoldable pub track_all :
    Params → Instant → List Process → SpikeTracker → SpikeTracker × List SpikeDecision × Bool
track_all p now [] t = (t, [], false)
track_all p now (proc ∷ procs) t = elim (lookup proc.pid t.spikes) [
  | none ↦ track_all p now procs t
  | some s ↦
      let (next, ds, demoted) = track p now proc (rss_delta t proc) s in
      let (after, es, later) =
        track_all p now procs (record t { spikes = insert proc.pid next t.spikes }) in
      (after, ds ++ es, demoted || later)
]

insert_each {ℓ} : {V : Type ℓ} → (Process → V) → List Process → List (Pid × V) → List (Pid × V)
insert_each f [] m = m
insert_each f (proc ∷ procs) m = insert_each f procs (insert proc.pid (f proc) m)

abbrev pub cooling_entry : Instant → Pid × Instant → Bool
cooling_entry now x = ltb (as_secs (duration_since now x.1)) 300

-- Step 3.
unfoldable pub advance_caches : Instant → List Process → SpikeTracker → SpikeTracker
unfolding insert_each
advance_caches now procs t =
    let live = λ (pid : Pid). any (λ pr. pr.pid == pid) procs in
    record t {
      prev_rss = retain_keys live (insert_each (λ pr. pr.rss_kb) procs t.prev_rss);
      prev_majflt = retain_keys live (insert_each (λ pr. pr.majflt) procs t.prev_majflt);
      victim_cooldowns = keep (cooling_entry now) t.victim_cooldowns;
    }

-- Step 4: the release after a demotion.
unfoldable pub release_step : Bool → SpikeTracker → SpikeTracker × List SpikeDecision
release_step demoted t =
    let (after, victims) = drain_if_none_tracking t in
    if demoted
    then elim victims [ [] ↦ (after, []) | v ∷ vs ↦ (after, release_victims (v ∷ vs) ∷ []) ]
    else (t, [])

unfoldable pub sum_rss_max : SpikeTracker → Kb
sum_rss_max t = kb_sum (map (λ s. s.rss_max) (keep is_tracking (values t.spikes)))

unfoldable pub headroom : Params → Kb → SpikeTracker → List SpikeDecision
headroom p available t =
    let required = min (sum_rss_max t * p.headroom_factor / 100) u64_max in
    if ltb 0 (sum_rss_max t) && ltb available required
    then freeze_for_headroom (required - available) ∷ []
    else []

unfoldable pub cpu_all :
    Params → Option Pid → List Process → SpikeTracker → SpikeTracker × List SpikeDecision
cpu_all p foreground_pid [] t = (t, [])
cpu_all p foreground_pid (proc ∷ procs) t = elim (lookup proc.pid t.spikes) [
  | none ↦ cpu_all p foreground_pid procs t
  | some s ↦
      let (next, ds) = cpu_step p foreground_pid proc s in
      let (after, es) =
        cpu_all p foreground_pid procs (record t { spikes = insert proc.pid next t.spikes }) in
      (after, ds ++ es)
]

unfoldable pub update :
    Params
    → Option Pid
    → Instant
    → List Process
    → Kb
    → SpikeTracker
    → SpikeTracker × List SpikeDecision
unfolding register_all track_all advance_caches release_step cpu_all
update p foreground_pid now procs available t =
    let (tracked, ds, demoted) = track_all p now procs (register_all p procs t) in
    let (released, rs) = release_step demoted (advance_caches now procs tracked) in
    let (after, cs) = cpu_all p foreground_pid procs released in
    (after, ds ++ rs ++ headroom p available released ++ cs)
