-- ===== src/LeakGuard.antt =====
-- mgd/src/leak_guard.rs: families of processes whose count only grows; and the cycle of
-- mgd/src/evictor/leak.rs that reaps them.
pub mod Group
pub mod Window
pub mod Cycle
use Prim.Native.String.{◌++◌ as str_append}
use lmkd_linux.Prelude.{
  ℕ, ◌+◌, ◌-◌, ◌*◌, String, Bool, true, false, ◌&&◌, ◌||◌, not, Option, none, some, List, [], ◌∷◌,
  ◌++◌, map, any, keep, drop, length, ltb, leb, ◌==◌, string_eq, Eq, unwrap_or, if◌then◌else◌,
}
use lmkd_linux.Prelude.Maps.{lookup, insert, retain_keys}
use lmkd_linux.Prelude.Sorting.{sort}
use lmkd_linux.Types.{Pid, Kb, kb_sum}
use lmkd_linux.Time.{Instant, duration_since, from_secs}
use lmkd_linux.Process.{Process}
use lmkd_linux.Config.{Regex, CompiledConfig, priority_for, is_protected}

-- `LeakDecision::TerminateStale`.
pub record LeakDecision : Type 0 where
  pub pid : Pid
  pub name : String
  pub group : String

pub record CountSample : Type 0 where
  pub count : ℕ
  pub taken_at : Instant

pub record GroupState : Type 0 where
  -- the oldest first
  pub samples : List CountSample
  pub cooldown_until : Option Instant
  pub last_display : String
  pub last_count : ℕ
  pub last_total_rss : Kb
  pub last_leaking : Bool

abbrev pub LeakTracker : Type 0
LeakTracker = List (String × GroupState)

pub record Params : Type 0 where
  pub window_sec : ℕ
  pub min_group_count : ℕ
  pub min_group_rss : Kb
  pub growth_over_window : ℕ
  pub min_samples : ℕ
  pub keep_newest : ℕ
  pub cooldown_sec : ℕ
  pub exclude : List Regex

unfoldable pub from_config : CompiledConfig → Params
from_config cfg = record {
  window_sec = cfg.leak_guard_window_sec;
  min_group_count = cfg.leak_guard_min_group_count;
  min_group_rss = cfg.leak_guard_min_group_rss_kb;
  growth_over_window = cfg.leak_guard_growth_over_window;
  min_samples = cfg.leak_guard_min_samples;
  keep_newest = cfg.leak_guard_keep_newest;
  cooldown_sec = cfg.leak_guard_cooldown_sec;
  exclude = cfg.leak_guard_exclude;
}

unfoldable pub group_key : Process → String
group_key p = if string_eq.beq p.cmdline "" then str_append "noargs:" p.name else p.cmdline

-- `entry(key).or_default().push(p)`.
push_to : String → Process → List (String × List Process) → List (String × List Process)
push_to key p m = insert key (unwrap_or (lookup key m) [] ++ p ∷ []) m

group_from : List (String × List Process) → List Process → List (String × List Process)
unfolding push_to
group_from m [] = m
group_from m (p ∷ ps) = group_from (push_to (group_key p) p m) ps

unfoldable pub current_groups : List Process → List (String × List Process)
unfolding group_from
current_groups procs = group_from [] procs

-- Samples outside the window leave at the front.
unfoldable pub prune : ℕ → Instant → List CountSample → List CountSample
prune window now [] = []
prune window now (s ∷ ss) =
    if ltb window (duration_since now s.taken_at) then prune window now ss else s ∷ ss

shrinks_from : ℕ → List CountSample → Bool
shrinks_from prev [] = false
shrinks_from prev (s ∷ ss) = ltb s.count prev || shrinks_from s.count ss

unfoldable pub never_shrunk : List CountSample → Bool
unfolding shrinks_from
never_shrunk [] = true
never_shrunk (s ∷ ss) = not (shrinks_from s.count ss)

abbrev pub last_from : CountSample → List CountSample → CountSample
last_from s [] = s
last_from s (t ∷ ts) = last_from t ts

unfoldable pub grown_enough : ℕ → List CountSample → Bool
grown_enough growth [] = false
grown_enough growth (s ∷ ss) = leb growth ((last_from s ss).count - s.count)

unfoldable pub is_leaking : Params → List CountSample → Kb → Bool
is_leaking p samples total_rss =
    leb p.min_samples (length samples)
    && never_shrunk samples
    && grown_enough p.growth_over_window samples
    && leb p.min_group_rss total_rss

-- `Reverse(pid)` as the sort key: the newest first.
unfoldable pub newer : Process → Process → Bool
newer a b = leb b.pid a.pid

abbrev pub stale : String → Process → LeakDecision
stale group p = record { pid = p.pid; name = p.name; group = group }

unfoldable pub in_cooldown : Instant → Option Instant → Bool
in_cooldown now none = false
in_cooldown now (some t) = ltb now t

display_name : Process → String
display_name p = unwrap_or p.exe_basename p.name

abbrev blank : String → GroupState
blank display = record {
  samples = [];
  cooldown_until = none;
  last_display = display;
  last_count = 0;
  last_total_rss = 0;
  last_leaking = false;
}

-- One group of `update`, from its state.
unfoldable pub group_step :
    Params → Instant → String → List Process → GroupState → GroupState × List LeakDecision
unfolding in_cooldown
group_step p now display members state =
    let pushed = state.samples ++ record { count = length members; taken_at = now } ∷ [] in
    let samples = prune (from_secs p.window_sec) now pushed in
    let total_rss = kb_sum (map (λ m. m.rss_kb) members) in
    let leaking = is_leaking p samples total_rss in
    let fires = leaking && not (in_cooldown now state.cooldown_until) in
    (
      record {
        samples = samples;
        cooldown_until =
            if fires then some (now + from_secs p.cooldown_sec) else state.cooldown_until;
        last_display = display;
        last_count = length members;
        last_total_rss = total_rss;
        last_leaking = leaking;
      },
      if fires then map (stale display) (drop p.keep_newest (sort newer members)) else [],
    )

abbrev is_excluded : Params → Process → Bool
is_excluded p r =
    any (λ re. re r.name || elim r.exe_basename [ none ↦ false | some e ↦ re e ]) p.exclude

-- One turn of the loop over the groups; `members[0]` represents a group, which is never empty.
update_group :
    Params → Instant → String → List Process → LeakTracker → LeakTracker × List LeakDecision
unfolding display_name
update_group p now key [] groups = (groups, [])
update_group p now key (r ∷ rs) groups =
    let members = r ∷ rs in
    let state = unwrap_or (lookup key groups) (blank (display_name r)) in
    let (next, decisions) = group_step p now (display_name r) members state in
    if ltb (length members) p.min_group_count || is_excluded p r
    then (groups, [])
    else (insert key next groups, decisions)

update_groups :
    Params → Instant → List (String × List Process) → LeakTracker → LeakTracker × List LeakDecision
unfolding update_group
update_groups p now [] groups = (groups, [])
update_groups p now ((key, members) ∷ rest) groups =
    let (mid, ds) = update_group p now key members groups in
    let (end, es) = update_groups p now rest mid in (end, ds ++ es)

unfoldable pub update :
    LeakTracker → List Process → Params → Instant → LeakTracker × List LeakDecision
unfolding update_groups
update tracker procs p now =
    let groups = current_groups procs in
    let big = λ (key : String). leb p.min_group_count (length (unwrap_or (lookup key groups) [])) in
    update_groups p now groups (retain_keys big tracker)

abbrev is_candidate : CompiledConfig → Process → Bool
is_candidate cfg p =
    ltb 19 (priority_for cfg p.name p.exe_basename) && not (is_protected cfg p.name)

-- evictor/leak.rs: the tracker after the cycle, and the decisions whose processes get a SIGTERM.
unfoldable pub run_leak_guard_cycle :
    CompiledConfig → LeakTracker → List Process → Instant → LeakTracker × List LeakDecision
run_leak_guard_cycle cfg tracker procs now =
    let result = update tracker (keep (is_candidate cfg) procs) (from_config cfg) now in
    if cfg.leak_guard_enabled then result else (tracker, [])
