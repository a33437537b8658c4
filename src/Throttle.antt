-- ===== src/Throttle.antt =====
-- mgd/src/throttle.rs: CPU shares of background cgroups. The cgroup files are an oracle that says which
-- writes succeed; every write that is tried is recorded, the newest first.
pub mod Limits
pub mod Forgotten
use lmkd_linux.Prelude.{
  ℕ, ◌++◌, min, String, Bool, true, false, ◌&&◌, ◌||◌, not, Option, none, some, List, [], ◌∷◌, map,
  any, find, ltb, leb, ◌==◌, string_eq, nat_eq, Eq, is_same, unwrap_or, if◌then◌else◌,
}
use lmkd_linux.Prelude.Maps.{lookup, insert, remove, contains_key, retain_keys}
use lmkd_linux.Types.{Pid}
use lmkd_linux.Time.{Instant, duration_since, as_secs}
use lmkd_linux.Process.{Process}
use lmkd_linux.Config.{Regex, CompiledConfig}
use lmkd_linux.Decision.{get_priority}

-- `ThrottledState::None` is `unthrottled`.
pub data ThrottledState : Type 0 where
  unthrottled weight_only full : ThrottledState

-- A write of cpu.weight, or of cpu.max: `true` for "50000 100000", `false` for "max 100000".
pub data Write : Type 0 where
  weight : String → ℕ → Write
  cpu_max : String → Bool → Write

pub record Files : Type 0 where
  pub weight_ok : String → Bool
  pub max_ok : String → Bool

pub record ThrottleManager : Type 0 where
  pub states : List (String × ThrottledState)
  pub tracker : List (String × Instant)
  pub writes : List Write

unfoldable pub new : ThrottleManager
new = record { states = []; tracker = []; writes = [] }

-- In hundredths of a percent.
abbrev pub throttle_release_psi_floor : ℕ
throttle_release_psi_floor = 200

unfoldable pub should_force_release : ℕ → ℕ → ℕ → ℕ → Bool
should_force_release background_duration_secs psi_some_avg10 max_duration_secs psi_floor =
    leb max_duration_secs background_duration_secs && ltb psi_some_avg10 psi_floor

abbrev pub same_state : ThrottledState → ThrottledState → Bool
same_state unthrottled unthrottled = true
same_state weight_only weight_only = true
same_state full full = true
same_state _ _ = false

abbrev tried : Write → ThrottleManager → ThrottleManager
tried w t = record t { writes = w ∷ t.writes }

unfoldable pub restore_cgroup_cpu : String → ThrottleManager → ThrottleManager
restore_cgroup_cpu path t = tried (cpu_max path false) (tried (weight path 100) t)

unfoldable pub current_state : String → ThrottleManager → ThrottledState
current_state path t = unwrap_or (lookup path t.states) unthrottled

abbrev set_entry : String → ThrottledState → ThrottleManager → ThrottleManager
set_entry path s t = record t { states = insert path s t.states }

abbrev untrack : String → ThrottleManager → ThrottleManager
untrack path t = record t { tracker = remove path t.tracker }

-- The branches for the foreground, for priorities below 60 and for excluded names.
unfoldable pub let_go : String → ThrottleManager → ThrottleManager
let_go path t =
    if same_state (current_state path t) unthrottled
    then untrack path t
    else untrack path (set_entry path unthrottled (restore_cgroup_cpu path t))

unfoldable pub min_priority : CompiledConfig → List Process → ℕ
min_priority cfg [] = 100
min_priority cfg (p ∷ ps) = min (get_priority p.name p.exe_basename cfg) (min_priority cfg ps)

unfoldable pub excluded : List Regex → List Process → Bool
excluded exclude ps =
    any (λ p. any (λ re. re (unwrap_or p.exe_basename p.name) || re p.name) exclude) ps

-- When the cgroup entered the background: a new entry starts now.
abbrev pub since : String → Instant → ThrottleManager → Instant
since path now t = unwrap_or (lookup path t.tracker) now

unfoldable pub target_state : CompiledConfig → ℕ → ℕ → ℕ → ThrottledState
target_state cfg psi_some_avg10 background_duration prio =
    if should_force_release background_duration psi_some_avg10 cfg.throttle_max_duration_sec
      throttle_release_psi_floor
    then unthrottled
    else if leb 10 background_duration
    then (if leb 80 prio then full else weight_only)
    else unthrottled

apply_target : Files → String → ThrottledState → ThrottleManager → ThrottleManager
apply_target f path unthrottled t = restore_cgroup_cpu path t
apply_target f path weight_only t =
    if f.weight_ok path
    then tried (cpu_max path false) (tried (weight path 1) t)
    else tried (weight path 1) t
apply_target f path full t =
    if f.weight_ok path
    then tried (cpu_max path true) (tried (weight path 1) t)
    else tried (weight path 1) t

abbrev change : Files → String → ThrottledState → ThrottleManager → ThrottleManager
change f path target t =
    if same_state target (current_state path t)
    then t
    else set_entry path target (apply_target f path target t)

-- One turn of the loop over the cgroups.
unfoldable pub group_step :
    Files
    → CompiledConfig
    → Option String
    → ℕ
    → Instant
    → String
    → List Process
    → ThrottleManager
    → ThrottleManager
unfolding apply_target
group_step f cfg foreground psi_some_avg10 now path ps t =
    if is_same foreground path || ltb (min_priority cfg ps) 60 || excluded cfg.throttle_exclude ps
    then let_go path t
    else (let start = since path now t in
        let target =
          target_state cfg psi_some_avg10 (as_secs (duration_since now start))
            (min_priority cfg ps) in
        change f path target (record t { tracker = insert path start t.tracker }))

-- `cgroup_groups.entry(path).or_default().push(p)`, for a process with a cgroup.
group_from : List (String × List Process) → List Process → List (String × List Process)
group_from m [] = m
group_from m (p ∷ ps) = elim p.cgroup_path [
  | none ↦ group_from m ps
  | some path ↦ group_from (insert path (unwrap_or (lookup path m) [] ++ p ∷ []) m) ps
]

unfoldable pub cgroup_groups : List Process → List (String × List Process)
unfolding group_from
cgroup_groups procs = group_from [] procs

cgroup_of : Pid → List Process → Option String
cgroup_of pid procs = elim (find (λ p. p.pid == pid) procs) [ none ↦ none | some p ↦ p.cgroup_path ]

unfoldable pub find_foreground_cgroup : List Process → Option Pid → Option String
unfolding cgroup_of
find_foreground_cgroup procs none = none
find_foreground_cgroup procs (some apid) = cgroup_of apid procs

unfoldable pub group_steps :
    Files
    → CompiledConfig
    → Option String
    → ℕ
    → Instant
    → List (String × List Process)
    → ThrottleManager
    → ThrottleManager
group_steps f cfg foreground psi now [] t = t
group_steps f cfg foreground psi now ((path, ps) ∷ gs) t =
    group_steps f cfg foreground psi now gs (group_step f cfg foreground psi now path ps t)

unfoldable pub restore_each : List (String × ThrottledState) → ThrottleManager → ThrottleManager
restore_each [] t = t
restore_each ((path, s) ∷ rest) t = restore_each rest (restore_cgroup_cpu path t)

unfoldable pub restore_all : ThrottleManager → ThrottleManager
restore_all t = restore_each t.states t

unfoldable pub update :
    Files
    → List Process
    → Option Pid
    → Bool
    → ℕ
    → CompiledConfig
    → Instant
    → ThrottleManager
    → ThrottleManager
update f procs active_pid active psi_some_avg10 cfg now t =
    let groups = cgroup_groups procs in
    let listed = λ (path : String). contains_key path groups in
    let idle = record (restore_each t.states t) { states = []; tracker = [] } in
    let busy =
      group_steps f cfg (find_foreground_cgroup procs active_pid) psi_some_avg10 now groups
        (record t {
          states = retain_keys listed t.states;
          tracker = retain_keys listed t.tracker;
        }) in
    if not active then idle else busy
