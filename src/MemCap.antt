-- ===== src/MemCap.antt =====
-- mgd/src/throttle.rs: memory.max of background cgroups at high pressure. The caps that are written and
-- the writes that are tried to lift them are recorded, the newest first.
pub mod Caps
use lmkd_linux.Prelude.{
  ℕ, ◌*◌, min, String, Bool, true, false, ◌||◌, Option, none, some, List, [], ◌∷◌, map, length, ltb,
  string_eq, is_same, unwrap_or, if◌then◌else◌,
}
use lmkd_linux.Prelude.Maps.{lookup, insert, remove, contains_key, retain_keys}
use lmkd_linux.Types.{Pid, Kb, bytes, kb_add, kb_sum}
use lmkd_linux.Time.{Instant, duration_since, as_secs}
use lmkd_linux.Psi.{PressureLevel, high, below}
use lmkd_linux.Process.{Process}
use lmkd_linux.Config.{CompiledConfig}
use lmkd_linux.Throttle.{min_priority, cgroup_groups, find_foreground_cgroup}

-- "max", or a number of bytes.
pub data MemoryMax : Type 0 where
  unlimited : String → MemoryMax
  limit : String → ℕ → MemoryMax

pub record MemCapManager : Type 0 where
  pub capped : List (String × ℕ)
  pub tracker : List (String × Instant)
  pub writes : List MemoryMax

unfoldable pub new : MemCapManager
new = record { capped = []; tracker = []; writes = [] }

unfoldable pub capped_count : MemCapManager → ℕ
capped_count t = length t.capped

unfoldable pub restore_cgroup_memory : String → MemCapManager → MemCapManager
restore_cgroup_memory path t = record t { writes = unlimited path ∷ t.writes }

-- `Kb(512 * 1024)` on top of what the cgroup holds.
unfoldable pub cap_bytes : List Process → ℕ
cap_bytes ps = bytes (kb_add (kb_sum (map (λ p. p.rss_kb) ps)) (512 * 1024))

abbrev untrack : String → MemCapManager → MemCapManager
untrack path t = record t { tracker = remove path t.tracker }

-- The branch for the foreground and for priorities below 60.
unfoldable pub spare : String → MemCapManager → MemCapManager
spare path t =
    if contains_key path t.capped
    then untrack path (record (restore_cgroup_memory path t) { capped = remove path t.capped })
    else untrack path t

abbrev pub since : String → Instant → MemCapManager → Instant
since path now t = unwrap_or (lookup path t.tracker) now

unfoldable pub set_cap : (String → Bool) → String → ℕ → MemCapManager → MemCapManager
set_cap write_ok path cap t =
    if write_ok path
    then record t { capped = insert path cap t.capped; writes = limit path cap ∷ t.writes }
    else t

-- One turn of the loop; `write_ok` says whether memory.max exists and takes the write.
unfoldable pub group_step :
    (String → Bool)
    → CompiledConfig
    → Option String
    → Instant
    → String
    → List Process
    → MemCapManager
    → MemCapManager
group_step write_ok cfg foreground now path ps t =
    if is_same foreground path || ltb (min_priority cfg ps) 60
    then spare path t
    else if contains_key path t.capped
    then t
    else (let start = since path now t in
        let tracked = record t { tracker = insert path start t.tracker } in
        if ltb (as_secs (duration_since now start)) 10
        then tracked
        else set_cap write_ok path (cap_bytes ps) tracked)

unfoldable pub group_steps :
    (String → Bool)
    → CompiledConfig
    → Option String
    → Instant
    → List (String × List Process)
    → MemCapManager
    → MemCapManager
group_steps write_ok cfg foreground now [] t = t
group_steps write_ok cfg foreground now ((path, ps) ∷ gs) t =
    group_steps write_ok cfg foreground now gs (group_step write_ok cfg foreground now path ps t)

unfoldable pub update :
    (String → Bool)
    → List Process
    → Option Pid
    → PressureLevel
    → CompiledConfig
    → Instant
    → MemCapManager
    → MemCapManager
update write_ok procs active_pid level cfg now t =
    let groups = cgroup_groups procs in
    let listed = λ (path : String). contains_key path groups in
    let next =
      group_steps write_ok cfg (find_foreground_cgroup procs active_pid) now groups
        (record t { tracker = retain_keys listed t.tracker }) in
    if below level high then t else next

unfoldable pub restore_each : List (String × ℕ) → MemCapManager → MemCapManager
restore_each [] t = t
restore_each ((path, cap) ∷ rest) t = restore_each rest (restore_cgroup_memory path t)

unfoldable pub restore_all : MemCapManager → MemCapManager
restore_all t = record (restore_each t.capped t) { capped = []; tracker = [] }
