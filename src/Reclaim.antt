-- ===== src/Reclaim.antt =====
-- mgd/src/evictor/reclaim_primitive.rs: the write to a cgroup's memory.reclaim. What the cgroup files
-- answer is a parameter; every write that is tried is recorded, the newest first.
pub mod Early
pub mod Caches
pub mod Zram
pub mod Idle
pub mod Cooldowns
pub mod Denied
use lmkd_linux.Prelude.{
  ℕ, String, Bool, true, false, ◌||◌, not, Option, none, some, List, [], ◌∷◌, string_eq, unwrap_or,
  ◌==◌, if◌then◌else◌, ◌≡◌, ◌≢◌, ◌⊎◌, arith,
}

-- `std::io::ErrorKind`, as far as the code tells its values apart.
pub data ErrorKind : Type 0 where
  permission_denied would_block not_found other_error : ErrorKind

abbrev pub WriteLog : Type 0
WriteLog = List (String × ℕ)

-- `has_child_dir` is none where the directory cannot be read. A write is given those made before.
pub record Cgroups : Type 0 where
  pub has_child_dir : String → Option Bool
  pub has_reclaim_file : String → Bool
  pub write_reclaim : WriteLog → String → ℕ → Option ErrorKind

pub data ReclaimResult : Type 0 where
  done : Bool → ReclaimResult
  failed_with : ErrorKind → ReclaimResult

pub data ReclaimOutcome : Type 0 where
  reclaimed skipped blocked : ReclaimOutcome
  failed : ErrorKind → ReclaimOutcome

unfoldable pub is_cgroup_leaf : Cgroups → String → Bool
is_cgroup_leaf cg path = not (unwrap_or (cg.has_child_dir path) false)

abbrev is_root : String → Bool
is_root path = string_eq.beq path "/" || string_eq.beq path ""

-- The `match` on the result of the write.
unfoldable pub written : Option ErrorKind → ReclaimResult
written none = done true
written (some permission_denied) = done false
written (some would_block) = failed_with would_block
written (some not_found) = failed_with not_found
written (some other_error) = failed_with other_error

unfoldable pub reclaim_cgroup : Cgroups → String → ℕ → WriteLog → ReclaimResult × WriteLog
reclaim_cgroup cg path size log =
    if size == 0
    then (done false, log)
    else if is_root path
    then (failed_with permission_denied, log)
    else if not (is_cgroup_leaf cg path)
    then (done false, log)
    else if cg.has_reclaim_file path
    then (written (cg.write_reclaim log path size), (path, size) ∷ log)
    else (failed_with not_found, log)

unfoldable pub outcome_of : ReclaimResult → ReclaimOutcome
outcome_of (done true) = reclaimed
outcome_of (done false) = skipped
outcome_of (failed_with would_block) = blocked
outcome_of (failed_with permission_denied) = failed permission_denied
outcome_of (failed_with not_found) = failed not_found
outcome_of (failed_with other_error) = failed other_error

unfoldable pub try_reclaim_cgroup : Cgroups → String → ℕ → WriteLog → ReclaimOutcome × WriteLog
try_reclaim_cgroup cg path size log =
    let (result, after) = reclaim_cgroup cg path size log in (outcome_of result, after)

-- A write that may be made: some bytes, to a leaf that is not the root.
abbrev pub IsAllowed : Cgroups → String × ℕ → Type 0
IsAllowed cg w =
    (w.1 ≢ 0)
    × (w.0 ≢ "/")
    × (w.0 ≢ "")
    × (is_cgroup_leaf cg w.0 ≡ true)
    × (cg.has_reclaim_file w.0 ≡ true)

-- An attempt writes nothing, or the one allowed write that it was asked for.
pub try_reclaim_cgroup_cases :
    (cg : Cgroups) (path : String) (size : ℕ) (log : WriteLog)
    → let after = (try_reclaim_cgroup cg path size log).1 in
      (after ≡ log) ⊎ ((after ≡ (path, size) ∷ log) × IsAllowed cg (path, size))
unfolding try_reclaim_cgroup reclaim_cgroup
try_reclaim_cgroup_cases cg path size log =
    ground (arith, string_eq.beq_iff path "/", string_eq.beq_iff path "")
