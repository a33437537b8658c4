-- ===== src/Maintenance/AutoKill.antt =====
-- mgd/src/maintenance.rs: the termination of processes that are idle for too long.
pub mod Quiet
use lmkd_linux.Prelude.{
  ℕ, ◌≡◌, ◌↔◌, ap, ◌∙◌, Bool, true, false, ◌&&◌, ◌||◌, not, Option, none, some, List, [], ◌∷◌, ltb,
  leb, ◌==◌, Eq, unwrap_or, if◌then◌else◌, arith,
}
use lmkd_linux.Prelude.Maps.{lookup, insert, remove, contains_key, retain_keys}
use lmkd_linux.Types.{Pid}
use lmkd_linux.Time.{Instant, duration_since, as_secs}
use lmkd_linux.Process.{Process}
use lmkd_linux.Config.{CompiledConfig, auto_kill_idle_after_for}

-- A process, told apart from a later one with its pid by the start time.
pub record Key : Type 0 where
  pub pid : Pid
  pub start_time : ℕ

abbrev pub same_key : Key → Key → Bool
same_key a b = (a.pid == b.pid) && (a.start_time == b.start_time)

pub same_key_iff : (a b : Key) → (same_key a b ≡ true) ↔ (a ≡ b)
same_key_iff a b = (forth, λ e. ground (arith, ap (λ k. k.pid) e, ap (λ k. k.start_time) e))
  where
    forth : same_key a b ≡ true → a ≡ b
    forth h =
        let e : a.pid ≡ b.pid = ground arith in
        let f : a.start_time ≡ b.start_time = ground arith in
        ap (λ x. record { pid = x; start_time = a.start_time }) e
        ∙ ap (λ y. record { pid = b.pid; start_time = y }) f

instance abbrev pub key_eq : Eq Key
key_eq = record { beq = same_key; beq_iff = same_key_iff }

-- A process that a check looked at: it has a rule and was not frozen.
pub record Sighting : Type 0 where
  pub key : Key
  pub time : Instant
  pub cpu_pct : ℕ

-- A SIGTERM that was sent, with the rule's limit.
pub record Kill : Type 0 where
  pub key : Key
  pub time : Instant
  pub idle_secs : ℕ

-- `last_active`, with the sightings and the kills so far, the newest first.
pub record AutoKill : Type 0 where
  pub last_active : List (Key × Instant)
  pub sightings : List Sighting
  pub kills : List Kill

live_from : (Pid → Option ℕ) → List (Key × Process) → List Process → List (Key × Process)
live_from start_time_of m [] = m
live_from start_time_of m (p ∷ ps) = elim (start_time_of p.pid) [
  | none ↦ live_from start_time_of m ps
  | some st ↦ live_from start_time_of (insert (record { pid = p.pid; start_time = st }) p m) ps
]

-- `collect`, where a later process with the same key takes the place of an earlier one.
unfoldable pub live_keys : (Pid → Option ℕ) → List Process → List (Key × Process)
unfolding live_from
live_keys start_time_of procs = live_from start_time_of [] procs

-- The update of `last_active` by a sighting; a CPU share is a number of hundredths of a percent.
unfoldable pub mark : Key → ℕ → Instant → List (Key × Instant) → List (Key × Instant)
mark key cpu_pct now m = if ltb 10 cpu_pct || not (contains_key key m) then insert key now m else m

unfoldable pub see : ℕ → Key → Process → Instant → AutoKill → AutoKill
see idle_secs key p now s =
    let seen = record { key = key; time = now; cpu_pct = p.cpu_pct } ∷ s.sightings in
    let marked = mark key p.cpu_pct now s.last_active in
    if leb idle_secs (as_secs (duration_since now (unwrap_or (lookup key marked) now)))
    then record {
      last_active = remove key marked;
      sightings = seen;
      kills = record { key = key; time = now; idle_secs = idle_secs } ∷ s.kills;
    }
    else record s { last_active = marked; sightings = seen }

-- One turn of the loop over the live processes.
unfoldable pub visit : CompiledConfig → (Pid → Bool) → Instant → Key → Process → AutoKill → AutoKill
visit cfg is_frozen now key p s = elim (auto_kill_idle_after_for cfg p.name) [
  | none ↦ s
  | some idle_secs ↦ if is_frozen p.pid then s else see idle_secs key p now s
]

unfoldable pub visit_all :
    CompiledConfig → (Pid → Bool) → Instant → List (Key × Process) → AutoKill → AutoKill
visit_all cfg is_frozen now [] s = s
visit_all cfg is_frozen now ((key, p) ∷ rest) s =
    visit_all cfg is_frozen now rest (visit cfg is_frozen now key p s)

unfoldable pub check_auto_kill_idle :
    CompiledConfig → (Pid → Option ℕ) → (Pid → Bool) → List Process → Instant → AutoKill → AutoKill
check_auto_kill_idle cfg start_time_of is_frozen procs now s = elim cfg.auto_kill_rules [
  | [] ↦ s
  | rule ∷ rules ↦
      let live = live_keys start_time_of procs in
      let after = visit_all cfg is_frozen now live s in
      record after { last_active = retain_keys (λ k. contains_key k live) after.last_active }
]
