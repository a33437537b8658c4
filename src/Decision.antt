-- ===== src/Decision.antt =====
-- mgd/src/engine/decision.rs: what to do with each process under pressure. The text that a decision
-- carries for the log is left out.
pub mod Loop
pub mod Candidates
pub mod Safety
pub mod Severity
use lmkd_linux.Prelude.{
  ℕ, ◌+◌, ◌-◌, ◌*◌, ◌/◌, ◌%◌, ◌^◌, min, max, String, Bool, true, false, ◌&&◌, not, Option, none,
  some, List, [], ◌∷◌, map, keep, is_same, nat_eq, ltb, leb, if◌then◌else◌,
}
use lmkd_linux.Prelude.Int.{ℤ, pos, negsuc, pos_part, neg_part, ◌-ℤ◌, leb_ℤ}
use lmkd_linux.Prelude.Sorting.{sort}
use lmkd_linux.Types.{Pid, Kb, saturating_add, kb_add}
use lmkd_linux.Config.{CompiledConfig, priority_for, checkpoint_override, is_protected}
use lmkd_linux.Process.{Process}
use lmkd_linux.Psi.{PressureLevel, normal, elevated, high, critical, emergency, at_least}

-- `Action::None` is `nothing`.
pub data Action : Type 0 where
  nothing freeze checkpoint terminate kill : Action

pub record Decision : Type 0 where
  pub pid : Pid
  pub name : String
  pub action : Action
  pub rss : Kb
  pub prio : ℕ

unfoldable pub get_priority : String → Option String → CompiledConfig → ℕ
get_priority name exe cfg = priority_for cfg name exe

-- Conversions and the subtraction of `i64`, which wraps.
abbrev pub i64_limit : ℕ
i64_limit = 2 ^ 63

abbrev signed64 : ℕ → ℤ
signed64 w = if ltb w i64_limit then pos w else negsuc (2 ^ 64 - w - 1)

unfoldable pub as_i64 : ℕ → ℤ
as_i64 n = signed64 (n % 2 ^ 64)

abbrev fits_i64 : ℤ → Bool
fits_i64 z = ltb (pos_part z) i64_limit && leb (neg_part z) i64_limit

abbrev wrap_i64 : ℤ → ℤ
wrap_i64 z =
    if fits_i64 z
    then z
    else signed64 ((pos_part z % 2 ^ 64 + 2 ^ 64 - neg_part z % 2 ^ 64) % 2 ^ 64)

unfoldable pub sub_i64 : ℤ → ℤ → ℤ
sub_i64 a b = wrap_i64 (a -ℤ b)

-- The product in `f64` is taken to be exact; its cast to `i64` drops the fraction and saturates.
unfoldable pub calculate_ram_deficit_kb : Kb → Kb → ℕ → ℤ
calculate_ram_deficit_kb available_kb total_kb target_available_pct =
    let target_kb = min (total_kb * target_available_pct / 10000) (i64_limit - 1) in
    sub_i64 (pos target_kb) (as_i64 available_kb)

-- `swap_ratio: f64`, kept as the two numbers that the source divides.
pub record Ratio : Type 0 where
  pub num : ℕ
  pub den : ℕ

abbrev over_half : Ratio → Bool
over_half r = ltb r.den (2 * r.num)

-- The arm of `PressureLevel::Critical`.
critical_action : ℕ → Ratio → Option Bool → Bool → Action
critical_action prio swap_ratio (some cp) cp_supported =
    if cp && cp_supported then checkpoint else if over_half swap_ratio then kill else terminate
critical_action prio swap_ratio none cp_supported =
    if over_half swap_ratio && leb 60 prio
    then kill
    else if leb 75 prio
    then terminate
    else if cp_supported
    then checkpoint
    else if leb 60 prio
    then terminate
    else kill

level_action : PressureLevel → ℕ → Ratio → Option Bool → Bool → Action
unfolding critical_action
level_action normal prio r o s = nothing
level_action elevated prio r o s = if leb 60 prio then freeze else nothing
level_action high prio r o s =
    if leb 80 prio then terminate else if leb 60 prio then freeze else nothing
level_action critical prio r o s = critical_action prio r o s
level_action emergency prio r o s = kill

unfoldable pub determine_process_action :
    PressureLevel → ℕ → Ratio → Option Bool → Bool → Bool → Action
unfolding level_action
determine_process_action level prio swap_ratio checkpoint_override swap_exhausted cp_supported =
    if swap_exhausted && leb 80 prio
    then kill
    else level_action level prio swap_ratio checkpoint_override cp_supported

-- What `plan` reads of the other components: the foreground process and the GPU table of
-- plugin_server.rs, and the eligibility of executor/checkpoint.rs.
pub record Env : Type 0 where
  pub active_pid : Option Pid
  pub gpu_kb : Pid → Kb
  pub checkpoint_eligible : String → Bool

pub record Candidate : Type 0 where
  pub prio : ℕ
  pub footprint : Kb
  pub proc : Process

-- The priority that `plan` goes by: a foreground process has 25 less, with a floor at 20.
unfoldable pub effective_priority : Env → CompiledConfig → Process → ℕ
effective_priority env cfg p =
    let prio = priority_for cfg p.name p.exe_basename in
    if is_same env.active_pid p.pid then max (prio - 25) 20 else prio

unfoldable pub candidate : PressureLevel → Env → CompiledConfig → Process → Candidate
unfolding effective_priority
candidate level env cfg p = record {
  prio = effective_priority env cfg p;
  footprint = saturating_add p.rss_kb (if at_least level high then env.gpu_kb p.pid else 0);
  proc = p;
}

-- The comparison of `sort_by`: `a` does not go behind `b`.
unfoldable pub goes_first : Candidate → Candidate → Bool
goes_first a b =
    if ltb b.prio a.prio
    then true
    else if ltb a.prio b.prio
    then false
    else if ltb b.footprint a.footprint
    then true
    else if ltb a.footprint b.footprint
    then false
    else leb_ℤ b.proc.oom_score a.proc.oom_score

swap_ratio : Process → Ratio
swap_ratio p =
    let total_memory = kb_add p.rss_kb p.swap_kb in
    if ltb 0 total_memory
    then record { num = p.swap_kb; den = total_memory }
    else record { num = 0; den = 1 }

-- The body of the loop up to the decision: `none` where the source says `continue`.
unfoldable pub decide : PressureLevel → Env → CompiledConfig → Bool → Candidate → Option Action
unfolding swap_ratio
decide level env cfg swap_exhausted c =
    if leb c.prio 19
    then none
    else if is_protected cfg c.proc.name
    then none
    else elim (determine_process_action level c.prio (swap_ratio c.proc)
        (checkpoint_override cfg c.proc.name) swap_exhausted
        (env.checkpoint_eligible c.proc.name)) [
          | nothing ↦ none
          | freeze ↦ some freeze
          | checkpoint ↦ some checkpoint
          | terminate ↦ some terminate
          | kill ↦ some kill
        ]

unfoldable pub freed : Action → Kb → ℤ
unfolding as_i64
freed freeze rss = pos 0
freed _ rss = as_i64 rss

abbrev pub decision_of : Candidate → Action → Decision
decision_of c a = record {
  pid = c.proc.pid;
  name = c.proc.name;
  action = a;
  rss = c.proc.rss_kb;
  prio = c.prio;
}

-- The loop over the sorted candidates, with the deficit that is left.
unfoldable pub plan_loop : (Candidate → Option Action) → ℤ → List Candidate → List Decision
plan_loop dec deficit [] = []
plan_loop dec deficit (c ∷ cs) = if leb_ℤ deficit (pos 0) then [] else elim (dec c) [
  | none ↦ plan_loop dec deficit cs
  | some a ↦ decision_of c a ∷ plan_loop dec (sub_i64 deficit (freed a c.proc.rss_kb)) cs
]

abbrev big_enough : Process → Bool
big_enough p = ltb (10 * 1024) (kb_add p.rss_kb p.swap_kb)

unfoldable pub candidates : PressureLevel → Env → CompiledConfig → List Process → List Candidate
candidates level env cfg procs =
    sort goes_first (map (candidate level env cfg) (keep big_enough procs))

unfoldable pub plan :
    PressureLevel → Env → List Process → Kb → Kb → Bool → CompiledConfig → List Decision
plan level env procs available_kb total_kb swap_exhausted cfg =
    let deficit = calculate_ram_deficit_kb available_kb total_kb cfg.target_available_pct in
    let decisions =
      plan_loop (decide level env cfg swap_exhausted) deficit (candidates level env cfg procs) in
    if at_least level elevated then (if leb_ℤ deficit (pos 0) then [] else decisions) else []
