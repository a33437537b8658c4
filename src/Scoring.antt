-- ===== src/Scoring.antt =====
-- mgd/src/evictor/scoring.rs: the composite pressure score and the state machine behind it. Shares
-- are millionths of one, scores hundred-millionths of one, a trend hundred-millionths per second,
-- and swap I/O rates millionths of a KB per second; quotients are rounded down.
pub mod Machine
pub mod Persistence
pub mod Score
pub mod Swap
use lmkd_linux.Prelude.{
  ℕ, ◌+◌, ◌-◌, ◌*◌, ◌/◌, ◌%◌, ◌^◌, min, Bool, true, false, ◌&&◌, ◌||◌, Option, none, some, List, [],
  ◌∷◌, ltb, leb, ◌==◌, if◌then◌else◌,
}
use lmkd_linux.Prelude.Int.{ℤ, pos, negsuc}
use lmkd_linux.Types.{Kb, saturating_add}
use lmkd_linux.Time.{Instant, duration_since, as_secs, nanos_per_sec}
use lmkd_linux.Meminfo.{MemInfo, swap_used_pct}
use lmkd_linux.Psi.{PressureLevel, normal, elevated, high, critical, emergency, at_least, below}

pub data ControlState : Type 0 where
  calm warning evicting critical_state emergency_state : ControlState

abbrev pub order : ControlState → ℕ
order calm = 0
order warning = 1
order evicting = 2
order critical_state = 3
order emergency_state = 4

unfoldable pub to_pressure_level : ControlState → PressureLevel
to_pressure_level calm = normal
to_pressure_level warning = elevated
to_pressure_level evicting = high
to_pressure_level critical_state = critical
to_pressure_level emergency_state = emergency

-- `trend > k` for `k` at least 0.
abbrev pub trend_over : ℕ → ℤ → Bool
trend_over k (pos n) = ltb k n
trend_over k (negsuc n) = false

abbrev pub swap_io_live_floor_kbs : ℕ
swap_io_live_floor_kbs = 1000 * 1000000

-- Hundredths of a percent, as the readings are.
abbrev pub psi_live_floor : ℕ
psi_live_floor = 50

unfoldable pub target_state_for : ℕ → ℤ → ℕ → ℕ → ControlState
target_state_for p_score trend psi_some_avg10 swap_io_kbs =
    if leb 70000000 p_score || leb 55000000 p_score && trend_over 5000000 trend
    then emergency_state
    else if leb 50000000 p_score || leb 35000000 p_score && trend_over 3000000 trend
    then critical_state
    else if leb 30000000 p_score || leb 20000000 p_score && trend_over 2000000 trend
    then evicting
    else if leb 15000000 p_score
    then (if ltb psi_live_floor psi_some_avg10 || ltb swap_io_live_floor_kbs swap_io_kbs
        then warning
        else calm)
    else calm

pub record StateMachine : Type 0 where
  pub current : ControlState
  pub pending : ControlState
  pub pending_ticks : ℕ

abbrev pub initial : StateMachine
initial = record { current = calm; pending = calm; pending_ticks = 0 }

abbrev pub same : ControlState → ControlState → Bool
same a b = order a == order b

abbrev pub required_ticks : ControlState → ℕ
required_ticks calm = 12
required_ticks warning = 6
required_ticks _ = 4

-- Both directions count ticks towards `target`, and differ in how many they need.
abbrev count_tick : StateMachine → ControlState → ℕ → StateMachine
count_tick sm target needed =
    if same target sm.pending
    then (if leb needed (sm.pending_ticks + 1)
        then record sm { current = target; pending_ticks = 0 }
        else record sm { pending_ticks = sm.pending_ticks + 1 })
    else record sm { pending = target; pending_ticks = 1 }

abbrev is_instant : ControlState → ℤ → Bool
is_instant target trend =
    (same target emergency_state || same target critical_state) && trend_over 8000000 trend

unfoldable pub advance : StateMachine → ControlState → ℤ → StateMachine × Bool
advance sm target trend =
    if ltb (order sm.current) (order target)
    then (if is_instant target trend
        then (record { current = target; pending = target; pending_ticks = 0 }, true)
        else (count_tick sm target 2, false))
    else if ltb (order target) (order sm.current)
    then (count_tick sm target (required_ticks target), false)
    else (record sm { pending = sm.current; pending_ticks = 0 }, false)

pub record ScoreTracker : Type 0 where
  pub last_score : ℕ
  pub last_time : Instant
  pub last_pswpin : ℕ
  pub last_pswpout : ℕ

pub record CycleScore : Type 0 where
  pub p_score : ℕ
  pub trend : ℤ
  pub swap_io_kbs : ℕ
  pub gpu_val : ℕ

abbrev pub one : ℕ
one = 1000000

-- `clamp(0.0, 1.0)` of a share that is not negative.
abbrev clamp_one : ℕ → ℕ
clamp_one x = min x one

-- `(score - last) / dt`, with `dt` in nanoseconds.
abbrev slope : ℕ → ℕ → ℕ → ℤ
slope score last dt =
    if leb last score
    then pos ((score - last) * nanos_per_sec / dt)
    else (if (last - score) * nanos_per_sec / dt == 0
        then pos 0
        else negsuc ((last - score) * nanos_per_sec / dt - 1))

-- The shares that make up a score.
pub record Shares : Type 0 where
  pub psi_val : ℕ
  pub swap_val : ℕ
  pub gpu_share : ℕ
  pub swap_io_val : ℕ

unfoldable pub swap_io_rate : ScoreTracker → ℕ → ℕ → ℕ → ℕ
swap_io_rate st cur_pswpin cur_pswpout dt =
    let pages = saturating_add (cur_pswpin - st.last_pswpin) (cur_pswpout - st.last_pswpout) in
    if ltb 100000000 dt then pages * 4 % 2 ^ 64 * one * nanos_per_sec / dt else 0

unfoldable pub shares : ℕ → MemInfo → Kb → ℕ → Shares
shares some_avg10 meminfo total_gpu swap_io_kbs = record {
  psi_val = clamp_one (some_avg10 * 100);
  swap_val = if ltb 0 meminfo.swap_total_kb then clamp_one (swap_used_pct meminfo) else 0;
  gpu_share = if ltb 0 meminfo.total_kb then clamp_one (total_gpu * one / meminfo.total_kb) else 0;
  swap_io_val = clamp_one (swap_io_kbs / 51200);
}

unfoldable pub composite : Shares → ℕ
composite s = 55 * s.psi_val + 20 * s.swap_val + 15 * s.gpu_share + 10 * s.swap_io_val

unfoldable pub update_with :
    ScoreTracker → ℕ → MemInfo → ℕ → ℕ → Kb → Instant → ScoreTracker × CycleScore
update_with st some_avg10 meminfo cur_pswpin cur_pswpout total_gpu now =
    let dt = duration_since now st.last_time in
    let swap_io_kbs = swap_io_rate st cur_pswpin cur_pswpout dt in
    let s = shares some_avg10 meminfo total_gpu swap_io_kbs in
    let p_score = composite s in
    (
      record {
        last_score = p_score;
        last_time = now;
        last_pswpin = cur_pswpin;
        last_pswpout = cur_pswpout;
      },
      record {
        p_score = p_score;
        trend = if ltb 100000000 dt then slope p_score st.last_score dt else pos 0;
        swap_io_kbs = swap_io_kbs;
        gpu_val = s.gpu_share;
      },
    )

abbrev or_some : Option Instant → Instant → Option Instant
or_some none now = some now
or_some (some t) now = some t

-- The timer that `apply_swap_overrides` hands on.
abbrev sustained : PressureLevel → Bool → Option Instant → Instant → Option Instant
sustained effective near_full start now =
    if near_full && at_least effective critical
    then or_some start now
    else if at_least effective emergency
    then start
    else none

abbrev escalate : PressureLevel → Option Instant → Instant → PressureLevel
escalate effective none now = effective
escalate effective (some start) now =
    if leb 45 (as_secs (duration_since now start)) && below effective emergency
    then emergency
    else effective

abbrev force_critical : PressureLevel → Bool → PressureLevel
force_critical effective exhausted =
    if exhausted && below effective critical then critical else effective

unfoldable pub apply_swap_overrides :
    PressureLevel → ℕ → Kb → Option Instant → Instant → PressureLevel × Option Instant
apply_swap_overrides level used swap_total start now =
    let effective = force_critical level (ltb 0 swap_total && leb 950000 used) in
    let timer = sustained effective (ltb 0 swap_total && leb 980000 used) start now in
    (escalate effective timer now, timer)
