-- ===== src/Tests/Scoring.antt =====
-- Examples for scoring.rs.
use lmkd_linux.Prelude.{ℕ, ◌-◌, ◌≤◌, ◌<◌, ◌≡◌, ◌⊎◌, ◌↔◌, none, List, [], ◌∷◌, arith}
use lmkd_linux.Prelude.Int.{ℤ, pos}
use lmkd_linux.Time.{as_secs}
use lmkd_linux.Meminfo.{MemInfo}
use lmkd_linux.Psi.{high, emergency}
use lmkd_linux.Scoring.{
  ControlState, calm, warning, evicting, emergency_state, order, StateMachine, initial, advance,
  ScoreTracker, apply_swap_overrides,
}
use lmkd_linux.Scoring.Machine.{Inv}
use lmkd_linux.Scoring.Persistence.{run, seen, Recent, drop_needs_persistence}
use lmkd_linux.Scoring.Swap.{Cycle, timer_after, sustained_swap_escalates}

-- Two ticks up to evicting, then three of four ticks down to warning's five.
abbrev ticks : List (ControlState × ℤ)
ticks =
    (evicting, pos 0)
    ∷ (evicting, pos 0)
    ∷ (warning, pos 0)
    ∷ (warning, pos 0)
    ∷ (warning, pos 0)
    ∷ (warning, pos 0)
    ∷ (warning, pos 0)
    ∷ []

drops :
    order (advance (run initial ticks) warning (pos 0)).0.current
    < order (run initial ticks).current
unfolding advance run
drops = omega arith

drop_needs_persistence_example :
    ((advance (run initial ticks) warning (pos 0)).0.current ≡ warning)
    × Recent 6 warning (warning ∷ seen [] ticks)
drop_needs_persistence_example = drop_needs_persistence ticks warning (pos 0) drops

abbrev counting_calm : StateMachine
counting_calm = record { current = warning; pending = calm; pending_ticks = 3 }

counting_calm-Inv : Inv counting_calm
counting_calm-Inv = record { other = λ _ e. ground arith; short = λ _. omega arith }

abbrev in_emergency : StateMachine
in_emergency = record { current = emergency_state; pending = emergency_state; pending_ticks = 0 }

abbrev tracker : ScoreTracker
tracker = record { last_score = 0; last_time = 0; last_pswpin = 0; last_pswpout = 0 }

abbrev memory : MemInfo
memory = record {
  available_kb = 800000;
  total_kb = 16000000;
  swap_free_kb = 100000;
  swap_total_kb = 4000000;
}

abbrev swap_size : ℕ
swap_size = 4000000

abbrev full_at : ℕ → Cycle
full_at t = record { level = high; used = 990000; now = t }

sustained_swap_escalates_example :
    ((apply_swap_overrides high 990000 4000000
        (timer_after 4000000 none (full_at 1000000000 ∷ full_at 31000000000 ∷ []))
        50000000000).0
      ≡ emergency)
    ↔ ((high ≡ emergency) ⊎ (45 ≤ as_secs (50000000000 - 1000000000)))
sustained_swap_escalates_example =
    sustained_swap_escalates 4000000 (full_at 1000000000) (full_at 31000000000 ∷ [])
      (full_at 50000000000) (omega arith) (omega arith, (omega arith, tt)) (omega arith)

abbrev dip : Cycle
dip = record { level = high; used = 900000; now = 60000000000 }
