-- ===== src/Tests/SpikeCycle.antt =====
-- Examples for the spike cycle of the evictor and for a calm tick.
use lmkd_linux.Prelude.{◌≡◌, ◌⊎◌, inl, true, false, any, nat_beq, some, [], ◌∷◌, nat_eq, arith}
use lmkd_linux.Prelude.Maps.{lookup}
use lmkd_linux.Execute.{success}
use lmkd_linux.Registry.Frozen
use lmkd_linux.Spike.{SpikeVictim}
use lmkd_linux.Evictor.SpikeCycle.{System, CycleState, stop, run_spike_cycle}
use lmkd_linux.Evictor.SpikeCycle.Owed.{owed, Kept}
use lmkd_linux.Evictor.SpikeCycle.Whole.{run_spike_cycle-Kept}
use lmkd_linux.Evictor.CalmTick.{Tick, TickState, idle_timeout_reclaim}
use lmkd_linux.Evictor.CalmTick.Paced.{Paced, reclaims_of, idle_timeout_reclaim-Paced}
use lmkd_linux.Evictor.{excluded_pids}
use lmkd_linux.Tests.Fixtures.{config, procs}
use lmkd_linux.Tests.Reclaim as Reclaim

-- The helper was stopped for a compiler that has exited since.
abbrev helper : SpikeVictim
helper = record {
  pid = 40;
  name = "helper";
  start_time = 70;
  frozen_for_spike_pid = 30;
  frozen_at = 1000000000;
}

abbrev cycle : CycleState
cycle = record {
  tracker = record {
    spikes = [];
    victims = (40, helper) ∷ [];
    victim_cooldowns = [];
    prev_rss = [];
    prev_majflt = [];
    saved = helper ∷ [];
  };
  calls = stop 40 70 success ∷ [];
  weights = [];
  reclaims = [];
}

abbrev system : System
system = record {
  now = 900000000000;
  read_start_time = λ pid. some 70;
  checked_start_time = λ pid. some 70;
  delivered = λ pid. true;
  foreground_pid = some 20;
  cgroups = Reclaim.leaves;
}

cycle-Kept : Kept [] cycle
unfolding owed lookup
cycle-Kept = ((λ pid v h. ground (arith, h)), λ pid st o. inl (ground (arith, o)))

run_spike_cycle-Kept_example :
    Kept [] (run_spike_cycle system config Frozen.new 6291456 procs [] cycle)
run_spike_cycle-Kept_example =
    run_spike_cycle-Kept system config Frozen.new procs 6291456 [] cycle cycle-Kept

abbrev tick : Tick
tick = record {
  spike = system;
  reclaim = Reclaim.system;
  procs = Reclaim.listed;
  mem = Reclaim.memory;
  later_mem = Reclaim.memory;
  manual_release = [];
}

abbrev calm : TickState
calm = record { cycle = cycle; idle = Reclaim.idle; last_check = 100000000000 }

calm-Paced : Paced config.idle_reclaim_global_cooldown_sec calm.last_check calm.idle.reclaims
calm-Paced = ((omega arith, tt), (tt, tt))

idle_timeout_reclaim-Paced_example :
    let after = idle_timeout_reclaim config tick calm in
    let cycled = run_spike_cycle system config calm.idle.frozen 6291456 Reclaim.listed [] cycle in
    Paced config.idle_reclaim_global_cooldown_sec after.last_check after.idle.reclaims
    × ((config.idle_reclaim_enabled ≡ true) ⊎ (after.idle ≡ calm.idle))
    × ((any (λ x. nat_beq x 40) (excluded_pids calm.idle.frozen cycled.tracker false) ≡ false)
        ⊎ (reclaims_of 40 after.idle ≡ reclaims_of 40 calm.idle))
idle_timeout_reclaim-Paced_example =
    idle_timeout_reclaim-Paced config tick 40 calm (omega arith) calm-Paced
