-- ===== src/Tests/Evictor.antt =====
-- Examples for evictor/mod.rs.
use lmkd_linux.Prelude.{ℕ, ◌≡◌, refl, String, Bool, true, none, some, inl, [], ◌∷◌, All, arith}
use lmkd_linux.Meminfo.{MemInfo}
use lmkd_linux.Psi.{emergency}
use lmkd_linux.Config.{CompiledConfig, is_protected}
use lmkd_linux.Scoring.{ScoreTracker}
use lmkd_linux.Execute.{Oracle, State, success, not_dumped}
use lmkd_linux.Execute.Single.{calls_on}
use lmkd_linux.MemCap.{MemCapManager, limit}
use lmkd_linux.MemCap.Caps.{Synced, in_force}
use lmkd_linux.Prelude.Maps.{lookup}
use lmkd_linux.Spike.Victims.{SpikeTracker}
use lmkd_linux.Evictor.{Reading, excluded_pids, forget_kills, evict}
use lmkd_linux.Evictor.Spared.{Spared, evict-Spared}
use lmkd_linux.Tests.Fixtures.{config, procs, env}

abbrev system : Oracle
system = record {
  freeze_op = λ calls pid. success;
  kill_op = λ calls pid. success;
  unfreeze_op = λ calls pid. success;
  checkpoint_op = λ calls pid. not_dumped;
  reclaim_op = λ calls cg bytes. true;
  read_start_time = λ calls pid. some 77;
  read_process_cgroup_path = λ pid. none;
  unix_now = 1000;
  now = 5000000000;
}

abbrev nothing_done : State
nothing_done = record {
  frozen = record { frozen = []; saved = [] };
  checkpointed = record { checkpointed = []; saved = [] };
  failed_binaries = [];
  recently_killed_cgroups = [];
  calls = [];
  logged = [];
}

abbrev no_spikes : SpikeTracker
no_spikes = record {
  spikes = [];
  victims = [];
  victim_cooldowns = [];
  prev_rss = [];
  prev_majflt = [];
  saved = [];
}

abbrev memory : MemInfo
memory = record {
  available_kb = 400000;
  total_kb = 16000000;
  swap_free_kb = 10000;
  swap_total_kb = 4000000;
}

sshd_protected : is_protected config "sshd" ≡ true
unfolding is_protected
sshd_protected = refl

-- The process of pid 50 is the protected sshd.
sshd-Spared :
    All
      (λ p.
        p.pid ≡ 50
        → Spared env config
            (excluded_pids nothing_done.frozen no_spikes true)
            (forget_kills 5000000000 nothing_done).recently_killed_cgroups
            p)
      procs
sshd-Spared = (
  (λ e. ground arith),
  (
    (λ e. ground arith),
    ((λ e. ground arith), ((λ e. ground arith), ((λ e. inl sshd_protected), tt))),
  ),
)

evict-Spared_example :
    calls_on 50 (evict system env config emergency memory no_spikes procs nothing_done).0.calls ≡ []
evict-Spared_example =
    evict-Spared system env config emergency memory no_spikes procs nothing_done 50 sshd-Spared

abbrev hibernating : CompiledConfig
hibernating = record config { emergency_hibernate_after_sec = 60 }

abbrev reading : ℕ → Reading
reading t = record {
  some_avg10 = 9000;
  meminfo = memory;
  pswpin = 0;
  pswpout = 0;
  total_gpu = 8000000;
  now = t;
}

abbrev fresh_tracker : ScoreTracker
fresh_tracker = record { last_score = 0; last_time = 0; last_pswpin = 0; last_pswpout = 0 }

abbrev writable : String → Bool
writable path = true

abbrev capped : MemCapManager
capped = record {
  capped = ("indexer", 4096) ∷ [];
  tracker = [];
  writes = limit "indexer" 4096 ∷ [];
}

capped-Synced : Synced capped
unfolding in_force lookup
capped-Synced q = ground arith
