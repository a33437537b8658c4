-- ===== src/Tests/Execute.antt =====
-- Examples for execute.rs and registry.rs.
use lmkd_linux.Prelude.{◌≡◌, refl, true, none, some, inl, List, [], ◌∷◌, nat_eq, string_eq}
use lmkd_linux.Prelude.Maps.{lookup}
use lmkd_linux.Types.{Pid}
use lmkd_linux.Decision.{Decision, freeze, kill}
use lmkd_linux.Registry.Frozen
use lmkd_linux.Execute.{Oracle, State, success, not_dumped, execute_plan}
use lmkd_linux.Execute.Single.{calls_on, stopped, unfreeze_failed, Accounted}
use lmkd_linux.Execute.Whole.{execute_plan_spares_frozen, execute_plan-Accounted}
use lmkd_linux.Tests.Fixtures.{procs, decision}

-- A system where every freeze and kill works, and no dump does.
abbrev system : Oracle
system = record {
  freeze_op = λ calls pid. success;
  kill_op = λ calls pid. success;
  unfreeze_op = λ calls pid. success;
  checkpoint_op = λ calls pid. not_dumped;
  reclaim_op = λ calls cg bytes. true;
  read_start_time = λ calls pid. some 77;
  read_process_cgroup_path = λ pid. none;
  unix_now = 1000;
  now = 5000000000;
}

abbrev start : State
start = record {
  frozen = record { frozen = []; saved = [] };
  checkpointed = record { checkpointed = []; saved = [] };
  failed_binaries = [];
  recently_killed_cgroups = [];
  calls = [];
  logged = [];
}

abbrev helper_frozen : State
helper_frozen = record start {
  frozen = record {
    frozen = (40, record { name = "helper"; frozen_at = 900; start_time = 70 }) ∷ [];
    saved = [];
  };
}

abbrev decisions : List Decision
decisions = decision kill 30 "indexer" ∷ decision freeze 40 "helper" ∷ []

helper_is_frozen : Frozen.is_frozen 40 helper_frozen.frozen ≡ true
unfolding Frozen.is_frozen lookup
helper_is_frozen = refl

execute_plan_spares_frozen_example :
    (calls_on 40 (execute_plan system procs decisions helper_frozen).0.calls ≡ [])
    × (Frozen.is_frozen 40 (execute_plan system procs decisions helper_frozen).0.frozen ≡ true)
execute_plan_spares_frozen_example =
    execute_plan_spares_frozen system procs 40 decisions helper_frozen helper_is_frozen

start-Accounted : (q : Pid) → Accounted system start q
unfolding stopped unfreeze_failed Frozen.is_frozen lookup
start-Accounted q = inl refl

execute_plan-Accounted_example : Accounted system (execute_plan system procs decisions start).0 40
execute_plan-Accounted_example =
    execute_plan-Accounted system procs decisions start start-Accounted 40
