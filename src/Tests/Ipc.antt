-- ===== src/Tests/Ipc.antt =====
-- Witnesses for the commands of the socket.
use lmkd_linux.Prelude.{
  String, ◌≡◌, refl, true, ◌&&◌, ◌||◌, not, some, none, is_some, [], ◌∷◌, any, ◌==◌, if◌then◌else◌,
}
use lmkd_linux.Prelude.Maps.{lookup, remove}
use lmkd_linux.Prelude.Text.{
  text, same, trim, trim_start, trim_end, digits_from, strip_prefix, starts_with, contains,
}
use lmkd_linux.Execute.{success}
use lmkd_linux.Registry.Frozen as Frozen
use lmkd_linux.Registry.Checkpointed as Checkpointed
use lmkd_linux.Signals.{sigcont, send_signal, unfreeze_checked}
use lmkd_linux.Ipc.{
  System, Daemon, matches, name_of, parse_pid, candidates, cmd_unfreeze, cmd_freeze, unfreeze_one,
  unfreeze_each, pids_to_unfreeze, split_space, route, command_of, to_unfreeze,
}
use lmkd_linux.Ipc.Effects.{released, stops, cmd_unfreeze-is_frozen, cmd_freeze-is_frozen}
use lmkd_linux.Tests.Fixtures.{process}

-- Process 50 was stopped as its entry in /proc went away.
abbrev system : System
system = record {
  processes =
      process 30 "indexer" 200000 ∷ process 40 "Editor" 300000 ∷ process 50 "helper" 400 ∷ [];
  read_start_time = λ pid. if pid == 50 then none else some 700;
  stopped = λ pid. true;
  continued = λ pid. true;
  killed = λ pid. true;
  unix_now = 1000;
  restore = λ dir. success;
  victims = (60, "browser") ∷ [];
}

abbrev entry : String → Frozen.FrozenEntry
entry name = record { name = name; frozen_at = 900; start_time = 700 }

abbrev daemon : Daemon
daemon = record {
  frozen = Frozen.load ((10, entry "EditorHelper") ∷ (20, entry "player") ∷ []);
  checkpointed = Checkpointed.new;
  release_requests = [];
  signals = [];
  restores = [];
  kills = [];
  reloads = 0;
}

cmd_unfreeze-is_frozen_example :
    Frozen.is_frozen 10 (cmd_unfreeze system (text "editor") daemon).0.frozen ≡ (
      Frozen.is_frozen 10 daemon.frozen
      && not (
          matches (text "editor") 10 (name_of 10 daemon.frozen)
          && released system 10 (Frozen.start_time 10 daemon.frozen)))
cmd_unfreeze-is_frozen_example = cmd_unfreeze-is_frozen system (text "editor") daemon 10

-- The line asks for an unfreeze, which releases the one process whose name has the argument in it.
editor_line : command_of (text "unfreeze  editor") ≡ to_unfreeze (text "editor")
unfolding command_of route split_space same trim trim_start trim_end
editor_line = refl

editor_released : (cmd_unfreeze system (text "editor") daemon).0.signals ≡ (10, sigcont) ∷ []
unfolding same cmd_unfreeze unfreeze_one unfreeze_each pids_to_unfreeze parse_pid digits_from
    contains matches starts_with strip_prefix name_of lookup remove Frozen.load Frozen.frozen_pids
    Frozen.start_time Frozen.delete unfreeze_checked send_signal
editor_released = refl

cmd_freeze-is_frozen_example :
    Frozen.is_frozen 40 (cmd_freeze system (text "40") daemon).0.frozen ≡ (
      Frozen.is_frozen 40 daemon.frozen
      || (any (λ p. p.pid == 40) (candidates (text "40") system.processes)
          && stops system 40
          && is_some (system.read_start_time 40)))
cmd_freeze-is_frozen_example = cmd_freeze-is_frozen system (text "40") daemon 40
