-- ===== src/Ipc.antt =====
-- mgd/src/ipc.rs: the commands of `mgctl` that the daemon's socket takes. A reply says what was done to
-- which process; its texts are left out, and letters are those of ASCII. Each system call on a process has
-- one answer during a command.
pub mod Effects
use lmkd_linux.Prelude.{
  ℕ, ◌+◌, ◌^◌, String, Bool, true, false, ◌&&◌, ◌||◌, not, Option, none, some, List, [], ◌∷◌, ◌++◌,
  map, any, keep, ◌==◌, nat_eq, if◌then◌else◌,
}
use lmkd_linux.Prelude.Maps.{lookup}
use lmkd_linux.Prelude.Text.{contains, Text, text, same, is_blank, trim, digits_from}
use lmkd_linux.Psi.Parse.{to_lower}
use lmkd_linux.Types.{Pid}
use lmkd_linux.Process.{Process}
use lmkd_linux.Execute.{OpResult, is_success}
use lmkd_linux.Registry.Frozen as Frozen
use lmkd_linux.Registry.Checkpointed as Checkpointed
use lmkd_linux.Signals.{
  Signal, sigstop, sigcont, sigkill_signal, send_signal, unfreeze_checked, sigkill,
}

-- What was done to a process, and the replies.
pub data Line : Type 0 where
  did failed already : Pid → Line

pub data Reply : Type 0 where
  ok : List Line → Reply
  queued : List Pid → Reply
  no_match : Reply

-- The listed processes, the answers of /proc and of the signals, the clock, the restores of dumps, and the
-- victims of the spike tracker.
pub record System : Type 0 where
  pub processes : List Process
  pub read_start_time : Pid → Option ℕ
  pub stopped : Pid → Bool
  pub continued : Pid → Bool
  pub killed : Pid → Bool
  pub unix_now : ℕ
  pub restore : String → OpResult
  pub victims : List (Pid × String)

-- The registries, the queued releases, the signals and restores and kills on record, the newest first, and
-- the count of reloads.
pub record Daemon : Type 0 where
  pub frozen : Frozen.FrozenRegistry
  pub checkpointed : Checkpointed.CheckpointRegistry
  pub release_requests : List Pid
  pub signals : List (Pid × Signal)
  pub restores : List String
  pub kills : List Pid
  pub reloads : ℕ

-- `parse::<Pid>`.
unfoldable pub parse_pid : Text → Option Pid
parse_pid [] = none
parse_pid (c ∷ []) = if c == 43 then none else digits_from (2 ^ 32) 0 (c ∷ [])
parse_pid (c ∷ d ∷ cs) = digits_from (2 ^ 32) 0 (if c == 43 then d ∷ cs else c ∷ d ∷ cs)

-- The argument is a pid, or a part of a name in any case.
unfoldable pub matches : Text → Pid → String → Bool
matches arg pid name = elim (parse_pid arg) [
  | some target ↦ pid == target
  | none ↦ contains (map to_lower arg) (map to_lower (text name))
]

-- The signals that reached the process go on record.
abbrev pub sent : Pid → List Signal → List (Pid × Signal) → List (Pid × Signal)
sent pid signals log = map (λ s. (pid, s)) signals ++ log

-- `FrozenRegistry::name`.
unfoldable pub name_of : Pid → Frozen.FrozenRegistry → String
name_of pid r = elim (lookup pid r.frozen) [ none ↦ "" | some e ↦ e.name ]

unfoldable pub unfreeze_one : System → Pid × ℕ → Daemon → Daemon × Line
unfreeze_one sys (pid, start_time) s =
    let (result, signals) =
      unfreeze_checked (sys.read_start_time pid) (sys.continued pid) pid start_time in
    let log = sent pid signals s.signals in
    if is_success result
    then (record s { frozen = Frozen.delete pid s.frozen; signals = log }, did pid)
    else (record s { signals = log }, failed pid)

unfoldable pub unfreeze_each : System → List (Pid × ℕ) → Daemon → Daemon × List Line
unfreeze_each sys [] s = (s, [])
unfreeze_each sys (p ∷ ps) s =
    let (next, line) = unfreeze_one sys p s in
    let (last, lines) = unfreeze_each sys ps next in (last, line ∷ lines)

-- The frozen processes that the argument matches, with their start times.
unfoldable pub pids_to_unfreeze : Text → Frozen.FrozenRegistry → List (Pid × ℕ)
pids_to_unfreeze arg r =
    map (λ pid. (pid, Frozen.start_time pid r))
      (keep (λ pid. matches arg pid (name_of pid r)) (Frozen.frozen_pids r))

-- The victims of the spike tracker, which the evictor releases.
unfoldable pub queue_release : List Pid → Daemon → Daemon × Reply
queue_release [] s = (s, no_match)
queue_release (pid ∷ pids) s =
    (record s { release_requests = s.release_requests ++ pid ∷ pids }, queued (pid ∷ pids))

unfoldable pub cmd_unfreeze : System → Text → Daemon → Daemon × Reply
cmd_unfreeze sys arg s = elim (pids_to_unfreeze arg s.frozen) [
  | [] ↦ queue_release (map (λ v. v.0) (keep (λ v. matches arg v.0 v.1) sys.victims)) s
  | p ∷ ps ↦ let (after, lines) = unfreeze_each sys (p ∷ ps) s in (after, ok lines)
]

-- After the stop: the registry takes the process, if its start time can be read.
unfoldable pub freeze_one : System → Process → Daemon → Daemon × Line
freeze_one sys p s =
    let (result, signals) = send_signal (sys.stopped p.pid) p.pid sigstop in
    let log = sent p.pid signals s.signals in
    if Frozen.is_frozen p.pid s.frozen
    then (s, already p.pid)
    else if is_success result
    then (
      record s {
        frozen = (Frozen.add (sys.read_start_time p.pid) sys.unix_now p.pid p.name s.frozen).0;
        signals = log;
      },
      did p.pid,
    )
    else (record s { signals = log }, failed p.pid)

unfoldable pub freeze_each : System → List Process → Daemon → Daemon × List Line
freeze_each sys [] s = (s, [])
freeze_each sys (p ∷ ps) s =
    let (next, line) = freeze_one sys p s in
    let (last, lines) = freeze_each sys ps next in (last, line ∷ lines)

unfoldable pub candidates : Text → List Process → List Process
candidates arg procs = keep (λ p. matches arg p.pid p.name) procs

unfoldable pub cmd_freeze : System → Text → Daemon → Daemon × Reply
cmd_freeze sys arg s = elim (candidates arg sys.processes) [
  | [] ↦ (s, no_match)
  | p ∷ ps ↦ let (after, lines) = freeze_each sys (p ∷ ps) s in (after, ok lines)
]

-- A dump that is restored leaves the registry.
unfoldable pub restore_one : System → Pid × String → Daemon → Daemon × Line
restore_one sys (pid, dir) s =
    let tried = record s { restores = dir ∷ s.restores } in
    if is_success (sys.restore dir)
    then (record tried { checkpointed = Checkpointed.delete pid s.checkpointed }, did pid)
    else (tried, failed pid)

unfoldable pub restore_each : System → List (Pid × String) → Daemon → Daemon × List Line
restore_each sys [] s = (s, [])
restore_each sys (p ∷ ps) s =
    let (next, line) = restore_one sys p s in
    let (last, lines) = restore_each sys ps next in (last, line ∷ lines)

unfoldable pub dumps : Text → Checkpointed.CheckpointRegistry → List (Pid × String)
dumps arg r =
    map (λ e. (e.0, e.1.snapshot_dir))
      (keep (λ e. matches arg e.0 e.1.name) (Checkpointed.entries_lightest_first r))

unfoldable pub cmd_restore : System → Text → Daemon → Daemon × Reply
cmd_restore sys arg s = elim (dumps arg s.checkpointed) [
  | [] ↦ (s, no_match)
  | p ∷ ps ↦ let (after, lines) = restore_each sys (p ∷ ps) s in (after, ok lines)
]

-- A kill that succeeds is an event.
unfoldable pub kill_one : System → Process → Daemon → Daemon × Line
kill_one sys p s =
    let (result, signals) = sigkill (sys.killed p.pid) in
    let tried = record s { signals = sent p.pid signals s.signals } in
    if is_success result
    then (record tried { kills = p.pid ∷ s.kills }, did p.pid)
    else (tried, failed p.pid)

unfoldable pub kill_each : System → List Process → Daemon → Daemon × List Line
kill_each sys [] s = (s, [])
kill_each sys (p ∷ ps) s =
    let (next, line) = kill_one sys p s in
    let (last, lines) = kill_each sys ps next in (last, line ∷ lines)

unfoldable pub cmd_kill : System → Text → Daemon → Daemon × Reply
cmd_kill sys arg s = elim (candidates arg sys.processes) [
  | [] ↦ (s, no_match)
  | p ∷ ps ↦ let (after, lines) = kill_each sys (p ∷ ps) s in (after, ok lines)
]

unfoldable pub cmd_reload : Daemon → Daemon × Reply
cmd_reload s = (record s { reloads = s.reloads + 1 }, ok [])

-- `splitn(2, ' ')`, the second part empty if there is none.
unfoldable pub split_space : Text → Text × Text
split_space [] = ([], [])
split_space (c ∷ cs) =
    let (first, second) = split_space cs in if c == 32 then ([], cs) else (c ∷ first, second)

-- The command that a line of the socket asks for. The first row are the reports.
pub data Command : Type 0 where
  asks_status asks_list asks_ps asks_events asks_gpu asks_spikes asks_leaks : Command
  to_reload : Command
  to_unfreeze to_freeze to_restore to_kill to_info : Text → Command
  lacks_argument not_known : Text → Command

-- A command that needs an argument.
abbrev with_arg : Text → Text → (Text → Command) → Command
with_arg cmd arg command = if is_blank arg then lacks_argument cmd else command arg

-- The match of `dispatch`.
unfoldable pub route : Text → Text → Command
route cmd arg =
    if same cmd (text "status")
    then asks_status
    else if same cmd (text "list")
    then asks_list
    else if same cmd (text "ps")
    then asks_ps
    else if same cmd (text "events")
    then asks_events
    else if same cmd (text "reload")
    then to_reload
    else if same cmd (text "unfreeze")
    then with_arg cmd arg to_unfreeze
    else if same cmd (text "freeze")
    then with_arg cmd arg to_freeze
    else if same cmd (text "restore")
    then with_arg cmd arg to_restore
    else if same cmd (text "kill")
    then with_arg cmd arg to_kill
    else if same cmd (text "info")
    then with_arg cmd arg to_info
    else if same cmd (text "gpu-info")
    then asks_gpu
    else if same cmd (text "spike-status")
    then asks_spikes
    else if same cmd (text "leak-status")
    then asks_leaks
    else not_known cmd

-- The command of a line, before it is run.
unfoldable pub command_of : Text → Command
command_of raw = let (cmd, tail) = split_space raw in route cmd (trim tail)
