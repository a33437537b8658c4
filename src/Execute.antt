-- ===== src/Execute.antt =====
-- mgd/src/evictor/execute.rs: a plan carried out through the `ActionSink` of executor/mod.rs. The
-- sink is an oracle that answers from the calls made so far; the texts of the outcomes are data.
pub mod Single
pub mod Whole
use lmkd_linux.Prelude.{
  ℕ, ◌+◌, String, Bool, true, false, ◌&&◌, Option, none, some, List, [], ◌∷◌, find, any, ltb, leb,
  ◌==◌, nat_eq, string_eq, Eq, if◌then◌else◌,
}
use lmkd_linux.Prelude.Maps.{insert}
use lmkd_linux.Types.{Pid, Kb, bytes}
use lmkd_linux.Time.{Instant}
use lmkd_linux.Process.{Process}
use lmkd_linux.Decision.{Action, nothing, freeze, checkpoint, terminate, kill, Decision}
use lmkd_linux.Registry.Frozen
use lmkd_linux.Registry.Frozen.{FrozenRegistry}
use lmkd_linux.Registry.Checkpointed
use lmkd_linux.Registry.Checkpointed.{CheckpointRegistry}

-- `OpResult` and `CheckpointResult`; `vanished` says whether the error starts with "process
-- vanished".
pub data OpResult : Type 0 where
  success : OpResult
  fail : Bool → OpResult

abbrev pub is_success : OpResult → Bool
is_success success = true
is_success (fail vanished) = false

pub data CheckpointResult : Type 0 where
  dumped : String → CheckpointResult
  not_dumped : CheckpointResult

-- A call of the sink.
pub data Call : Type 0 where
  freezes unfreezes terminates kills checkpoints : Pid → Call
  reclaims : String → ℕ → Call

-- What the system answers, given the calls so far, the newest first.
pub record Oracle : Type 0 where
  pub freeze_op : List Call → Pid → OpResult
  pub unfreeze_op : List Call → Pid → OpResult
  pub kill_op : List Call → Pid → OpResult
  pub checkpoint_op : List Call → Pid → CheckpointResult
  -- `true` for `Ok(true)`
  pub reclaim_op : List Call → String → ℕ → Bool
  pub read_start_time : List Call → Pid → Option ℕ
  pub read_process_cgroup_path : Pid → Option String
  pub unix_now : ℕ
  pub now : Instant

-- The texts that `execute_decision` returns.
pub data Outcome : Type 0 where
  no_action frozen_ok aborted_fingerprint aborted_vanished freeze_failed terminating killed :
      Outcome
  kill_failed checkpoint_ok checkpoint_terminating checkpoint_killed checkpoint_kill_failed :
      Outcome

pub data LogAction : Type 0 where
  log_freeze log_terminate log_kill log_checkpoint log_freeze_reclaim : LogAction

pub record State : Type 0 where
  pub frozen : FrozenRegistry
  pub checkpointed : CheckpointRegistry
  -- CHECKPOINT_FAILED_BINARIES of executor/checkpoint.rs
  pub failed_binaries : List String
  pub recently_killed_cgroups : List (String × Instant)
  pub calls : List Call
  pub logged : List (LogAction × Pid)

abbrev call : Call → State → State
call c s = record s { calls = c ∷ s.calls }

-- `mark_binary_failed`.
abbrev mark_binary_failed : String → State → State
mark_binary_failed name s = record s { failed_binaries = name ∷ s.failed_binaries }

abbrev note : LogAction → Pid → State → State
note a pid s = record s { logged = (a, pid) ∷ s.logged }

-- The registry's part of a freeze that the sink has made. What the sink answers to the unfreeze,
-- `unfreeze_op`, is dropped.
register : Oracle → Decision → State → State × Outcome
register o d s =
    let (reg, done) =
      Frozen.add (o.read_start_time s.calls d.pid) o.unix_now d.pid d.name s.frozen in
    if done
    then (record s { frozen = reg }, frozen_ok)
    else (call (unfreezes d.pid) s, aborted_fingerprint)

unfoldable pub freeze_process : Oracle → Decision → State → State × Outcome
unfolding register
freeze_process o d s = elim (o.freeze_op s.calls d.pid) [
  | success ↦ register o d (call (freezes d.pid) s)
  | fail vanished ↦ (call (freezes d.pid) s, if vanished then aborted_vanished else freeze_failed)
]

unfoldable pub terminate_process : Decision → State → State × Outcome
terminate_process d s = (call (terminates d.pid) s, terminating)

unfoldable pub kill_process : Oracle → Decision → State → State × Outcome
kill_process o d s = elim (o.kill_op s.calls d.pid) [
  | success ↦ (call (kills d.pid) s, killed)
  | fail _ ↦ (call (kills d.pid) s, kill_failed)
]

-- The fallback after a dump that failed.
fallback : Oracle → Decision → State → State × LogAction × Outcome
fallback o d s =
    if leb 60 d.prio
    then (call (terminates d.pid) s, log_terminate, checkpoint_terminating)
    else elim (o.kill_op s.calls d.pid) [
      | success ↦ (call (kills d.pid) s, log_kill, checkpoint_killed)
      | fail _ ↦ (call (kills d.pid) s, log_kill, checkpoint_kill_failed)
    ]

unfoldable pub execute_checkpoint : Oracle → Decision → State → State × LogAction × Outcome
unfolding fallback
execute_checkpoint o d s = elim (o.checkpoint_op s.calls d.pid) [
  | dumped dir ↦ (
    record s {
      calls = checkpoints d.pid ∷ s.calls;
      checkpointed = Checkpointed.add d.pid d.name dir d.rss s.checkpointed;
    },
    log_checkpoint,
    checkpoint_ok,
  )
  | not_dumped ↦ fallback o d (mark_binary_failed d.name (call (checkpoints d.pid) s))
]

logged_as : LogAction → Decision → State × Outcome → State × Outcome
logged_as a d (s, out) = (note a d.pid s, out)

logged_checkpoint : Decision → State × LogAction × Outcome → State × Outcome
logged_checkpoint d (s, a, out) = (note a d.pid s, out)

execute_action : Oracle → Action → Decision → State → State × Outcome
unfolding logged_as logged_checkpoint
execute_action o nothing d s = (s, no_action)
execute_action o freeze d s = logged_as log_freeze d (freeze_process o d s)
execute_action o checkpoint d s = logged_checkpoint d (execute_checkpoint o d s)
execute_action o terminate d s = logged_as log_terminate d (terminate_process d s)
execute_action o kill d s = logged_as log_kill d (kill_process o d s)

unfoldable pub execute_decision : Oracle → Decision → State → State × Outcome
unfolding execute_action
execute_decision o d s = execute_action o d.action d s

abbrev pub cgroup_in : List Process → Pid → Option String
cgroup_in procs pid = elim (find (λ p. p.pid == pid) procs) [ none ↦ none | some p ↦ p.cgroup_path ]

-- The reclaim of a cgroup whose process was just frozen.
post_freeze : Oracle → List Process → Decision → Outcome → State → State
post_freeze o procs d frozen_ok s = elim (cgroup_in procs d.pid) [
  | none ↦ s
  | some cg ↦
      if o.reclaim_op s.calls cg (bytes d.rss)
      then note log_freeze_reclaim d.pid (call (reclaims cg (bytes d.rss)) s)
      else call (reclaims cg (bytes d.rss)) s
]
post_freeze o procs d _ s = s

unfoldable pub is_destructive : Action → Bool
is_destructive kill = true
is_destructive checkpoint = true
is_destructive _ = false

arms_cooldown : Action → Bool
arms_cooldown kill = true
arms_cooldown terminate = true
arms_cooldown _ = false

abbrev or_else : Option String → Option String → Option String
or_else none o = o
or_else (some a) o = some a

track_kill : Oracle → List Process → Decision → State → State
unfolding arms_cooldown
track_kill o procs d s =
    if arms_cooldown d.action
    then elim (or_else (cgroup_in procs d.pid) (o.read_process_cgroup_path d.pid)) [
      | none ↦ s
      | some cg ↦ record s { recently_killed_cgroups = insert cg o.now s.recently_killed_cgroups }
    ]
    else s

-- The body of the loop for a process that is not frozen.
unfoldable pub carry_out : Oracle → List Process → Decision → State → State
unfolding post_freeze track_kill
carry_out o procs d s =
    let (t, out) = execute_decision o d s in track_kill o procs d (post_freeze o procs d out t)

-- The state and the count of destructive actions.
unfoldable pub execute_plan : Oracle → List Process → List Decision → State → State × ℕ
execute_plan o procs [] s = (s, 0)
execute_plan o procs (d ∷ ds) s = elim (Frozen.is_frozen d.pid s.frozen) [
  | true ↦ execute_plan o procs ds s
  | false ↦
      let (t, n) = execute_plan o procs ds (carry_out o procs d s) in
      (t, if is_destructive d.action then n + 1 else n)
]
