-- ===== src/Execute/Single.antt =====
-- mgd/src/evictor/execute.rs: one decision carried out.
use lmkd_linux.Prelude.{
  ◌≡◌, ◌≢◌, sym, ap, ◌∙◌, ◌⊎◌, inl, inr, not, ◌&&◌, ◌||◌, String, Bool, true, false, some, List, [],
  ◌∷◌, keep, ◌==◌, ==_iff, nat_eq, string_eq, if◌then◌else◌, arith,
}
use lmkd_linux.Prelude.Maps.{lookup, lookup-insert_self}
use lmkd_linux.Types.{Pid}
use lmkd_linux.Process.{Process}
use lmkd_linux.Decision.{terminate, kill, Decision}
use lmkd_linux.Registry.Frozen
use lmkd_linux.Registry.Frozen.{FrozenRegistry}
use lmkd_linux.Registry.Laws.{add-is_frozen}
use lmkd_linux.Execute.{
  is_success, success, fail, Call, freezes, unfreezes, terminates, kills, checkpoints, reclaims,
  Oracle, Outcome, State, execute_decision, execute_checkpoint, freeze_process, terminate_process,
  kill_process, carry_out, post_freeze, track_kill, cgroup_in,
}

-- The calls that signal or dump a process.
abbrev pub concerns : Pid → Call → Bool
concerns q (freezes p) = p == q
concerns q (unfreezes p) = p == q
concerns q (terminates p) = p == q
concerns q (kills p) = p == q
concerns q (checkpoints p) = p == q
concerns q (reclaims cg b) = false

abbrev pub calls_on : Pid → List Call → List Call
calls_on q cs = keep (concerns q) cs

-- Whether a process is stopped by the calls so far, as the oracle answered them.
unfoldable pub stopped : Oracle → List Call → Pid → Bool
stopped o [] q = false
stopped o (freezes p ∷ cs) q =
    let before = stopped o cs q in
    if p == q then elim (o.freeze_op cs p) [ success ↦ true | fail _ ↦ before ] else before
stopped o (unfreezes p ∷ cs) q =
    let before = stopped o cs q in
    if p == q then elim (o.unfreeze_op cs p) [ success ↦ false | fail _ ↦ before ] else before
stopped o (_ ∷ cs) q = stopped o cs q

-- Whether the sink failed to unfreeze the process in one of the calls.
unfoldable pub unfreeze_failed : Oracle → List Call → Pid → Bool
unfreeze_failed o [] q = false
unfreeze_failed o (unfreezes p ∷ cs) q =
    (p == q && not (is_success (o.unfreeze_op cs p))) || unfreeze_failed o cs q
unfreeze_failed o (_ ∷ cs) q = unfreeze_failed o cs q

-- The process is registered exactly if the calls have left it stopped, or an unfreeze of it failed.
abbrev pub Accounted : Oracle → State → Pid → Type 0
Accounted o s q =
    (stopped o s.calls q ≡ Frozen.is_frozen q s.frozen) ⊎ (unfreeze_failed o s.calls q ≡ true)

module _ (o : Oracle) (procs : List Process) (d : Decision) (s : State) where
  decision_other :
      (q : Pid)
      → q ≢ d.pid
      → let t = (execute_decision o d s).0 in
        (calls_on q t.calls ≡ calls_on q s.calls)
        × (Frozen.is_frozen q t.frozen ≡ Frozen.is_frozen q s.frozen)
  unfolding execute_decision freeze_process terminate_process kill_process execute_checkpoint
  decision_other q h = (
    ground arith,
    ground (
      arith,
      add-is_frozen (o.read_start_time (freezes d.pid ∷ s.calls) d.pid) o.unix_now d.pid q d.name
          s.frozen,
    ),
  )

  -- What follows a decision adds no call that concerns a process, and leaves the registries.
  after_calls :
      (q : Pid) (out : Outcome)
      → let t = track_kill o procs d (post_freeze o procs d out s) in
        (calls_on q t.calls ≡ calls_on q s.calls)
        × (stopped o t.calls q ≡ stopped o s.calls q)
        × (unfreeze_failed o t.calls q ≡ unfreeze_failed o s.calls q)
        × (t.frozen ≡ s.frozen)
        × (t.checkpointed ≡ s.checkpointed)
        × (t.failed_binaries ≡ s.failed_binaries)
  unfolding track_kill post_freeze stopped unfreeze_failed
  after_calls q out =
      (ground arith, ground arith, ground arith, ground arith, ground arith, ground arith)

  decision-Accounted :
      (q : Pid)
      → (Frozen.is_frozen d.pid s.frozen ≡ false)
      → Accounted o s q
      → Accounted o (execute_decision o d s).0 q
  unfolding execute_decision freeze_process terminate_process kill_process execute_checkpoint
      stopped unfreeze_failed
  decision-Accounted q h e = ground (
    arith,
    ==_iff d.pid q,
    add-is_frozen (o.read_start_time (freezes d.pid ∷ s.calls) d.pid) o.unix_now d.pid q d.name
        s.frozen,
  )

module _ (o : Oracle) (procs : List Process) (d : Decision) (s : State) where
  -- Carrying out a decision signals no other process, and freezes or releases no other.
  pub carry_out_other :
      (q : Pid)
      → q ≢ d.pid
      → let t = carry_out o procs d s in
        (calls_on q t.calls ≡ calls_on q s.calls)
        × (Frozen.is_frozen q t.frozen ≡ Frozen.is_frozen q s.frozen)
  unfolding carry_out
  carry_out_other q h =
      let (t, out) = execute_decision o d s in
      let (c, f) = decision_other o procs d s q h in
      let a = after_calls o procs d t q out in (a.0 ∙ c, ap (Frozen.is_frozen q) a.3 ∙ f)

  -- Carrying out a decision keeps each process accounted for.
  pub carry_out-Accounted :
      (q : Pid)
      → Frozen.is_frozen d.pid s.frozen ≡ false
      → Accounted o s q
      → Accounted o (carry_out o procs d s) q
  unfolding carry_out
  carry_out-Accounted q h e =
      let (t, out) = execute_decision o d s in
      let a = after_calls o procs d t q out in
      elim (decision-Accounted o procs d s q h e) [
        | inl same ↦ inl (a.1 ∙ same ∙ sym (ap (Frozen.is_frozen q) a.3))
        | inr failed ↦ inr (a.2 ∙ failed)
      ]

  -- Only a kill or a termination puts a cgroup on the list of recent kills, and one whose process is
  -- listed with a cgroup puts that cgroup there at the present time.
  pub carry_out_cooldown :
      let t = carry_out o procs d s in
      ((d.action ≢ kill) × (d.action ≢ terminate)
        → t.recently_killed_cgroups ≡ s.recently_killed_cgroups)
      × ((cg : String)
          → (d.action ≡ kill) ⊎ (d.action ≡ terminate)
          → cgroup_in procs d.pid ≡ some cg
          → lookup cg t.recently_killed_cgroups ≡ some o.now)
  unfolding carry_out track_kill post_freeze execute_decision freeze_process terminate_process
      kill_process execute_checkpoint
  carry_out_cooldown = (
    (λ h. ground arith),
    λ cg h e. ground (arith, lookup-insert_self cg o.now s.recently_killed_cgroups),
  )
