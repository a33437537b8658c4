-- ===== src/Recovery/Restore.antt =====
-- restore_pass of mgd/src/recovery.rs, and the moving average of mgd/src/engine/health.rs.
use lmkd_linux.Prelude.{
  ◌*◌, ◌≤◌, ◌<◌, ◌≡◌, ◌⊎◌, true, false, Option, none, some, [], ◌∷◌, nat_eq, min, max, arith,
}
use lmkd_linux.Types.{Pid, Kb}
use lmkd_linux.Meminfo.{MemInfo}
use lmkd_linux.Registry.Checkpointed
use lmkd_linux.Registry.Checkpointed.{CheckpointRegistry, CheckpointEntry}
use lmkd_linux.Recovery.{
  HealthBaseline, System, observe, millionths, safe_to_restore, restore_head, restore_pass,
  abandoned, restored, failed, tight,
}

-- The average moves towards the sample and never past it: after the first sample it is that sample,
-- and later it lies between the old average and the sample.
pub observe_between :
    (available : Kb) (b : HealthBaseline)
    → let a = (observe available b).avg_available_kb in
      (b.samples ≡ 0 → a ≡ available * millionths)
      × (0 < b.samples
          → (min b.avg_available_kb (available * millionths) ≤ a)
            × (a ≤ max b.avg_available_kb (available * millionths)))
unfolding observe
observe_between available b = ((λ h. ground arith), λ h. (ground arith, ground arith))

-- The entry that a restore pass takes up.
abbrev pub first_entry : CheckpointRegistry → Option (Pid × CheckpointEntry)
first_entry reg = elim (Checkpointed.entries_lightest_first reg) [ [] ↦ none | e ∷ _ ↦ some e ]

module _ (sys : System) (b : HealthBaseline) (m : MemInfo) (reg : CheckpointRegistry) where
  -- A restore pass takes up the lightest entry alone. After three failed attempts it abandons it; before
  -- that it tries it only if memory allows for its size; it leaves the registry if it was restored or
  -- abandoned, and has one more attempt if the restore failed.
  pub restore_pass_cases :
      (pid : Pid) (e : CheckpointEntry)
      → first_entry reg ≡ some (pid, e)
      → let (after, what) = restore_pass sys b m reg in
        let allowed = safe_to_restore b m.available_kb m.total_kb e.rss in
        (3 ≤ e.attempts → (what ≡ abandoned pid) × (after ≡ Checkpointed.delete pid reg))
        × (e.attempts < 3 → allowed ≡ false → (what ≡ tight pid) × (after ≡ reg))
        × (e.attempts < 3
            → allowed ≡ true
            → ((sys.restored e.snapshot_dir ≡ true)
                × (what ≡ restored pid)
                × (after ≡ Checkpointed.delete pid reg))
              ⊎ ((sys.restored e.snapshot_dir ≡ false)
                  × (what ≡ failed pid)
                  × (after ≡ Checkpointed.increment_attempts pid reg)))
  unfolding restore_pass restore_head
  restore_pass_cases pid e h = (
    (λ k. (ground arith, ground arith)),
    (λ k s. (ground arith, ground arith)),
    λ k s. ground arith,
  )
