-- ===== src/Registry/Laws.antt =====
-- mgd/src/executor/registry.rs: the registries as maps, and their copies on disk.
use lmkd_linux.Prelude.{
  ℕ, ◌≡◌, refl, String, true, false, ◌&&◌, Option, none, some, is_some, nat_beq, nat_eq, ==_iff,
  if◌then◌else◌, arith,
}
use mathlib.Core.List.{Perm}
use lmkd_linux.Prelude.Maps.{lookup-insert, lookup-remove}
use lmkd_linux.Prelude.Sorting.{Sorted, sort-perm, sort-Sorted}
use lmkd_linux.Types.{Pid, Kb}
use lmkd_linux.Registry.Frozen
use lmkd_linux.Registry.Frozen.{FrozenRegistry, FrozenEntry}
use lmkd_linux.Registry.Checkpointed
use lmkd_linux.Registry.Checkpointed.{CheckpointRegistry, CheckpointEntry}

-- Adding a process registers it, with the clock and the start time, exactly when /proc still has it;
-- no other process is concerned.
pub add-is_frozen :
    (st : Option ℕ) (now : ℕ) (pid other : Pid) (name : String) (r : FrozenRegistry)
    → let (r', done) = Frozen.add st now pid name r in
      (done ≡ is_some st)
      × (Frozen.is_frozen other r'
          ≡ (if done && nat_beq pid other then true else Frozen.is_frozen other r))
unfolding Frozen.add Frozen.is_frozen
add-is_frozen none now pid other name r = (refl, refl)
add-is_frozen (some st) now pid other name r =
    (refl, ground (arith, lookup-insert pid other (entry st) r.frozen))
  where
    entry : ℕ → FrozenEntry
    entry t = record { name = name; frozen_at = now; start_time = t }

-- Removing a process forgets it and no other.
pub delete-is_frozen :
    (pid other : Pid) (r : FrozenRegistry)
    → Frozen.is_frozen other (Frozen.delete pid r)
      ≡ (if nat_beq pid other then false else Frozen.is_frozen other r)
unfolding Frozen.delete Frozen.is_frozen
delete-is_frozen pid other r = ground (arith, ==_iff pid other, lookup-remove pid other r.frozen)

abbrev pub IsSynced : FrozenRegistry → Type 0
IsSynced r = r.saved ≡ r.frozen

-- The file holds what the memory holds, after every operation that can change the registry.
pub Frozen-IsSynced :
    (st : Option ℕ) (now : ℕ) (pid : Pid) (name : String) (r : FrozenRegistry)
    → IsSynced r
    → IsSynced (Frozen.add st now pid name r).0 × IsSynced (Frozen.delete pid r)
unfolding Frozen.add Frozen.delete
Frozen-IsSynced st now pid name r h = (ground arith, ground arith)

-- The file of the checkpoints, likewise.
pub Checkpointed-IsSynced :
    (pid : Pid) (name dir : String) (rss : Kb) (r : CheckpointRegistry)
    → r.saved ≡ r.checkpointed
    → let a = Checkpointed.add pid name dir rss r in
      let d = Checkpointed.delete pid r in
      let i = Checkpointed.increment_attempts pid r in
      (a.saved ≡ a.checkpointed) × (d.saved ≡ d.checkpointed) × (i.saved ≡ i.checkpointed)
unfolding Checkpointed.add Checkpointed.delete Checkpointed.increment_attempts
Checkpointed-IsSynced pid name dir rss r h = (ground arith, ground arith, ground arith)

-- The entries come lightest first, and they are the registered ones, each as often.
pub entries_lightest_first-Sorted :
    (r : CheckpointRegistry)
    → Sorted Checkpointed.lighter (Checkpointed.entries_lightest_first r)
      × Perm (Checkpointed.entries_lightest_first r) r.checkpointed
unfolding Checkpointed.entries_lightest_first
entries_lightest_first-Sorted r = (
  sort-Sorted Checkpointed.lighter lighter_total lighter_trans r.checkpointed,
  sort-perm Checkpointed.lighter r.checkpointed,
)
  where
    lighter_total :
        (a b : Pid × CheckpointEntry)
        → Checkpointed.lighter a b ≡ false
        → Checkpointed.lighter b a ≡ true
    lighter_total a b h = ground arith

    lighter_trans :
        (a b c : Pid × CheckpointEntry)
        → Checkpointed.lighter a b ≡ true
        → Checkpointed.lighter b c ≡ true
        → Checkpointed.lighter a c ≡ true
    lighter_trans a b c h k = ground arith
