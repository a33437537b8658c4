-- ===== src/Registry/Checkpointed.antt =====
-- mgd/src/executor/registry.rs: CheckpointRegistry, with its copy on disk.
use lmkd_linux.Prelude.{ℕ, ◌+◌, String, Bool, none, some, List, [], length, leb, nat_eq}
use lmkd_linux.Prelude.Maps.{lookup, insert, remove}
use lmkd_linux.Prelude.Sorting.{sort}
use lmkd_linux.Types.{Pid, Kb}

pub record CheckpointEntry : Type 0 where
  pub name : String
  pub snapshot_dir : String
  pub rss : Kb
  pub attempts : ℕ

-- `saved` is the content of checkpoint.json.
pub record CheckpointRegistry : Type 0 where
  pub checkpointed : List (Pid × CheckpointEntry)
  pub saved : List (Pid × CheckpointEntry)

unfoldable pub new : CheckpointRegistry
new = record { checkpointed = []; saved = [] }

unfoldable pub save : CheckpointRegistry → CheckpointRegistry
save r = record r { saved = r.checkpointed }

unfoldable pub add : Pid → String → String → Kb → CheckpointRegistry → CheckpointRegistry
unfolding save
add pid name snapshot_dir rss r =
    let entry : CheckpointEntry = record {
      name = name;
      snapshot_dir = snapshot_dir;
      rss = rss;
      attempts = 0;
    } in
    save (record r { checkpointed = insert pid entry r.checkpointed })

unfoldable pub delete : Pid → CheckpointRegistry → CheckpointRegistry
unfolding save
delete pid r = elim (lookup pid r.checkpointed) [
  | none ↦ r
  | some _ ↦ save (record r { checkpointed = remove pid r.checkpointed })
]

-- The counter is a `u32`; recovery drops an entry after three attempts.
unfoldable pub increment_attempts : Pid → CheckpointRegistry → CheckpointRegistry
unfolding save
increment_attempts pid r = elim (lookup pid r.checkpointed) [
  | none ↦ r
  | some e ↦ save (record r {
    checkpointed = insert pid (record e { attempts = e.attempts + 1 }) r.checkpointed;
  })
]

unfoldable pub lighter : Pid × CheckpointEntry → Pid × CheckpointEntry → Bool
lighter a b = leb a.1.rss b.1.rss

unfoldable pub entries_lightest_first : CheckpointRegistry → List (Pid × CheckpointEntry)
unfolding lighter
entries_lightest_first r = sort lighter r.checkpointed

unfoldable pub count : CheckpointRegistry → ℕ
count r = length r.checkpointed
