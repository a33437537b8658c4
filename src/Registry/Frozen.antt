-- ===== src/Registry/Frozen.antt =====
-- mgd/src/executor/registry.rs: FrozenRegistry, with its copy on disk.
use lmkd_linux.Prelude.{
  ℕ, String, Bool, true, false, Option, none, some, List, [], map, length, nat_eq,
}
use lmkd_linux.Prelude.Maps.{lookup, insert, remove, contains_key}
use lmkd_linux.Types.{Pid}

pub record FrozenEntry : Type 0 where
  pub name : String
  pub frozen_at : ℕ
  pub start_time : ℕ

-- `saved` is the content of frozen.json.
pub record FrozenRegistry : Type 0 where
  pub frozen : List (Pid × FrozenEntry)
  pub saved : List (Pid × FrozenEntry)

unfoldable pub new : FrozenRegistry
new = record { frozen = []; saved = [] }

-- `load` with a readable file.
unfoldable pub load : List (Pid × FrozenEntry) → FrozenRegistry
load file = record { frozen = file; saved = file }

unfoldable pub save : FrozenRegistry → FrozenRegistry
save r = record r { saved = r.frozen }

-- `start_time` is what /proc gives for the process, none if it is gone, and `now` the clock.
unfoldable pub add : Option ℕ → ℕ → Pid → String → FrozenRegistry → FrozenRegistry × Bool
unfolding save
add none now pid name r = (r, false)
add (some st) now pid name r =
    let entry : FrozenEntry = record { name = name; frozen_at = now; start_time = st } in
    (save (record r { frozen = insert pid entry r.frozen }), true)

unfoldable pub is_frozen : Pid → FrozenRegistry → Bool
is_frozen pid r = contains_key pid r.frozen

unfoldable pub delete : Pid → FrozenRegistry → FrozenRegistry
unfolding save
delete pid r = elim (lookup pid r.frozen) [
  | none ↦ r
  | some _ ↦ save (record r { frozen = remove pid r.frozen })
]

unfoldable pub frozen_pids : FrozenRegistry → List Pid
frozen_pids r = map (λ e. e.0) r.frozen

unfoldable pub frozen_at : Pid → FrozenRegistry → ℕ
frozen_at pid r = elim (lookup pid r.frozen) [ none ↦ 0 | some e ↦ e.frozen_at ]

unfoldable pub start_time : Pid → FrozenRegistry → ℕ
start_time pid r = elim (lookup pid r.frozen) [ none ↦ 0 | some e ↦ e.start_time ]

unfoldable pub count : FrozenRegistry → ℕ
count r = length r.frozen
