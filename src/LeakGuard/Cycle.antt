-- ===== src/LeakGuard/Cycle.antt =====
-- mgd/src/evictor/leak.rs: the whole cycle.
use mathlib.Core.List.{Memᴰ}
use lmkd_linux.Prelude.{
  ◌≤◌, ◌≡◌, refl, inl, inr, String, Bool, true, false, List, [], ◌∷◌, All, All-map, All-append,
  All-of_map, All-drop, drop, keep, length, unwrap_or, Option-cases, Bool-cases, string_eq, ◌||◌,
  ltb, if◌then◌else◌, arith,
}
use lmkd_linux.Prelude.Maps.{lookup, insert-All, lookup-All}
use lmkd_linux.Prelude.Sorting.{sort, sort-All}
use lmkd_linux.Time.{Instant}
use lmkd_linux.Process.{Process}
use lmkd_linux.Config.{CompiledConfig, priority_for, is_protected}
use lmkd_linux.LeakGuard.{
  LeakDecision, GroupState, LeakTracker, Params, from_config, stale, newer, group_step, group_from,
  push_to, group_key, current_groups, update_group, update_groups, update, is_candidate,
  run_leak_guard_cycle, is_excluded, display_name,
}

-- A decision is about a process with the property.
pub record About (P : Process → Type 0) (d : LeakDecision) : Type 0 where
  pub proc : Process
  pub holds : P proc
  pub pid_eq : d.pid ≡ proc.pid
  pub name_eq : d.name ≡ proc.name

module _ (P : Process → Type 0) where
  push_to-All :
      (key : String) (p : Process) (m : List (String × List Process))
      → P p
      → All (λ x. All P x.1) m
      → All (λ x. All P x.1) (push_to key p m)
  unfolding push_to
  push_to-All key p m h hs = insert-All (All P) key _ m (All-append P _ _ old (h, tt)) hs
    where
      old : All P (unwrap_or (lookup key m) [])
      old = elim (Option-cases (lookup key m)) [
        | inl e ↦ rw e tt
        | inr (v, e) ↦ rw e (lookup-All (All P) key m v hs e)
      ]

  group_from-All :
      (m : List (String × List Process)) (procs : List Process)
      → All (λ x. All P x.1) m
      → All P procs
      → All (λ x. All P x.1) (group_from m procs)
  unfolding group_from
  group_from-All m [] hm h = hm
  group_from-All m (p ∷ ps) hm h =
      group_from-All (push_to (group_key p) p m) ps (push_to-All (group_key p) p m h.0 hm) h.1

  group_step-About :
      (p : Params) (now : Instant) (display : String) (members : List Process) (g : GroupState)
      → All P members
      → All (About P) (group_step p now display members g).1
  unfolding group_step
  group_step-About p now display members g h = ground (
    arith,
    All-of_map (About P) (stale display) (drop p.keep_newest (sort newer members)) (
        All-map P _ _ (λ x q. record { proc = x; holds = q; pid_eq = refl; name_eq = refl })
          (All-drop P p.keep_newest _ (sort-All newer P members h))),
  )

  update_group-About :
      (p : Params) (now : Instant) (key : String) (members : List Process) (m : LeakTracker)
      → All P members
      → All (About P) (update_group p now key members m).1
  unfolding update_group
  update_group-About p now key [] m h = tt
  update_group-About p now key (r ∷ rs) m h =
      elim (Bool-cases (ltb (length (r ∷ rs)) p.min_group_count || is_excluded p r)) [
        | inl e ↦ rw e tt
        | inr e ↦ rw e (group_step-About p now (display_name r) (r ∷ rs) _ h)
      ]

  update_groups-About :
      (p : Params) (now : Instant) (gs : List (String × List Process)) (m : LeakTracker)
      → All (λ x. All P x.1) gs
      → All (About P) (update_groups p now gs m).1
  unfolding update_groups
  update_groups-About p now [] m h = tt
  update_groups-About p now ((key, members) ∷ gs) m h =
      All-append (About P) _ _ (update_group-About p now key members m h.0)
        (update_groups-About p now gs (update_group p now key members m).0 h.1)

pub listed_self : (xs : List Process) → All (λ x. Memᴰ x xs) xs
listed_self [] = tt
listed_self (x ∷ xs) = (Memᴰ.head refl, All-map _ _ xs (λ y m. Memᴰ.tail m) (listed_self xs))

-- What the leak guard may reap.
abbrev pub Reapable : CompiledConfig → Process → Type 0
Reapable cfg p = (20 ≤ priority_for cfg p.name p.exe_basename) × (is_protected cfg p.name ≡ false)

candidate-Reapable :
    (cfg : CompiledConfig) (p : Process) → is_candidate cfg p ≡ true → Reapable cfg p
candidate-Reapable cfg p h = (ground arith, ground arith)

kept_good :
    (cfg : CompiledConfig) (all xs : List Process)
    → All (λ x. Memᴰ x all) xs
    → All (λ x. Memᴰ x all × Reapable cfg x) (keep (is_candidate cfg) xs)
kept_good cfg all [] h = tt
kept_good cfg all (x ∷ xs) h = elim (Bool-cases (is_candidate cfg x)) [
  | inl e ↦ rw e ((h.0, candidate-Reapable cfg x e), kept_good cfg all xs h.1)
  | inr e ↦ rw e (kept_good cfg all xs h.1)
]

if-All :
    (P : LeakDecision → Type 0) (b : Bool) (x y : LeakTracker × List LeakDecision)
    → All P x.1
    → All P y.1
    → All P (if b then x else y).1
if-All P true x y h k = h
if-All P false x y h k = k

-- The cycle signals only processes that were listed, have a priority of at least 20, and are named
-- by no protect rule; if the guard is off it signals none and keeps its tracker.
pub run_leak_guard_cycle-About :
    (cfg : CompiledConfig) (tracker : LeakTracker) (procs : List Process) (now : Instant)
    → let (next, ds) = run_leak_guard_cycle cfg tracker procs now in
      All (About (λ p. Memᴰ p procs × Reapable cfg p)) ds
      × (cfg.leak_guard_enabled ≡ false → (next ≡ tracker) × (ds ≡ []))
unfolding run_leak_guard_cycle update current_groups
run_leak_guard_cycle-About cfg tracker procs now = (
  if-All (About P) cfg.leak_guard_enabled _ (tracker, [])
      (update_groups-About P (from_config cfg) now _ _
        (group_from-All P [] (keep (is_candidate cfg) procs) tt good))
      tt,
  λ q. (ground arith, ground arith),
)
  where
    P : Process → Type 0
    P p = Memᴰ p procs × Reapable cfg p

    good : All P (keep (is_candidate cfg) procs)
    good = kept_good cfg procs procs (listed_self procs)
