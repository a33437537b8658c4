-- ===== src/Reclaim/Cooldowns.antt =====
-- mgd/src/evictor/early_reclaim.rs and cache_drop.rs: how often the two fire, and on what.
use mathlib.Core.Path.{subst}
use mathlib.Core.List.{Perm}
use lmkd_linux.Prelude.{
  ℕ, zero, suc, ◌≤◌, ◌-◌, ◌≡◌, ◌≢◌, ◌⊎◌, refl, inl, inr, String, Bool, true, false, Option, none,
  some, List, [], ◌∷◌, ◌++◌, All, keep, take, drop, All-drop, take-append-drop, All-map, length,
  length-take, not, ◌&&◌, ◌||◌, ◌==◌, ltb, arith, if◌then◌else◌,
}
use lmkd_linux.Prelude.Sorting.{Sorted, sort-Sorted, sort-perm}
use lmkd_linux.Types.{Pid, percent_of, bytes}
use lmkd_linux.Process.{Process}
use lmkd_linux.Psi.{PressureLevel, elevated, rank, below}
use lmkd_linux.Config.{CompiledConfig}
use lmkd_linux.Reclaim.{Cgroups, WriteLog, IsAllowed, try_reclaim_cgroup, try_reclaim_cgroup_cases}
use lmkd_linux.Reclaim.Early.{
  EarlyState, is_target, larger_first, targets, reclaim_half, reclaim_each, is_elevated,
  check_early_process_reclaim,
}
use lmkd_linux.Reclaim.Caches.{CacheDropResult, CacheState, is_empty, log_each, check_cache_drop}

-- `new` is `old` behind at most one write for each process, in their order.
pub data Added (cg : Cgroups) : List Process → WriteLog → WriteLog → Type 0 where
  none_left : (log : WriteLog) → Added cg [] log log
  passed :
      {p : Process} {ps : List Process} {old new : WriteLog}
      → Added cg ps old new
      → Added cg (p ∷ ps) old new
  halved :
      {p : Process} {ps : List Process} {old new : WriteLog} (path : String)
      → p.cgroup_path ≡ some path
      → IsAllowed cg (path, bytes (percent_of p.rss_kb 50))
      → Added cg ps ((path, bytes (percent_of p.rss_kb 50)) ∷ old) new
      → Added cg (p ∷ ps) old new

-- The two ways in which a turn may end.
abbrev Ended : Cgroups → Process → WriteLog → WriteLog → Type 0
Ended cg p old new =
    (new ≡ old)
    ⊎ ((path : String) × (p.cgroup_path ≡ some path)
        × (new ≡ (path, bytes (percent_of p.rss_kb 50)) ∷ old)
        × IsAllowed cg (path, bytes (percent_of p.rss_kb 50)))

reclaim_half_cases :
    (cg : Cgroups) (p : Process) (old : WriteLog) → Ended cg p old (reclaim_half cg p old)
unfolding reclaim_half
reclaim_half_cases cg p old = by_cgroup p.cgroup_path (λ path e. e)
  where
    size : ℕ
    size = bytes (percent_of p.rss_kb 50)

    by_cgroup :
        (o : Option String)
        → ((path : String) → o ≡ some path → p.cgroup_path ≡ some path)
        → Ended cg p old
            (elim o [ none ↦ old | some path ↦ (try_reclaim_cgroup cg path size old).1 ])
    by_cgroup none f = inl refl
    by_cgroup (some path) f = elim (try_reclaim_cgroup_cases cg path size old) [
      | inl same ↦ inl same
      | inr wrote ↦ inr (path, f path refl, wrote.0, wrote.1)
    ]

reclaim_each-Added :
    (cg : Cgroups) (ps : List Process) (old : WriteLog) → Added cg ps old (reclaim_each cg ps old)
unfolding reclaim_each
reclaim_each-Added cg [] old = none_left old
reclaim_each-Added cg (p ∷ ps) old =
    by_end (reclaim_half cg p old) (reclaim_half_cases cg p old)
      (reclaim_each-Added cg ps (reclaim_half cg p old))
  where
    by_end :
        (mid : WriteLog)
        → Ended cg p old mid
        → Added cg ps mid (reclaim_each cg ps mid)
        → Added cg (p ∷ ps) old (reclaim_each cg ps mid)
    by_end mid (inl e) rest = passed (subst (λ l. Added cg ps l (reclaim_each cg ps mid)) e rest)
    by_end mid (inr e) rest =
        halved e.0 e.1 e.3 (subst (λ l. Added cg ps l (reclaim_each cg ps mid)) e.2 rest)

Sorted-split {ℓ} :
    {A : Type ℓ} (le : A → A → Bool) (n : ℕ) (xs : List A)
    → Sorted le xs
    → All (λ c. All (λ r. le c r ≡ true) (drop n xs)) (take n xs)
Sorted-split le zero xs h = tt
Sorted-split le (suc n) [] h = tt
Sorted-split le (suc n) (x ∷ xs) h =
    (All-drop (λ y. le x y ≡ true) n xs h.0, Sorted-split le n xs h.1)

is_elevated-eq : (level : PressureLevel) → not (is_elevated level) ≡ false → level ≡ elevated
unfolding is_elevated
is_elevated-eq level h = ground arith

module _ (cfg : CompiledConfig) (active_pid : Option Pid) (procs : List Process) where
  abbrev ranked : List Process
  ranked = targets cfg active_pid procs

  ranked-Sorted : Sorted larger_first ranked
  unfolding targets
  ranked-Sorted =
      sort-Sorted larger_first (λ a b h. ground arith) (λ a b c h k. ground arith)
        (keep (is_target cfg active_pid) procs)

  split-perm : Perm (take 3 ranked ++ drop 3 ranked) (keep (is_target cfg active_pid) procs)
  unfolding targets
  split-perm =
      rw (take-append-drop 3 ranked)
        (sort-perm larger_first (keep (is_target cfg active_pid) procs))

  split-larger : All (λ c. All (λ r. r.rss_kb ≤ c.rss_kb) (drop 3 ranked)) (take 3 ranked)
  split-larger =
      All-map (λ c. All (λ r. larger_first c r ≡ true) (drop 3 ranked))
        (λ c. All (λ r. r.rss_kb ≤ c.rss_kb) (drop 3 ranked)) (take 3 ranked)
        (λ c.
          All-map (λ r. larger_first c r ≡ true) (λ r. r.rss_kb ≤ c.rss_kb) (drop 3 ranked)
            (λ r h. ground arith))
        (Sorted-split larger_first 3 ranked ranked-Sorted)

  -- A check does nothing, or the pressure is elevated and the last check that did something was 30
  -- seconds ago or more: then at most three processes are chosen among the targets, no other target is
  -- larger than a chosen one, and each chosen process is passed over or gives half of its memory from
  -- a leaf cgroup that is not the root.
  pub check_early_process_reclaim_cases :
      (cg : Cgroups) (level : PressureLevel) (now : ℕ) (s : EarlyState)
      → let after = check_early_process_reclaim cg level procs active_pid now cfg s in
        (after ≡ s)
        ⊎ ((chosen others : List Process) × (level ≡ elevated)
            × ((s.last_early_reclaim ≡ 0) ⊎ (30 ≤ now - s.last_early_reclaim))
            × (after.last_early_reclaim ≡ now)
            × Perm (chosen ++ others) (keep (is_target cfg active_pid) procs)
            × (length chosen ≤ 3)
            × All (λ c. All (λ r. r.rss_kb ≤ c.rss_kb) others) chosen
            × Added cg chosen s.writes after.writes)
  unfolding check_early_process_reclaim
  check_early_process_reclaim_cases cg level now s =
      by_tests (not (is_elevated level))
        (not (s.last_early_reclaim == 0) && ltb (now - s.last_early_reclaim) 30)
        (is_elevated-eq level) (λ h. ground arith)
    where
      Cooled : Type 0
      Cooled = (s.last_early_reclaim ≡ 0) ⊎ (30 ≤ now - s.last_early_reclaim)

      fired : EarlyState
      fired = record { last_early_reclaim = now; writes = reclaim_each cg (take 3 ranked) s.writes }

      Fires : EarlyState → Type 0
      Fires after =
          (chosen others : List Process) × (level ≡ elevated)
          × Cooled
          × (after.last_early_reclaim ≡ now)
          × Perm (chosen ++ others) (keep (is_target cfg active_pid) procs)
          × (length chosen ≤ 3)
          × All (λ c. All (λ r. r.rss_kb ≤ c.rss_kb) others) chosen
          × Added cg chosen s.writes after.writes

      fires : level ≡ elevated → Cooled → Fires fired
      fires up cool = (
        take 3 ranked,
        drop 3 ranked,
        up,
        cool,
        refl,
        split-perm,
        omega (arith, length-take 3 ranked),
        split-larger,
        reclaim_each-Added cg (take 3 ranked) s.writes,
      )

      by_tests :
          (idle cold : Bool)
          → (idle ≡ false → level ≡ elevated)
          → (cold ≡ false → Cooled)
          → let after : EarlyState = if idle then s else if cold then s else fired in
            (after ≡ s) ⊎ Fires after
      by_tests true cold f g = inl refl
      by_tests false true f g = inl refl
      by_tests false false f g = inr (fires (f refl) (g refl))

-- No two walks are closer than the cooldown, whatever starts them.
abbrev pub Spaced : CompiledConfig → List (ℕ × List CacheDropResult) → Type 0
Spaced cfg [] = Unit
Spaced cfg (w ∷ []) = Unit
Spaced cfg (w ∷ v ∷ ws) =
    ((v.0 ≡ 0) ⊎ (cfg.cache_drop_cooldown_secs ≤ w.0 - v.0)) × Spaced cfg (v ∷ ws)

-- The time of the newest walk, and 0 before the first.
abbrev pub newest : List (ℕ × List CacheDropResult) → ℕ
newest [] = 0
newest (w ∷ ws) = w.0

abbrev pub IsRecorded : CompiledConfig → CacheState → Type 0
IsRecorded cfg s = (s.last_cache_drop ≡ newest s.walks) × Spaced cfg s.walks

Spaced-cons :
    (cfg : CompiledConfig) (now : ℕ) (rs : List CacheDropResult)
    (ws : List (ℕ × List CacheDropResult))
    → (newest ws ≡ 0) ⊎ (cfg.cache_drop_cooldown_secs ≤ now - newest ws)
    → Spaced cfg ws
    → Spaced cfg ((now, rs) ∷ ws)
Spaced-cons cfg now rs [] c h = tt
Spaced-cons cfg now rs (w ∷ ws) c h = (c, h)

is_empty-ne {ℓ} : {A : Type ℓ} (xs : List A) → is_empty xs ≡ false → xs ≢ []
is_empty-ne [] h = cc
is_empty-ne (x ∷ xs) h = λ e. cc

is_empty-nil {ℓ} : {A : Type ℓ} (xs : List A) → is_empty xs ≡ true → xs ≡ []
is_empty-nil [] h = refl
is_empty-nil (x ∷ xs) h = cc

abbrev pub Due : PressureLevel → ℕ → CompiledConfig → CacheState → Type 0
Due level now cfg s =
    (cfg.cache_drop_enabled ≡ true)
    × (cfg.cache_drop_paths ≢ [])
    × (rank cfg.cache_drop_trigger ≤ rank level)
    × ((s.last_cache_drop ≡ 0) ⊎ (cfg.cache_drop_cooldown_secs ≤ now - s.last_cache_drop))

-- The walks keep the cooldown. One starts when the drop is enabled with a path, the level has reached
-- the trigger and the cooldown is over, and otherwise nothing changes.
pub check_cache_drop-IsRecorded :
    (drop_caches : List String → List CacheDropResult) (level : PressureLevel) (now : ℕ)
    (cfg : CompiledConfig) (s : CacheState)
    → IsRecorded cfg s
    → let after = check_cache_drop drop_caches level now cfg s in
      IsRecorded cfg after
      × (Due level now cfg s → after.walks ≡ (now, drop_caches cfg.cache_drop_paths) ∷ s.walks)
      × ((Due level now cfg s → ⊥) → after ≡ s)
unfolding check_cache_drop
check_cache_drop-IsRecorded drop_caches level now cfg s h =
    by_tests (not cfg.cache_drop_enabled || is_empty cfg.cache_drop_paths)
      (below level cfg.cache_drop_trigger)
      (not (s.last_cache_drop == 0) && ltb (now - s.last_cache_drop) cfg.cache_drop_cooldown_secs)
      (λ e f g.
        (ground arith, is_empty-ne cfg.cache_drop_paths (ground arith), ground arith, ground arith))
      (λ d e. d.1 (is_empty-nil cfg.cache_drop_paths (ground (arith, d.0)))) (λ d e. ground arith)
      (λ d e. ground arith)
  where
    results : List CacheDropResult
    results = drop_caches cfg.cache_drop_paths

    fired : CacheState
    fired = record {
      last_cache_drop = now;
      walks = (now, results) ∷ s.walks;
      logged = log_each results s.logged;
    }

    by_tests :
        (off low cold : Bool)
        → (off ≡ false → low ≡ false → cold ≡ false → Due level now cfg s)
        → (Due level now cfg s → off ≡ true → ⊥)
        → (Due level now cfg s → low ≡ true → ⊥)
        → (Due level now cfg s → cold ≡ true → ⊥)
        → let after : CacheState =
            if off then s else if low then s else if cold then s else fired in
          IsRecorded cfg after
          × (Due level now cfg s → after.walks ≡ (now, results) ∷ s.walks)
          × ((Due level now cfg s → ⊥) → after ≡ s)
    by_tests true low cold f a b c = (h, (λ d. absurd (a d refl)), λ d. refl)
    by_tests false true cold f a b c = (h, (λ d. absurd (b d refl)), λ d. refl)
    by_tests false false true f a b c = (h, (λ d. absurd (c d refl)), λ d. refl)
    by_tests false false false f a b c = (
      (
        refl,
        Spaced-cons cfg now results s.walks
            (subst (λ t. (t ≡ 0) ⊎ (cfg.cache_drop_cooldown_secs ≤ now - t)) h.0
              (f refl refl refl).3)
            h.1,
      ),
      (λ d. refl),
      λ d. absurd (d (f refl refl refl)),
    )
