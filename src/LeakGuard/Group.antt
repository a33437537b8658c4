-- ===== src/LeakGuard/Group.antt =====
-- mgd/src/leak_guard.rs: one group, when it fires, whom it reaps, and its cooldown.
use mathlib.Core.List.{Perm}
use lmkd_linux.Prelude.{
  ℕ, zero, suc, ◌+◌, ◌≤◌, ◌<◌, ◌≡◌, ◌≢◌, ◌↔◌, ◌⊎◌, refl, inl, inr, String, true, false, some, List,
  [], ◌∷◌, ◌++◌, map, All, All-map, All-drop, drop, take, length, min, length-take,
  take-append-drop, Bool-cases, not, ◌&&◌, arith,
}
use lmkd_linux.Prelude.Sorting.{sort, Sorted, sort-perm, sort-Sorted}
use lmkd_linux.Types.{Kb, kb_sum}
use lmkd_linux.Time.{Instant, from_secs}
use lmkd_linux.Process.{Process}
use lmkd_linux.LeakGuard.{
  LeakDecision, CountSample, GroupState, Params, never_shrunk, shrinks_from, grown_enough,
  is_leaking, newer, stale, in_cooldown, group_step,
}

-- Counts that never fall along the samples.
abbrev pub Grows : List CountSample → Type 0
Grows [] = Unit
Grows (s ∷ ss) = All (λ t. s.count ≤ t.count) ss × Grows ss

shrinks_from-Grows :
    (s : CountSample) (ss : List CountSample) → (shrinks_from s.count ss ≡ false) ↔ Grows (s ∷ ss)
unfolding shrinks_from
shrinks_from-Grows s [] = ((λ _. (tt, tt)), λ _. refl)
shrinks_from-Grows s (t ∷ ts) =
    let ih = shrinks_from-Grows t ts in
    (
      (λ h.
          let g = ih.0 (ground arith) in
          ((ground arith, All-map _ _ ts (λ u q. le_trans_of s t u (ground arith) q) g.0), g)),
      λ h. ground (arith, ih.1 h.1, h.0.0),
    )
  where
    le_trans_of : (a b c : CountSample) → a.count ≤ b.count → b.count ≤ c.count → a.count ≤ c.count
    le_trans_of a b c p q = omega arith

-- The scan for a shrink between neighbours decides that no count is below an earlier one.
pub never_shrunk-Grows : (ss : List CountSample) → (never_shrunk ss ≡ true) ↔ Grows ss
unfolding never_shrunk
never_shrunk-Grows [] = ((λ _. tt), λ _. refl)
never_shrunk-Grows (s ∷ ss) =
    let h = shrinks_from-Grows s ss in ((λ k. h.0 (ground arith)), λ k. ground (arith, h.1 k))

newer_total : (a b : Process) → newer a b ≡ false → newer b a ≡ true
unfolding newer
newer_total a b h = ground arith

newer_trans : (a b c : Process) → newer a b ≡ true → newer b c ≡ true → newer a c ≡ true
unfolding newer
newer_trans a b c h k = ground arith

-- In a sorted list what is taken from the front is newer than the rest.
Split : ℕ → List Process → Type 0
Split n xs = All (λ r. All (λ k. r.pid ≤ k.pid) (take n xs)) (drop n xs)

All-cons_le :
    (x : Process) (ks rs : List Process)
    → All (λ r. r.pid ≤ x.pid) rs
    → All (λ r. All (λ k. r.pid ≤ k.pid) ks) rs
    → All (λ r. All (λ k. r.pid ≤ k.pid) (x ∷ ks)) rs
All-cons_le x ks [] h k = tt
All-cons_le x ks (r ∷ rs) h k = ((h.0, k.0), All-cons_le x ks rs h.1 k.1)

All-trivial :
    (xs : List Process) → All (λ (r : Process). All (λ (k : Process). r.pid ≤ k.pid) []) xs
All-trivial [] = tt
All-trivial (x ∷ xs) = (tt, All-trivial xs)

Sorted-Split : (n : ℕ) (xs : List Process) → Sorted newer xs → Split n xs
unfolding Split newer
Sorted-Split zero xs h = All-trivial xs
Sorted-Split (suc n) [] h = tt
Sorted-Split (suc n) (x ∷ xs) h =
    All-cons_le x (take n xs) (drop n xs)
      (All-drop _ n xs (All-map _ _ xs (λ r q. ground arith) h.0)) (Sorted-Split n xs h.1)

-- Who lives and who goes in a group that fires.
pub record Reaped (keep_newest : ℕ) (display : String) (members : List Process)
    (ds : List LeakDecision) : Type 0 where
  pub kept : List Process
  pub reaped : List Process
  pub all : Perm (kept ++ reaped) members
  pub decisions : ds ≡ map (stale display) reaped
  pub enough : length kept ≡ min keep_newest (length (kept ++ reaped))
  pub older : All (λ r. All (λ k. r.pid ≤ k.pid) kept) reaped

reap-Reaped :
    (n : ℕ) (display : String) (members : List Process)
    → Reaped n display members (map (stale display) (drop n (sort newer members)))
unfolding Split
reap-Reaped n display members =
    let xs : List Process = sort newer members in
    record {
      kept = take n xs;
      reaped = drop n xs;
      all = rw (take-append-drop n xs) (sort-perm newer members);
      decisions = refl;
      enough = rw (take-append-drop n xs) (length-take n xs);
      older = Sorted-Split n xs (sort-Sorted newer newer_total newer_trans members);
    }

is_leaking-facts :
    (p : Params) (ss : List CountSample) (rss : Kb)
    → is_leaking p ss rss ≡ true
    → (p.min_samples ≤ length ss)
      × Grows ss
      × (grown_enough p.growth_over_window ss ≡ true)
      × (p.min_group_rss ≤ rss)
unfolding is_leaking
is_leaking-facts p ss rss h =
    (ground arith, (never_shrunk-Grows ss).0 (ground arith), ground arith, ground arith)

cooling :
    (p : Params) (later : Instant) (display : String) (members : List Process) (g : GroupState)
    (t : Instant)
    → g.cooldown_until ≡ some t
    → later < t
    → (group_step p later display members g).1 ≡ []
unfolding group_step in_cooldown
cooling p later display members g t e h = ground arith

module _ (p : Params) (now : Instant) (display : String) (members : List Process)
    (g : GroupState) where
  abbrev after : GroupState × List LeakDecision
  after = group_step p now display members g

  -- A step reaps nobody, or it reaps all members but the `keep_newest` ones of the highest pids, and
  -- then the group is found leaking, no cooldown was running, and one starts now.
  pub group_step-Reaped :
      (after.1 ≡ [])
      ⊎ (Reaped p.keep_newest display members after.1
          × (after.0.last_leaking ≡ true)
          × (in_cooldown now g.cooldown_until ≡ false)
          × (after.0.cooldown_until ≡ some (now + from_secs p.cooldown_sec)))
  unfolding group_step
  group_step-Reaped =
      elim (Bool-cases (after.0.last_leaking && not (in_cooldown now g.cooldown_until))) [
        | inl e ↦
            inr (rw e (reap-Reaped p.keep_newest display members), ground arith, ground arith, rw e)
        | inr e ↦ inl (rw e)
      ]

  -- A group that fires has at least `min_samples` samples in its window, of counts that never fall
  -- and end at least `growth_over_window` above the first, and at least `min_group_rss` in all.
  pub group_step_fires :
      after.1 ≢ []
      → (p.min_samples ≤ length after.0.samples)
        × Grows after.0.samples
        × (grown_enough p.growth_over_window after.0.samples ≡ true)
        × (p.min_group_rss ≤ kb_sum (map (λ m. m.rss_kb) members))
  unfolding group_step
  group_step_fires h = elim group_step-Reaped [
    | inl e ↦ absurd (h e)
    | inr r ↦ is_leaking-facts p after.0.samples (kb_sum (map (λ m. m.rss_kb) members)) r.1
  ]

  -- After a group has fired it reaps nobody until `cooldown_sec` seconds have gone by.
  pub group_step_cooldown :
      (later : Instant) (display' : String) (members' : List Process)
      → after.1 ≢ []
      → later < now + from_secs p.cooldown_sec
      → (group_step p later display' members' after.0).1 ≡ []
  group_step_cooldown later display' members' h k = elim group_step-Reaped [
    | inl e ↦ absurd (h e)
    | inr r ↦ cooling p later display' members' after.0 (now + from_secs p.cooldown_sec) r.3 k
  ]
