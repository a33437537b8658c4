-- ===== src/Recovery/Release.antt =====
-- unfreeze_pass of mgd/src/recovery.rs: who is released, how many, and who is left.
use lmkd_linux.Prelude.{
  ℕ, ◌+◌, ◌-◌, ◌≤◌, ◌<◌, ◌≡◌, ◌≢◌, refl, ◌⊎◌, inl, inr, Bool, true, false, none, List, [], ◌∷◌, All,
  any, length, nat_eq, nat_beq, ==_iff, if◌then◌else◌, arith,
}
use lmkd_linux.Prelude.Maps.{lookup, lookup-remove}
use lmkd_linux.Types.{Pid}
use lmkd_linux.Meminfo.{MemInfo}
use lmkd_linux.Registry.Frozen
use lmkd_linux.Registry.Frozen.{FrozenRegistry, FrozenEntry}
use lmkd_linux.Execute.{success}
use lmkd_linux.Recovery.{
  HealthBaseline, System, resume, safe_to_restore, unfreeze_loop, unfreeze_pass,
}

abbrev pub has : Pid → List Pid → Bool
has q ps = any (λ p. nat_beq p q) ps

-- No pid twice, as in the keys of a HashMap.
abbrev pub Distinct : List Pid → Type 0
Distinct [] = Unit
Distinct (p ∷ ps) = All (λ q. q ≢ p) ps × Distinct ps

delete-lookup :
    (pid q : Pid) (r : FrozenRegistry)
    → lookup q (Frozen.delete pid r).frozen ≡ (if nat_beq pid q then none else lookup q r.frozen)
unfolding Frozen.delete
delete-lookup pid q r = ground (arith, ==_iff pid q, lookup-remove pid q r.frozen)

module _ (sys : System) (safe : Bool) (now : ℕ) where
  -- Frozen for 15 seconds, and the release of the process that was frozen works.
  abbrev pub Ready : FrozenRegistry → Pid → Type 0
  Ready reg q =
      (15 ≤ now - Frozen.frozen_at q reg) × (resume sys q (Frozen.start_time q reg) ≡ success)

  Ready-delete :
      (pid q : Pid) (reg : FrozenRegistry)
      → q ≢ pid
      → (Frozen.frozen_at q (Frozen.delete pid reg) ≡ Frozen.frozen_at q reg)
        × (Frozen.start_time q (Frozen.delete pid reg) ≡ Frozen.start_time q reg)
  unfolding Frozen.frozen_at Frozen.start_time
  Ready-delete pid q reg h =
      (ground (arith, delete-lookup pid q reg), ground (arith, delete-lookup pid q reg))

  abbrev loop : ℕ → List Pid → FrozenRegistry → FrozenRegistry × List Pid
  loop n pids reg = unfreeze_loop sys safe now n pids reg

  loop-cases :
      (n : ℕ) (pid : Pid) (pids : List Pid) (reg : FrozenRegistry)
      → (loop n (pid ∷ pids) reg ≡ (reg, [])) × ((4 ≤ n) ⊎ (safe ≡ false))
        ⊎ (loop n (pid ∷ pids) reg ≡ loop n pids reg) × (Ready reg pid → ⊥)
        ⊎ (loop n (pid ∷ pids) reg ≡ (
          (loop (n + 1) pids (Frozen.delete pid reg)).0,
          pid ∷ (loop (n + 1) pids (Frozen.delete pid reg)).1,
        ))
          × Ready reg pid
          × (n < 4)
          × (safe ≡ true)
  unfolding unfreeze_loop
  loop-cases n pid pids reg = ground arith

  pub record Pass (n : ℕ) (pids : List Pid) (reg : FrozenRegistry) (out : FrozenRegistry × List Pid)
      : Type 0 where
    pub ready : All (Ready reg) out.1
    pub bound : n ≤ 4 → n + length out.1 ≤ 4
    pub held : safe ≡ false → out.1 ≡ []
    pub after :
        (q : Pid) → lookup q out.0.frozen ≡ (if has q out.1 then none else lookup q reg.frozen)
    pub complete :
        safe ≡ true → n + length out.1 < 4 → All (λ q. Ready reg q → has q out.1 ≡ true) pids

  stop-Pass :
      (n : ℕ) (pids : List Pid) (reg : FrozenRegistry)
      → (4 ≤ n) ⊎ (safe ≡ false)
      → Pass n pids reg (reg, [])
  stop-Pass n pids reg h = record {
    ready = tt;
    bound = λ k. omega arith;
    held = λ e. refl;
    after = λ q. refl;
    complete = λ s k. absurd (ground arith);
  }

  skip-Pass :
      (n : ℕ) (pid : Pid) (pids : List Pid) (reg : FrozenRegistry) (out : FrozenRegistry × List Pid)
      → (Ready reg pid → ⊥)
      → Pass n pids reg out
      → Pass n (pid ∷ pids) reg out
  skip-Pass n pid pids reg out h p = record {
    ready = p.ready;
    bound = p.bound;
    held = p.held;
    after = p.after;
    complete = λ s k. ((λ r. absurd (h r)), p.complete s k);
  }

  Ready-before :
      (pid q : Pid) (reg : FrozenRegistry) → q ≢ pid → Ready (Frozen.delete pid reg) q → Ready reg q
  Ready-before pid q reg h r =
      let e = Ready-delete pid q reg h in let s = rw e.1 at r.1 in (omega (arith, r.0, e.0), s)

  Ready-after :
      (pid q : Pid) (reg : FrozenRegistry) → q ≢ pid → Ready reg q → Ready (Frozen.delete pid reg) q
  Ready-after pid q reg h r =
      let e = Ready-delete pid q reg h in (omega (arith, r.0, e.0), rw e.1 r.1)

  release-Pass :
      (n : ℕ) (pid : Pid) (pids : List Pid) (reg : FrozenRegistry) (out : FrozenRegistry × List Pid)
      → All (λ q. q ≢ pid) pids
      → All (λ q. q ≢ pid) out.1
      → Ready reg pid
      → n < 4
      → safe ≡ true
      → Pass (n + 1) pids (Frozen.delete pid reg) out
      → Pass n (pid ∷ pids) reg (out.0, pid ∷ out.1)
  release-Pass n pid pids reg out ds os r k s p = record {
    ready = (r, both out.1 os p.ready);
    bound = λ _. omega (arith, p.bound (omega arith));
    held = λ e. absurd (ground arith);
    after = λ q. ground (arith, p.after q, delete-lookup pid q reg);
    complete = λ e l. ((λ _. ground arith), later pids ds (p.complete e (omega (arith, l))));
  }
    where
      both :
          (qs : List Pid)
          → All (λ q. q ≢ pid) qs
          → All (Ready (Frozen.delete pid reg)) qs
          → All (Ready reg) qs
      both [] h g = tt
      both (q ∷ qs) h g = (Ready-before pid q reg h.0 g.0, both qs h.1 g.1)

      later :
          (qs : List Pid)
          → All (λ q. q ≢ pid) qs
          → All (λ q. Ready (Frozen.delete pid reg) q → has q out.1 ≡ true) qs
          → All (λ q. Ready reg q → has q (pid ∷ out.1) ≡ true) qs
      later [] h g = tt
      later (q ∷ qs) h g =
          ((λ a. ground (arith, g.0 (Ready-after pid q reg h.0 a))), later qs h.1 g.1)

  released_from :
      (P : Pid → Type 0) (n : ℕ) (pids : List Pid) (reg : FrozenRegistry)
      → All P pids
      → All P (loop n pids reg).1
  unfolding unfreeze_loop
  released_from P n [] reg h = tt
  released_from P n (pid ∷ pids) reg h = elim (loop-cases n pid pids reg) [
    | inl (e, _) ↦ rw e tt
    | inr (inl (e, _)) ↦ rw e (released_from P n pids reg h.1)
    | inr (inr (e, _, _, _)) ↦ rw e (h.0, released_from P (n + 1) pids (Frozen.delete pid reg) h.1)
  ]

  loop-Pass :
      (n : ℕ) (pids : List Pid) (reg : FrozenRegistry)
      → Distinct pids
      → Pass n pids reg (loop n pids reg)
  unfolding unfreeze_loop
  loop-Pass n [] reg d = record {
    ready = tt;
    bound = λ k. omega arith;
    held = λ e. refl;
    after = λ q. refl;
    complete = λ s k. tt;
  }
  loop-Pass n (pid ∷ pids) reg d = elim (loop-cases n pid pids reg) [
    | inl (e, h) ↦ rw e (stop-Pass n (pid ∷ pids) reg h)
    | inr (inl (e, h)) ↦ rw e (skip-Pass n pid pids reg _ h (loop-Pass n pids reg d.1))
    | inr (inr (e, r, k, s)) ↦ rw e (
        release-Pass n pid pids reg _ d.0
          (released_from (λ q. q ≢ pid) (n + 1) pids (Frozen.delete pid reg) d.0) r k s
          (loop-Pass (n + 1) pids (Frozen.delete pid reg) d.1))
  ]

-- A release pass over a registry with no pid twice: it releases only processes that were frozen for at
-- least 15 seconds and whose release works, at most four of them, and none while memory is tight;
-- exactly the released ones leave the registry; and if memory is not tight and fewer than four were
-- released, every process that is ready was.
pub unfreeze_pass-Pass :
    (sys : System) (b : HealthBaseline) (m : MemInfo) (now : ℕ) (reg : FrozenRegistry)
    → Distinct (Frozen.frozen_pids reg)
    → Pass sys
        (safe_to_restore b m.available_kb m.total_kb 0)
        now
        0
        (Frozen.frozen_pids reg)
        reg
        (unfreeze_pass sys b m now reg)
unfolding unfreeze_pass
unfreeze_pass-Pass sys b m now reg d =
    loop-Pass sys (safe_to_restore b m.available_kb m.total_kb 0) now 0 (Frozen.frozen_pids reg) reg
      d
