-- ===== src/ZramHelper/Restored.antt =====
-- mgd-zram/src/reclaim.rs: a device that is switched off is switched on again.
use lmkd_linux.Prelude.{
  ℕ, ◌≤◌, ◌≡◌, refl, zero, suc, Bool, true, false, not, ◌&&◌, ◌||◌, List, [], ◌∷◌, any, ◌==◌,
  unwrap_or, arith, if◌then◌else◌,
}
use lmkd_linux.Prelude.Text.{Text, same}
use lmkd_linux.ZramHelper.{
  ZramSwap, SwapOff, done, eperm, busy, Call, block, restore, off, on, Kernel, swapon_flags, run,
  run_checked, parse_zram_swaps, headroom_safe, HeadroomCheck, safe, unsafe, unknown, Outcome,
  reclaimed, err_eperm, err_other, try_swapon, swap_back, after_off, reclaim_one, Errors, count,
  reclaim_each, exit_code, reclaim_all, main,
}

-- Whether the device is off after the calls.
unfoldable pub stays_off : Text → List Call → Bool
stays_off q [] = false
stays_off q (block ∷ cs) = stays_off q cs
stays_off q (restore ∷ cs) = stays_off q cs
stays_off q (off p done ∷ cs) = same p q || stays_off q cs
stays_off q (off p eperm ∷ cs) = stays_off q cs
stays_off q (off p busy ∷ cs) = stays_off q cs
stays_off q (on p flags true ∷ cs) = not (same p q) && stays_off q cs
stays_off q (on p flags false ∷ cs) = stays_off q cs

-- The calls that put back what `after` is the end of.
abbrev on_again : Bool → Text → Text → Bool → Bool
on_again success p q before = if success then not (same p q) && before else before

module _ (k : Kernel) where
  try_swapon-stays_off :
      (p q : Text) (flags n : ℕ) (calls : List Call)
      → let (tried, success) = try_swapon k p flags n calls in
        stays_off q tried ≡ on_again success p q (stays_off q calls)
  unfolding try_swapon stays_off
  try_swapon-stays_off p q flags zero calls = refl
  try_swapon-stays_off p q flags (suc n) calls =
      by_answer (k.swapon calls p flags)
        (try_swapon-stays_off p q flags n (on p flags false ∷ calls))
    where
      again : List Call × Bool
      again = try_swapon k p flags n (on p flags false ∷ calls)

      by_answer :
          (r : Bool)
          → stays_off q again.0 ≡ on_again again.1 p q (stays_off q calls)
          → let (tried, success) = elim r as (λ _. List Call × Bool) [
            | true ↦ (on p flags true ∷ calls, true)
            | false ↦ again
          ] in
            stays_off q tried ≡ on_again success p q (stays_off q calls)
      by_answer true ih = refl
      by_answer false ih = ih

  after_off-stays_off :
      (dev : ZramSwap) (answer : SwapOff) (q : Text) (calls : List Call)
      → stays_off q calls ≡ false
      → (after_off k dev answer calls).1 ≡ reclaimed
      → stays_off q (after_off k dev answer calls).0 ≡ false
  unfolding after_off swap_back stays_off
  after_off-stays_off dev done q calls h r = ground (
    arith,
    try_swapon-stays_off dev.path q (swapon_flags dev.priority) 4 (off dev.path done ∷ calls),
  )
  after_off-stays_off dev eperm q calls h r = h
  after_off-stays_off dev busy q calls h r = h

  -- A device that is reclaimed is not off afterwards unless it was before.
  reclaim_one-stays_off :
      (dev : ZramSwap) (q : Text) (calls : List Call)
      → stays_off q calls ≡ false
      → (reclaim_one k dev calls).1 ≡ reclaimed
      → stays_off q (reclaim_one k dev calls).0 ≡ false
  unfolding reclaim_one stays_off
  reclaim_one-stays_off dev q calls h r = by_path (any (λ c. c == 0) dev.path) r
    where
      answered : List Call × Outcome
      answered = after_off k dev (k.swapoff (block ∷ calls) dev.path) (block ∷ calls)

      by_path :
          (b : Bool)
          → (if b then (calls, err_other) else answered).1 ≡ reclaimed
          → stays_off q (if b then (calls, err_other) else answered).0 ≡ false
      by_path true r = h
      by_path false r =
          after_off-stays_off dev (k.swapoff (block ∷ calls) dev.path) q (block ∷ calls) h r

  reclaim_each-le :
      (devs : List ZramSwap) (calls : List Call) (e : Errors)
      → let final = (reclaim_each k devs calls e).1 in
        (e.transient ≤ final.transient) × (e.eperm ≤ final.eperm)
  unfolding reclaim_each count
  reclaim_each-le [] calls e = (omega arith, omega arith)
  reclaim_each-le (dev ∷ devs) calls e =
      by_outcome turn.1 (reclaim_each-le devs turn.0 (count turn.1 e))
    where
      turn : List Call × Outcome
      turn = reclaim_one k dev calls

      by_outcome :
          (o : Outcome)
          → (let final = (reclaim_each k devs turn.0 (count o e)).1 in
              ((count o e).transient ≤ final.transient) × ((count o e).eperm ≤ final.eperm))
          → let final = (reclaim_each k devs turn.0 (count o e)).1 in
            (e.transient ≤ final.transient) × (e.eperm ≤ final.eperm)
      by_outcome reclaimed ih = ih
      by_outcome err_eperm ih = (ih.0, omega (arith, ih.1))
      by_outcome err_other ih = (omega (arith, ih.0), ih.1)

  count-reclaimed :
      (o : Outcome) (e final : Errors)
      → (count o e).transient ≤ final.transient
      → (count o e).eperm ≤ final.eperm
      → exit_code final ≡ 0
      → o ≡ reclaimed
  unfolding count exit_code
  count-reclaimed reclaimed e final t p h = refl
  count-reclaimed err_eperm e final t p h = ground (arith, t, p, h)
  count-reclaimed err_other e final t p h = ground (arith, t, p, h)

  reclaim_each-stays_off :
      (devs : List ZramSwap) (q : Text) (calls : List Call) (e : Errors)
      → stays_off q calls ≡ false
      → exit_code (reclaim_each k devs calls e).1 ≡ 0
      → stays_off q (reclaim_each k devs calls e).0 ≡ false
  unfolding reclaim_each
  reclaim_each-stays_off [] q calls e h x = h
  reclaim_each-stays_off (dev ∷ devs) q calls e h x =
      let turn = reclaim_one k dev calls in
      let le = reclaim_each-le devs turn.0 (count turn.1 e) in
      let good =
        count-reclaimed turn.1 e (reclaim_each k devs turn.0 (count turn.1 e)).1 le.0 le.1 x in
      reclaim_each-stays_off devs q turn.0 (count turn.1 e)
        (reclaim_one-stays_off dev q calls h good) x

run_checked-restores :
    (k : Kernel) (devices : List ZramSwap) (c : HeadroomCheck) (q : Text)
    → (run_checked k devices c).1 ≡ 0
    → stays_off q (run_checked k devices c).0 ≡ false
unfolding run_checked reclaim_all stays_off
run_checked-restores k devices safe q h =
    reclaim_each-stays_off k devices q [] (record { transient = 0; eperm = 0 }) refl h
run_checked-restores k devices unsafe q h = refl
run_checked-restores k devices unknown q h = refl

run-restores :
    (k : Kernel) (devices : List ZramSwap) (q : Text)
    → (run k devices).1 ≡ 0
    → stays_off q (run k devices).0 ≡ false
unfolding run stays_off
run-restores k [] q h = refl
run-restores k (dev ∷ devs) q h =
    run_checked-restores k (dev ∷ devs) (headroom_safe k (dev ∷ devs)) q h

-- When a run exits with 0, no device is left switched off.
pub main-restores : (k : Kernel) (q : Text) → (main k).1 ≡ 0 → stays_off q (main k).0 ≡ false
unfolding main
main-restores k q h = run-restores k (parse_zram_swaps (unwrap_or k.proc_swaps [])) q h
