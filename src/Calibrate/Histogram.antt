-- ===== src/Calibrate/Histogram.antt =====
-- mgd/src/engine/calibrate.rs: the percentiles of a histogram.
use lmkd_linux.Prelude.{
  ℕ, zero, suc, ◌+◌, ◌-◌, ◌*◌, ◌/◌, ◌≤◌, ◌<◌, ◌≡◌, ◌⊎◌, refl, inl, inr, false, some, List, [], ◌∷◌,
  length, take, leb, Bool-cases, arith,
}
use lmkd_linux.Types.{u64_max}
use lmkd_linux.Calibrate.{sum, sum_u64, scan, target_of, percentile}

-- Where a scan stops: `j` bins are passed over, and the next one reaches the target.
record Stops (target cum i : ℕ) (ws : List ℕ) (found : ℕ) : Type 0 where
  j : ℕ
  at : found ≡ i + 1 + j
  inside : j < length ws
  reached : target ≤ cum + sum (take (suc j) ws)
  first : (j ≡ 0) ⊎ (cum + sum (take j ws) < target)

scan-Stops :
    (target cum i : ℕ) (ws : List ℕ)
    → 0 < length ws
    → target ≤ cum + sum ws
    → Stops target cum i ws (scan target cum i ws)
unfolding scan
scan-Stops target cum i [] n h = absurd (omega arith)
scan-Stops target cum i (w ∷ []) n h = record {
  j = 0;
  at = ground arith;
  inside = omega arith;
  reached = omega arith;
  first = inl refl;
}
scan-Stops target cum i (w ∷ v ∷ vs) n h = elim (Bool-cases (leb target (cum + w))) [
  | inl e ↦ record {
    j = 0;
    at = ground arith;
    inside = omega arith;
    reached = ground arith;
    first = inl refl;
  }
  | inr e ↦
      let r = scan-Stops target (cum + w) (i + 1) (v ∷ vs) (omega arith) (omega arith) in
      record {
        j = suc r.j;
        at = ground (arith, r.at);
        inside = omega (arith, r.inside);
        reached = omega (arith, r.reached);
        first = inr (later r.j r.first e);
      }
]
  where
    later :
        (j : ℕ)
        → (j ≡ 0) ⊎ (cum + w + sum (take j (v ∷ vs)) < target)
        → leb target (cum + w) ≡ false
        → cum + sum (take (suc j) (w ∷ v ∷ vs)) < target
    later zero p e = ground arith
    later (suc j) p e = ground arith

percentile-scan :
    (hist : List ℕ) (pct : ℕ) {k : ℕ}
    → sum hist ≤ u64_max
    → percentile hist pct ≡ some k
    → (0 < sum hist) × (k ≡ scan (target_of (sum hist) pct) 0 0 hist)
unfolding percentile sum_u64
percentile-scan hist pct h e = (ground arith, ground arith)

target_le : (total pct : ℕ) → pct ≤ 100 → target_of total pct ≤ total
target_le total pct h = at_most (total * pct) (mul_le total pct h)
  where
    at_most : (p : ℕ) → p ≤ total * 100 → (p + 99) / 100 ≤ total
    at_most p h = omega arith

    mul_le : (t p : ℕ) → p ≤ 100 → t * p ≤ t * 100
    mul_le zero p h = omega arith
    mul_le (suc t) p h = grind (arith, mul_le t p h)

nonempty : (hist : List ℕ) → 0 < sum hist → 0 < length hist
nonempty [] h = omega arith
nonempty (x ∷ xs) h = omega arith

-- The percentile is the end of the least bin up to which the histogram holds `pct` percent of its
-- seconds, for a `pct` from 0 to 100 and a histogram whose sum a `u64` can hold: the first `k` bins
-- hold that share, and the first `k - 1` bins do not, unless `k` is 1.
pub percentile-least :
    (hist : List ℕ) (pct : ℕ) {k : ℕ}
    → pct ≤ 100
    → sum hist ≤ u64_max
    → percentile hist pct ≡ some k
    → (1 ≤ k)
      × (k ≤ length hist)
      × (sum hist * pct ≤ 100 * sum (take k hist))
      × ((k ≡ 1) ⊎ (100 * sum (take (k - 1) hist) < sum hist * pct))
percentile-least hist pct {k} h b e =
    let (some_secs, at_scan) = percentile-scan hist pct b e in
    let r =
      scan-Stops (target_of (sum hist) pct) 0 0 hist (nonempty hist some_secs)
        (omega (arith, target_le (sum hist) pct h)) in
    let at : k ≡ suc r.j = omega (arith, at_scan, r.at) in
    let before : k - 1 ≡ r.j = omega (arith, at) in
    (
      omega (arith, at),
      omega (arith, at, r.inside),
      rw at (held (sum hist * pct) _ (omega (arith, r.reached))),
      elim r.first [
        | inl z ↦ inl (omega (arith, at))
        | inr lt ↦ inr (rw before (short (sum hist * pct) _ (omega (arith, lt))))
      ],
    )
  where
    held : (p s : ℕ) → (p + 99) / 100 ≤ s → p ≤ 100 * s
    held p s q = omega arith

    short : (p s : ℕ) → s < (p + 99) / 100 → 100 * s < p
    short p s q = omega arith
