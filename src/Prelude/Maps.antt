-- ===== src/Prelude/Maps.antt =====
-- `HashMap` as an association list. Iteration goes in list order, where the source's is arbitrary.
use Prim.Native.Nat.{◌+◌, ◌≤◌}
use mathlib.Core.Path.{◌≡◌, refl, subst}
use mathlib.Core.Bool.{Bool}
use mathlib.Core.List.{List, [], ◌∷◌}
use mathlib.Core.Logic.{inl, inr}
use mathlib.Core.Option.{Option, none, some}
use native.Mathlib.Omega.{arith}
use lmkd_linux.Prelude.Tests.{if◌then◌else◌, is_some, Bool-cases}
use lmkd_linux.Prelude.Equality.{Eq}
use lmkd_linux.Prelude.Lists.{All, length}

module _ {ℓ κ} {K : Type ℓ} {V : Type κ} ⦃e : Eq K⦄ where
  unfoldable pub lookup : K → List (K × V) → Option V
  lookup k [] = none
  lookup k ((j, v) ∷ m) = if e.beq j k then some v else lookup k m

  unfoldable pub insert : K → V → List (K × V) → List (K × V)
  insert k v [] = (k, v) ∷ []
  insert k v ((j, w) ∷ m) = if e.beq j k then (k, v) ∷ m else (j, w) ∷ insert k v m

  unfoldable pub remove : K → List (K × V) → List (K × V)
  remove k [] = []
  remove k ((j, w) ∷ m) = if e.beq j k then remove k m else (j, w) ∷ remove k m

  abbrev pub contains_key : K → List (K × V) → Bool
  contains_key k m = is_some (lookup k m)

  -- `retain` with a test on the key.
  unfoldable pub retain_keys : (K → Bool) → List (K × V) → List (K × V)
  retain_keys p [] = []
  retain_keys p ((j, w) ∷ m) = if p j then (j, w) ∷ retain_keys p m else retain_keys p m

  pub lookup-insert :
      (k j : K) (v : V) (m : List (K × V))
      → lookup j (insert k v m) ≡ (if e.beq k j then some v else lookup j m)
  unfolding lookup insert
  lookup-insert k j v [] = refl
  lookup-insert k j v ((i, w) ∷ m) =
      ground (arith, e.beq_iff k j, e.beq_iff i k, e.beq_iff i j, lookup-insert k j v m)

  pub lookup-insert_self : (k : K) (v : V) (m : List (K × V)) → lookup k (insert k v m) ≡ some v
  lookup-insert_self k v m = ground (arith, lookup-insert k k v m, e.beq_iff k k)

  pub lookup-remove :
      (k j : K) (m : List (K × V))
      → lookup j (remove k m) ≡ (if e.beq k j then none else lookup j m)
  unfolding lookup remove
  lookup-remove k j [] = ground arith
  lookup-remove k j ((i, w) ∷ m) =
      ground (arith, e.beq_iff k j, e.beq_iff i k, e.beq_iff i j, lookup-remove k j m)

  pub lookup-retain_keys :
      (p : K → Bool) (j : K) (m : List (K × V))
      → lookup j (retain_keys p m) ≡ (if p j then lookup j m else none)
  unfolding lookup retain_keys
  lookup-retain_keys p j [] = ground arith
  lookup-retain_keys p j ((i, w) ∷ m) = ground (arith, e.beq_iff i j, lookup-retain_keys p j m)

  pub length-insert : (k : K) (v : V) (m : List (K × V)) → length (insert k v m) ≤ length m + 1
  unfolding insert
  length-insert k v [] = omega arith
  length-insert k v ((j, w) ∷ m) = ground (arith, length-insert k v m)

  -- What holds of all values goes on to hold.
  pub insert-All {ι} :
      (P : V → Type ι) (k : K) (v : V) (m : List (K × V))
      → P v
      → All (λ x. P x.1) m
      → All (λ x. P x.1) (insert k v m)
  unfolding insert
  insert-All P k v [] h hs = (h, tt)
  insert-All P k v ((j, w) ∷ m) h hs = ground (arith, insert-All P k v m h hs.1)

  pub lookup-All {ι} :
      (P : V → Type ι) (k : K) (m : List (K × V)) (v : V)
      → All (λ x. P x.1) m
      → lookup k m ≡ some v
      → P v
  unfolding lookup
  lookup-All P k [] v h q = cc
  lookup-All P k ((j, w) ∷ m) v h q = elim (Bool-cases (e.beq j k)) [
    | inl hit ↦ let same : w ≡ v = ground arith in subst P same h.0
    | inr miss ↦ let rest : lookup k m ≡ some v = ground arith in lookup-All P k m v h.1 rest
  ]
