-- ===== src/PsiPatch/Settings.antt =====
-- mgctl/src/calibrate.rs: the settings in a patched `[psi]` block.
use lmkd_linux.Prelude.{
  ◌≡◌, ◌⊎◌, inl, inr, refl, sym, ap, Bool, true, false, List, [], ◌∷◌, ◌++◌, All, arith,
}
use mathlib.Core.Path.{subst}
use mathlib.Core.List.{append-nil}
use lmkd_linux.Prelude.Text.{Text, trim}
use lmkd_linux.PsiPatch.{
  elevated_line, full_line, Kind, header, elevated, full, other, kind_of, missing, patch_lines,
}
use lmkd_linux.PsiPatch.Kept.{
  settings, elevated_line-kind, full_line-kind, elevated-in_psi, full-in_psi,
}

abbrev pub IsWanted : Text → Text → Text → Type 0
IsWanted v w l = (l ≡ elevated_line v) ⊎ (l ≡ full_line w)

abbrev AllSet : Text → Text → List Text → Type 0
AllSet v w ls = All (IsWanted v w) ls

abbrev settings_by : Bool → Text → List Text → Kind → List Text
settings_by in_psi l ls k = elim k [
  | header psi ↦ settings psi ls
  | elevated ↦ l ∷ settings in_psi ls
  | full ↦ l ∷ settings in_psi ls
  | other ↦ settings in_psi ls
]

settings-cons :
    (b : Bool) (l : Text) (ls : List Text) (k : Kind)
    → kind_of b (trim l) ≡ k
    → settings_by b l ls k ≡ settings b (l ∷ ls)
unfolding settings
settings-cons b l ls k q = sym (ap (settings_by b l ls) q)

module _ (v w : Text) where
  AllSet-elevated :
      (b : Bool) (ls : List Text)
      → b ≡ true
      → AllSet v w (settings b ls)
      → AllSet v w (settings b (elevated_line v ∷ ls))
  AllSet-elevated true ls h a =
      subst (AllSet v w) (settings-cons true (elevated_line v) ls elevated (elevated_line-kind v))
        (inl refl, a)
  AllSet-elevated false ls h a = ground (arith, h)

  AllSet-full :
      (b : Bool) (ls : List Text)
      → b ≡ true
      → AllSet v w (settings b ls)
      → AllSet v w (settings b (full_line w ∷ ls))
  AllSet-full true ls h a =
      subst (AllSet v w) (settings-cons true (full_line w) ls full (full_line-kind w)) (inr refl, a)
  AllSet-full false ls h a = ground (arith, h)

  AllSet-missing :
      (b fe ff : Bool) (ls : List Text)
      → AllSet v w (settings b ls)
      → AllSet v w (settings b (missing v w b fe ff ++ ls))
  unfolding missing
  AllSet-missing false fe ff ls a = a
  AllSet-missing true true true ls a = a
  AllSet-missing true true false ls a = AllSet-full true ls refl a
  AllSet-missing true false true ls a = AllSet-elevated true ls refl a
  AllSet-missing true false false ls a =
      AllSet-elevated true (full_line w ∷ ls) refl (AllSet-full true ls refl a)

  AllSet-nil : (b : Bool) → AllSet v w (settings b [])
  unfolding settings
  AllSet-nil b = _

  -- Every setting in a patched block is one of the two that were asked for.
  pub patch_lines-IsWanted :
      (b fe ff : Bool) (ls : List Text)
      → All (IsWanted v w) (settings b (patch_lines v w b fe ff ls))
  unfolding patch_lines
  patch_lines-IsWanted b fe ff [] =
      subst (λ ls. AllSet v w (settings b ls)) (append-nil (missing v w b fe ff))
        (AllSet-missing b fe ff [] (AllSet-nil b))
  patch_lines-IsWanted b fe ff (l ∷ ls) =
      by_kind (kind_of b (trim l)) refl (λ psi e f. patch_lines-IsWanted psi e f ls)
    where
      by_kind :
          (k : Kind)
          → kind_of b (trim l) ≡ k
          → ((psi e f : Bool) → AllSet v w (settings psi (patch_lines v w psi e f ls)))
          → AllSet v w (
              settings b (elim k as (λ _. List Text) [
                | header psi ↦ missing v w b fe ff ++ l ∷ patch_lines v w psi fe ff ls
                | elevated ↦ elevated_line v ∷ patch_lines v w b true ff ls
                | full ↦ full_line w ∷ patch_lines v w b fe true ls
                | other ↦ l ∷ patch_lines v w b fe ff ls
              ]))
      by_kind (header psi) q ih = AllSet-missing b fe ff (l ∷ patch_lines v w psi fe ff ls) (
          subst (AllSet v w) (settings-cons b l (patch_lines v w psi fe ff ls) (header psi) q)
            (ih psi fe ff))
      by_kind elevated q ih =
          AllSet-elevated b (patch_lines v w b true ff ls) (elevated-in_psi b (trim l) q)
            (ih b true ff)
      by_kind full q ih =
          AllSet-full b (patch_lines v w b fe true ls) (full-in_psi b (trim l) q) (ih b fe true)
      by_kind other q ih =
          subst (AllSet v w) (settings-cons b l (patch_lines v w b fe ff ls) other q) (ih b fe ff)
