-- ===== src/PsiPatch/Kept.antt =====
-- mgctl/src/calibrate.rs: what a patch of the `[psi]` block keeps, and what it sets.
use lmkd_linux.Prelude.{◌≡◌, refl, sym, ap, ◌∙◌, Bool, true, false, List, [], ◌∷◌, ◌++◌, arith}
use mathlib.Core.List.{append-nil}
use lmkd_linux.Prelude.Text.{Text, strip_prefix, trim, trim_start, trim_end}
use lmkd_linux.Prelude.Text.{starts_with}
use lmkd_linux.PsiPatch.{
  elevated_line, full_line, Kind, header, elevated, full, other, sets, kind_of, missing,
  patch_lines,
}

-- The lines that are no setting of the block.
unfoldable pub others : Bool → List Text → List Text
others in_psi [] = []
others in_psi (l ∷ ls) = elim (kind_of in_psi (trim l)) [
  | header psi ↦ l ∷ others psi ls
  | elevated ↦ others in_psi ls
  | full ↦ others in_psi ls
  | other ↦ l ∷ others in_psi ls
]

-- The settings of the block.
unfoldable pub settings : Bool → List Text → List Text
settings in_psi [] = []
settings in_psi (l ∷ ls) = elim (kind_of in_psi (trim l)) [
  | header psi ↦ settings psi ls
  | elevated ↦ l ∷ settings in_psi ls
  | full ↦ l ∷ settings in_psi ls
  | other ↦ settings in_psi ls
]

-- A printed setting is read as that setting inside the block.
pub elevated_line-kind : (v : Text) → kind_of true (trim (elevated_line v)) ≡ elevated
unfolding kind_of sets starts_with strip_prefix trim trim_start trim_end
elevated_line-kind v = refl

pub full_line-kind : (w : Text) → kind_of true (trim (full_line w)) ≡ full
unfolding kind_of sets starts_with strip_prefix trim trim_start trim_end
full_line-kind w = refl

pub elevated-in_psi : (b : Bool) (t : Text) → kind_of b t ≡ elevated → b ≡ true
unfolding kind_of
elevated-in_psi true t h = refl
elevated-in_psi false t h = ground (arith, h)

pub full-in_psi : (b : Bool) (t : Text) → kind_of b t ≡ full → b ≡ true
unfolding kind_of
full-in_psi true t h = refl
full-in_psi false t h = ground (arith, h)

-- How one line counts, by its kind.
abbrev others_by : Bool → Text → List Text → Kind → List Text
others_by in_psi l ls k = elim k [
  | header psi ↦ l ∷ others psi ls
  | elevated ↦ others in_psi ls
  | full ↦ others in_psi ls
  | other ↦ l ∷ others in_psi ls
]

others-cons :
    (b : Bool) (l : Text) (ls : List Text) (k : Kind)
    → kind_of b (trim l) ≡ k
    → others b (l ∷ ls) ≡ others_by b l ls k
unfolding others
others-cons b l ls k q = ap (others_by b l ls) q

others-elevated :
    (b : Bool) (v : Text) (ls : List Text)
    → b ≡ true
    → others b (elevated_line v ∷ ls) ≡ others b ls
others-elevated true v ls h = others-cons true (elevated_line v) ls elevated (elevated_line-kind v)
others-elevated false v ls h = ground (arith, h)

others-full :
    (b : Bool) (w : Text) (ls : List Text) → b ≡ true → others b (full_line w ∷ ls) ≡ others b ls
others-full true w ls h = others-cons true (full_line w) ls full (full_line-kind w)
others-full false w ls h = ground (arith, h)

others-missing :
    (v w : Text) (b fe ff : Bool) (ls : List Text)
    → others b (missing v w b fe ff ++ ls) ≡ others b ls
unfolding missing
others-missing v w false fe ff ls = refl
others-missing v w true true true ls = refl
others-missing v w true true false ls = others-full true w ls refl
others-missing v w true false true ls = others-elevated true v ls refl
others-missing v w true false false ls =
    others-elevated true v (full_line w ∷ ls) refl ∙ others-full true w ls refl

-- A patch leaves every line alone that is no setting of the block, and their order.
pub patch_lines-others :
    (v w : Text) (in_psi fe ff : Bool) (ls : List Text)
    → others in_psi (patch_lines v w in_psi fe ff ls) ≡ others in_psi ls
unfolding patch_lines
patch_lines-others v w b fe ff [] =
    ap (others b) (sym (append-nil (missing v w b fe ff))) ∙ others-missing v w b fe ff []
patch_lines-others v w b fe ff (l ∷ ls) =
    by_kind (kind_of b (trim l)) refl (λ psi e f. patch_lines-others v w psi e f ls)
    ∙ sym (others-cons b l ls (kind_of b (trim l)) refl)
  where
    by_kind :
        (k : Kind)
        → kind_of b (trim l) ≡ k
        → ((psi e f : Bool) → others psi (patch_lines v w psi e f ls) ≡ others psi ls)
        → others b (elim k as (λ _. List Text) [
          | header psi ↦ missing v w b fe ff ++ l ∷ patch_lines v w psi fe ff ls
          | elevated ↦ elevated_line v ∷ patch_lines v w b true ff ls
          | full ↦ full_line w ∷ patch_lines v w b fe true ls
          | other ↦ l ∷ patch_lines v w b fe ff ls
        ])
          ≡ others_by b l ls k
    by_kind (header psi) q ih =
        others-missing v w b fe ff (l ∷ patch_lines v w psi fe ff ls)
        ∙ others-cons b l (patch_lines v w psi fe ff ls) (header psi) q
        ∙ ap (λ r. l ∷ r) (ih psi fe ff)
    by_kind elevated q ih =
        others-elevated b v (patch_lines v w b true ff ls) (elevated-in_psi b (trim l) q)
        ∙ ih b true ff
    by_kind full q ih =
        others-full b w (patch_lines v w b fe true ls) (full-in_psi b (trim l) q) ∙ ih b fe true
    by_kind other q ih =
        others-cons b l (patch_lines v w b fe ff ls) other q ∙ ap (λ r. l ∷ r) (ih b fe ff)
