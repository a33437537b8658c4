-- ===== src/Tests/PsiPatch.antt =====
-- Witnesses for the patch of the `[psi]` block.
use lmkd_linux.Prelude.{◌≡◌, refl, false, List, [], ◌∷◌, All}
use lmkd_linux.Prelude.Text.{
  Text, text, same, strip_prefix, trim, trim_start, trim_end, lines, lines_from, starts_with,
}
use lmkd_linux.Prelude.Text.Words.{unlines}
use lmkd_linux.CacheWalk.{ends_with}
use lmkd_linux.PsiPatch.{sets, kind_of, missing, patch_lines, has_psi, patch_psi_block}
use lmkd_linux.PsiPatch.Kept.{others, settings, patch_lines-others}
use lmkd_linux.PsiPatch.Settings.{IsWanted, patch_lines-IsWanted}

abbrev config : List Text
config =
    text "[psi]"
    ∷ text "# tuned"
    ∷ text "elevated_pct = 3.0"
    ∷ text "[thresholds]"
    ∷ text "elevated_pct = 9.0"
    ∷ []

patch_lines-others_example :
    others false (patch_lines (text "6.5") (text "18.0") false false false config)
    ≡ others false config
patch_lines-others_example = patch_lines-others (text "6.5") (text "18.0") false false false config

patch_lines-IsWanted_example :
    All
      (IsWanted (text "6.5") (text "18.0"))
      (settings false (patch_lines (text "6.5") (text "18.0") false false false config))
patch_lines-IsWanted_example =
    patch_lines-IsWanted (text "6.5") (text "18.0") false false false config

-- The block gets both settings, and a line of another block with the same name stays.
patched :
    patch_psi_block (unlines config) (text "6.5") (text "18.0")
    ≡ unlines (
        text "[psi]"
        ∷ text "# tuned"
        ∷ text "elevated_pct      = 6.5"
        ∷ text "full_critical_pct = 18.0"
        ∷ text "[thresholds]"
        ∷ text "elevated_pct = 9.0"
        ∷ [])
unfolding patch_psi_block has_psi patch_lines missing kind_of sets same strip_prefix trim trim_start
    trim_end lines lines_from unlines starts_with ends_with
patched = refl
