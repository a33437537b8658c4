-- ===== src/PsiPatch.antt =====
-- mgctl/src/calibrate.rs: a suggested value is read, and the `[psi]` block of priorities.toml patched. A
-- number of the patch is the text that it is printed as, and `parse::<f64>` a parameter.
pub mod Kept
pub mod Settings
use lmkd_linux.Prelude.{
  ℕ, Bool, true, false, ◌&&◌, not, Option, none, some, List, [], ◌∷◌, ◌++◌, any, ◌==◌,
  if◌then◌else◌, ◌>>=◌,
}
use lmkd_linux.Prelude.Text.{
  Text, text, same, is_blank, strip_prefix, lines, trim, trim_start, trim_end,
}
use lmkd_linux.Prelude.Text.Words.{unlines}
use lmkd_linux.Prelude.Text.{starts_with}
use lmkd_linux.CacheWalk.{ends_with}

-- `split('#')`, its first part.
unfoldable pub before_hash : Text → Text
before_hash [] = []
before_hash (c ∷ cs) = let rest = before_hash cs in if c == 35 then [] else c ∷ rest

unfoldable pub value_of : (Text → Option ℕ) → Text → Text → Option ℕ
value_of parse_f64 key line =
    let trimmed = trim line in
    if starts_with (text "#") trimmed then none else (do
      rest ← strip_prefix key trimmed
      val ← strip_prefix (text "=") (trim_start rest)
      parse_f64 (trim (before_hash val)))

unfoldable pub first_value : (Text → Option ℕ) → Text → List Text → Option ℕ
first_value parse_f64 key [] = none
first_value parse_f64 key (l ∷ ls) = elim (value_of parse_f64 key l) [
  | none ↦ first_value parse_f64 key ls
  | some v ↦ some v
]

unfoldable pub suggestion_value : (Text → Option ℕ) → Text → Text → Option ℕ
suggestion_value parse_f64 data_text key = first_value parse_f64 key (lines data_text)

abbrev pub elevated_line : Text → Text
elevated_line v = text "elevated_pct      = " ++ v

abbrev pub full_line : Text → Text
full_line w = text "full_critical_pct = " ++ w

-- What a line is: a header, with whether it is that of the block, one of the two settings, or another.
pub data Kind : Type 0 where
  header : Bool → Kind
  elevated full other : Kind

unfoldable pub sets : Text → Text → Bool
sets key trimmed = starts_with key trimmed && any (λ c. c == 61) trimmed

unfoldable pub kind_of : Bool → Text → Kind
kind_of in_psi trimmed =
    if starts_with (text "[") trimmed && ends_with (text "]") trimmed
    then header (same trimmed (text "[psi]"))
    else if in_psi && not (starts_with (text "#") trimmed)
    then (if sets (text "elevated_pct") trimmed
        then elevated
        else if sets (text "full_critical_pct") trimmed
        then full
        else other)
    else other

-- The settings that the block lacks when it ends.
unfoldable pub missing : Text → Text → Bool → Bool → Bool → List Text
missing v w in_psi found_elevated found_full =
    if in_psi
    then (if found_elevated then [] else elevated_line v ∷ [])
      ++ (if found_full then [] else full_line w ∷ [])
    else []

unfoldable pub patch_lines : Text → Text → Bool → Bool → Bool → List Text → List Text
patch_lines v w in_psi fe ff [] = missing v w in_psi fe ff
patch_lines v w in_psi fe ff (l ∷ ls) = elim (kind_of in_psi (trim l)) [
  | header psi ↦ missing v w in_psi fe ff ++ l ∷ patch_lines v w psi fe ff ls
  | elevated ↦ elevated_line v ∷ patch_lines v w in_psi true ff ls
  | full ↦ full_line w ∷ patch_lines v w in_psi fe true ls
  | other ↦ l ∷ patch_lines v w in_psi fe ff ls
]

unfoldable pub has_psi : List Text → Bool
has_psi ls = any (λ l. same (trim l) (text "[psi]")) ls

-- The end of the content before a new block.
unfoldable pub separator : Text → Text
separator content =
    if is_blank content then [] else if ends_with (10 ∷ []) content then [] else 10 ∷ []

unfoldable pub patch_psi_block : Text → Text → Text → Text
patch_psi_block content v w =
    if has_psi (lines content)
    then unlines (patch_lines v w false false false (lines content))
    else content
      ++ separator content
      ++ 10 ∷ unlines (text "[psi]" ∷ elevated_line v ∷ full_line w ∷ [])
