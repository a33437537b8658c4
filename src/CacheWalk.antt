-- ===== src/CacheWalk.antt =====
-- mgd/src/monitor/cache.rs: the walk that advises the kernel to drop the pages of a tree of files. The
-- tree is what the file system answers during the walk, and lengths of texts are counted in characters.
pub mod Reached
pub mod Patterns
use lmkd_linux.Prelude.{
  ℕ, String, ◌+◌, ◌-◌, ◌%◌, ◌^◌, suc, Bool, true, false, ◌&&◌, Option, none, some, List, [], ◌∷◌,
  ◌++◌, map, keep, any, not, ◌==◌, ltb, leb, length, drop, if◌then◌else◌, ◌>>=◌,
}
use lmkd_linux.Prelude.Text.{Text, text, same, is_blank, strip_prefix}
use lmkd_linux.Reclaim.Caches.{CacheDropResult}
use lmkd_linux.Prelude.Text.{starts_with}

-- What a path is: nothing that can be read, a symbolic link, a file with its path, its length in bytes,
-- if it can be opened, and whether the kernel takes the advice, a directory that cannot be listed, one
-- with its entries, or something else.
mutual
  pub data Tree : Type 0 where
    unreadable symlink unlisted special : Tree
    file : Text → Option ℕ → Bool → Tree
    dir : Forest → Tree

  pub data Forest : Type 0 where
    empty : Forest
    entry : Tree → Forest → Forest

abbrev pub max_depth : ℕ
max_depth = 8

abbrev pub max_files : ℕ
max_files = 50000

-- `seen` is a log for the proofs: the files counted so far, with the bytes of each.
pub record Walk : Type 0 where
  pub budget : ℕ
  pub files : ℕ
  pub bytes : ℕ
  pub seen : List (Text × ℕ)

unfoldable pub advise_drop_file : Option ℕ → Bool → Option ℕ
advise_drop_file none taken = none
advise_drop_file (some len) taken = if len == 0 then some 0 else if taken then some len else none

unfoldable pub advised : Text → Option ℕ → Walk → Walk
advised path none w = w
advised path (some n) w = record {
  budget = w.budget - 1;
  files = w.files + 1;
  bytes = (w.bytes + n) % 2 ^ 64;
  seen = w.seen ++ (path, n) ∷ [];
}

-- Too deep, or nothing left of the budget.
abbrev pub guarded : ℕ → Walk → Walk → Walk
guarded depth w next = if ltb max_depth depth then w else if w.budget == 0 then w else next

unfoldable mutual
  pub advise_tree : Tree → ℕ → Walk → Walk
  advise_tree unreadable depth w = w
  advise_tree symlink depth w = w
  advise_tree unlisted depth w = w
  advise_tree special depth w = w
  advise_tree (file path len taken) depth w =
      guarded depth w (advised path (advise_drop_file len taken) w)
  advise_tree (dir entries) depth w =
      let walked = advise_entries entries depth w in guarded depth w walked

  pub advise_entries : Forest → ℕ → Walk → Walk
  advise_entries empty depth w = w
  advise_entries (entry t ts) depth w =
      let next = advise_tree t (depth + 1) w in
      let rest = advise_entries ts depth next in if w.budget == 0 then w else rest

-- The paths that a pattern resolves to, one after the other.
unfoldable pub advise_paths : List Tree → Walk → Walk
advise_paths [] w = w
advise_paths (t ∷ ts) w =
    let next = advise_tree t 0 w in
    let rest = advise_paths ts next in if w.budget == 0 then w else rest

unfoldable pub ends_with : Text → Text → Bool
ends_with suffix s =
    leb (length suffix) (length s) && same suffix (drop (length s - length suffix) s)

-- `split_once` at a star.
unfoldable pub split_star : Text → Option (Text × Text)
split_star [] = none
split_star (c ∷ cs) =
    let rest = split_star cs in
    if c == 42 then some ([], cs) else (rest >>= λ r. some (c ∷ r.0, r.1))

unfoldable pub segment_matches : Text → Text → Bool
segment_matches pattern name = elim (split_star pattern) [
  | none ↦ same pattern name
  | some parts ↦
      leb (length parts.0 + length parts.1) (length name)
      && starts_with parts.0 name
      && ends_with parts.1 name
]

-- `~` is the home directory.
unfoldable pub expand_tilde : Text → Text → Text
expand_tilde home pattern = elim (strip_prefix (text "~/") pattern) [
  | some rest ↦ if starts_with (text "/") rest then rest else home ++ 47 ∷ rest
  | none ↦ if same pattern (text "~") then home else pattern
]

-- What the file system answers: the names in a directory, if it can be listed, and whether a path exists.
pub record Files : Type 0 where
  pub read_dir : Text → Option (List Text)
  pub exists : Text → Bool

-- A path behind the root or behind a directory.
unfoldable pub join_path : Text → Text → Text
join_path base seg = if same base (text "/") then base ++ seg else base ++ 47 ∷ seg

-- What one segment makes of one path.
unfoldable pub expand_segment : Files → Text → Text → List Text
expand_segment fs seg base =
    if any (λ c. c == 42) seg
    then (elim (fs.read_dir base) [
      | none ↦ []
      | some names ↦ map (join_path base) (keep (segment_matches seg) names)
    ])
    else if fs.exists (join_path base seg)
    then join_path base seg ∷ []
    else []

unfoldable pub expand_bases : Files → Text → List Text → List Text
expand_bases fs seg [] = []
expand_bases fs seg (base ∷ bases) = expand_segment fs seg base ++ expand_bases fs seg bases

-- The loop ends early on an empty frontier.
unfoldable pub expand_segments : Files → List Text → List Text → List Text
expand_segments fs [] frontier = frontier
expand_segments fs (seg ∷ segs) frontier = elim (expand_bases fs seg frontier) [
  | [] ↦ []
  | p ∷ ps ↦ expand_segments fs segs (p ∷ ps)
]

-- `split('/')` without the empty parts.
unfoldable pub segments_from : Text → Text → List Text
segments_from seg [] = if is_blank seg then [] else seg ∷ []
segments_from seg (c ∷ cs) =
    let rest = segments_from [] cs in
    let longer = segments_from (seg ++ c ∷ []) cs in
    if c == 47 then (if is_blank seg then rest else seg ∷ rest) else longer

unfoldable pub expand_path : Files → Text → Text → List Text
expand_path fs home pattern =
    expand_segments fs (segments_from [] (expand_tilde home pattern)) (text "/" ∷ [])

-- The patterns with what they resolve to; the budget is one for all. Behind the results is the log.
unfoldable pub drop_each : List (String × List Tree) → ℕ → List CacheDropResult × List (Text × ℕ)
drop_each [] budget = ([], [])
drop_each ((pattern, paths) ∷ more) budget =
    let w = advise_paths paths (record { budget = budget; files = 0; bytes = 0; seen = [] }) in
    let (results, log) = drop_each more w.budget in
    (
      record { pattern = pattern; files_advised = w.files; bytes_advised = w.bytes } ∷ results,
      w.seen ++ log,
    )

-- The trees that a pattern resolves to; `tree_at` is what the file system answers at a path.
unfoldable pub resolve : Files → Text → (Text → Tree) → String → String × List Tree
resolve fs home tree_at pattern = (pattern, map tree_at (expand_path fs home (text pattern)))

unfoldable pub drop_caches :
    Files → Text → (Text → Tree) → List String → List CacheDropResult × List (Text × ℕ)
drop_caches fs home tree_at patterns = drop_each (map (resolve fs home tree_at) patterns) max_files
