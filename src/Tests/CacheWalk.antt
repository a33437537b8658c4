-- ===== src/Tests/CacheWalk.antt =====
-- Witnesses for the walk of the caches.
use lmkd_linux.Prelude.{
  String, ◌++◌, ◌≡◌, ◌↔◌, refl, min, true, false, none, some, List, [], ◌∷◌, map, take, length,
  if◌then◌else◌,
}
use lmkd_linux.Prelude.Text.{Text, text, same, starts_with, strip_prefix}
use lmkd_linux.CacheWalk.{
  Tree, symlink, file, dir, empty, entry, advise_drop_file, advised, advise_tree, advise_entries,
  advise_paths, drop_each, resolve, drop_caches, segment_matches, Files, expand_path,
  expand_segments, expand_bases, expand_segment, segments_from, expand_tilde, join_path, split_star,
  ends_with,
}
use lmkd_linux.CacheWalk.Reached.{total, reachable_by, drop_caches-log}
use lmkd_linux.CacheWalk.Patterns.{segment_matches_iff}

-- A directory with a link and two files, of which the kernel takes the advice for one, and an empty file
-- beside it.
abbrev cache : Tree
cache = dir (
    entry symlink (
      entry (file (text "/c/a") (some 4096) true)
        (entry (file (text "/c/b") (some 10) false) empty)))

abbrev tree_at : Text → Tree
tree_at path = if same path (text "/c") then cache else file path (some 0) true

abbrev files : Files
files = record {
  read_dir = λ path. if same path (text "/") then some (text "c" ∷ text "x1" ∷ []) else none;
  exists = λ path. same path (text "/c");
}

abbrev patterns : List String
patterns = "/c" ∷ "/x*" ∷ []

drop_caches-log_example :
    let dropped = drop_caches files (text "/h") tree_at patterns in
    let reached = reachable_by (map (resolve files (text "/h") tree_at) patterns) in
    (dropped.1 ≡ take 50000 reached) × (total dropped.0 ≡ min 50000 (length reached))
drop_caches-log_example = drop_caches-log files (text "/h") tree_at patterns

-- One file of the directory is advised, and the empty one counts.
drop_two :
    (drop_caches files (text "/h") tree_at patterns).1 ≡ (text "/c/a", 4096) ∷ (text "/x1", 0) ∷ []
unfolding advise_drop_file advised advise_tree advise_entries advise_paths drop_each resolve
    drop_caches expand_path expand_segments expand_bases expand_segment segments_from expand_tilde
    join_path segment_matches split_star ends_with same starts_with strip_prefix
drop_two = refl

segment_matches_iff_example :
    (segment_matches (text "node_*") (text "node_modules") ≡ true)
    ↔ ((m : Text) × (text "node_modules" ≡ text "node_" ++ m ++ text ""))
segment_matches_iff_example =
    segment_matches_iff (text "node_") (text "") (text "node_modules")
      (refl, (refl, (refl, (refl, (refl, _)))))
