-- ===== src/CacheWalk/Reached.antt =====
-- mgd/src/monitor/cache.rs: which files a walk advises.
use lmkd_linux.Prelude.{
  ℕ, zero, suc, String, ◌+◌, ◌-◌, ◌≡◌, min, refl, sym, ap, ◌∙◌, Bool, true, false, Option, none,
  some, List, [], ◌∷◌, ◌++◌, map, take, length, length-append, ◌==◌, ltb, arith, if◌then◌else◌,
}
use mathlib.Core.List.{append_assoc, append-nil}
use lmkd_linux.Prelude.Text.{Text}
use lmkd_linux.Reclaim.Caches.{CacheDropResult}
use lmkd_linux.CacheWalk.{
  Tree, unreadable, symlink, unlisted, special, file, dir, Forest, empty, entry, max_files, Walk,
  advise_drop_file, advised, guarded, advise_tree, advise_entries, advise_paths, drop_each, Files,
  resolve, drop_caches,
}

-- The files that count, with their bytes, in the order of the walk: at most eight directories deep and
-- behind no symbolic link.
abbrev one_if : Text → Option ℕ → List (Text × ℕ)
one_if path none = []
one_if path (some n) = (path, n) ∷ []

unfoldable mutual
  pub reachable : Tree → ℕ → List (Text × ℕ)
  reachable unreadable depth = []
  reachable symlink depth = []
  reachable unlisted depth = []
  reachable special depth = []
  reachable (file path len taken) depth =
      if ltb 8 depth then [] else one_if path (advise_drop_file len taken)
  reachable (dir entries) depth =
      let inside = reachable_entries entries depth in if ltb 8 depth then [] else inside

  pub reachable_entries : Forest → ℕ → List (Text × ℕ)
  reachable_entries empty depth = []
  reachable_entries (entry t ts) depth = reachable t (depth + 1) ++ reachable_entries ts depth

unfoldable pub reachable_all : List Tree → List (Text × ℕ)
reachable_all [] = []
reachable_all (t ∷ ts) = reachable t 0 ++ reachable_all ts

take-nil : (b : ℕ) → take {A = Text × ℕ} b [] ≡ []
take-nil zero = refl
take-nil (suc b) = refl

take-one : (b : ℕ) (x : Text × ℕ) → (b == 0) ≡ false → take b (x ∷ []) ≡ x ∷ []
take-one zero x e = ground (arith, e)
take-one (suc b) x e = ap (λ zs. x ∷ zs) (take-nil b)

take-append :
    (b : ℕ) (xs ys : List (Text × ℕ)) → take b (xs ++ ys) ≡ take b xs ++ take (b - length xs) ys
take-append zero xs ys = let e : 0 ≡ 0 - length xs = omega arith in ap (λ n. take n ys) e
take-append (suc b) [] ys = let e : suc b ≡ suc b - 0 = omega arith in ap (λ n. take n ys) e
take-append (suc b) (x ∷ xs) ys =
    let e : b - length xs ≡ suc b - suc (length xs) = omega arith in
    ap (λ zs. x ∷ zs) (take-append b xs ys ∙ ap (λ n. take b xs ++ take n ys) e)

-- The first of the files, as many as the budget allows, each of them paid for and counted.
abbrev Spent : List (Text × ℕ) → Walk → Walk → Type 0
Spent xs before after =
    (after.seen ≡ before.seen ++ take before.budget xs)
    × (after.files ≡ before.files + min before.budget (length xs))
    × (after.budget ≡ before.budget - length xs)

same-Spent : (w : Walk) → Spent [] w w
same-Spent w = (
  sym (ap (λ zs. w.seen ++ zs) (take-nil w.budget) ∙ append-nil w.seen),
  omega arith,
  omega arith,
)

broke-Spent : (xs : List (Text × ℕ)) (w : Walk) → w.budget ≡ 0 → Spent xs w w
broke-Spent xs w e =
    (sym (ap (λ b. w.seen ++ take b xs) e ∙ append-nil w.seen), omega (arith, e), omega (arith, e))

-- A walk behind the test of the budget.
by_budget :
    (xs : List (Text × ℕ)) (w next : Walk) (b : Bool)
    → (w.budget == 0) ≡ b
    → (b ≡ false → Spent xs w next)
    → Spent xs w (if b then w else next)
by_budget xs w next true e h = broke-Spent xs w (ground (arith, e))
by_budget xs w next false e h = h refl

guarded-Spent :
    (depth : ℕ) (xs : List (Text × ℕ)) (w next : Walk)
    → ((w.budget == 0) ≡ false → Spent xs w next)
    → Spent (if ltb 8 depth then [] else xs) w (guarded depth w next)
guarded-Spent depth xs w next h = by_depth (ltb 8 depth)
  where
    by_depth :
        (b : Bool)
        → Spent (if b then [] else xs) w (if b then w else if w.budget == 0 then w else next)
    by_depth true = same-Spent w
    by_depth false = by_budget xs w next (w.budget == 0) refl h

advised-Spent :
    (path : Text) (o : Option ℕ) (w : Walk)
    → (w.budget == 0) ≡ false
    → Spent (one_if path o) w (advised path o w)
unfolding advised
advised-Spent path none w e = same-Spent w
advised-Spent path (some n) w e =
    (ap (λ zs. w.seen ++ zs) (sym (take-one w.budget (path, n) e)), ground (arith, e), refl)

chain-Spent :
    (xs ys : List (Text × ℕ)) (w next last : Walk)
    → Spent xs w next
    → Spent ys next last
    → Spent (xs ++ ys) w last
chain-Spent xs ys w next last h k = (
  k.0
      ∙ ap (λ zs. zs ++ take next.budget ys) h.0
      ∙ append_assoc w.seen (take w.budget xs) (take next.budget ys)
      ∙ ap (λ b. w.seen ++ (take w.budget xs ++ take b ys)) h.2
      ∙ ap (λ zs. w.seen ++ zs) (sym (take-append w.budget xs ys)),
  omega (arith, h.1, h.2, k.1, length-append xs ys),
  omega (arith, h.2, k.2, length-append xs ys),
)

then-Spent :
    (xs ys : List (Text × ℕ)) (w next last : Walk)
    → Spent xs w next
    → Spent ys next last
    → Spent (xs ++ ys) w (if w.budget == 0 then w else last)
then-Spent xs ys w next last h k =
    by_budget (xs ++ ys) w last (w.budget == 0) refl (λ _. chain-Spent xs ys w next last h k)

mutual
  unfolding advise_tree advise_entries reachable reachable_entries

  advise_tree-Spent :
      (t : Tree) (depth : ℕ) (w : Walk) → Spent (reachable t depth) w (advise_tree t depth w)
  advise_tree-Spent unreadable depth w = same-Spent w
  advise_tree-Spent symlink depth w = same-Spent w
  advise_tree-Spent unlisted depth w = same-Spent w
  advise_tree-Spent special depth w = same-Spent w
  advise_tree-Spent (file path len taken) depth w =
      guarded-Spent depth (one_if path (advise_drop_file len taken)) w
        (advised path (advise_drop_file len taken) w)
        (advised-Spent path (advise_drop_file len taken) w)
  advise_tree-Spent (dir entries) depth w =
      guarded-Spent depth (reachable_entries entries depth) w (advise_entries entries depth w)
        (λ _. advise_entries-Spent entries depth w)

  advise_entries-Spent :
      (ts : Forest) (depth : ℕ) (w : Walk)
      → Spent (reachable_entries ts depth) w (advise_entries ts depth w)
  advise_entries-Spent empty depth w = same-Spent w
  advise_entries-Spent (entry t ts) depth w =
      let next = advise_tree t (depth + 1) w in
      then-Spent (reachable t (depth + 1)) (reachable_entries ts depth) w next
        (advise_entries ts depth next) (advise_tree-Spent t (depth + 1) w)
        (advise_entries-Spent ts depth next)

advise_paths-Spent : (ts : List Tree) (w : Walk) → Spent (reachable_all ts) w (advise_paths ts w)
unfolding advise_paths reachable_all
advise_paths-Spent [] w = same-Spent w
advise_paths-Spent (t ∷ ts) w =
    let next = advise_tree t 0 w in
    then-Spent (reachable t 0) (reachable_all ts) w next (advise_paths ts next)
      (advise_tree-Spent t 0 w) (advise_paths-Spent ts next)

unfoldable pub total : List CacheDropResult → ℕ
total [] = 0
total (r ∷ rs) = r.files_advised + total rs

unfoldable pub reachable_by : List (String × List Tree) → List (Text × ℕ)
reachable_by [] = []
reachable_by ((pattern, paths) ∷ more) = reachable_all paths ++ reachable_by more

drop_each-log :
    (ps : List (String × List Tree)) (budget : ℕ)
    → let dropped = drop_each ps budget in
      (dropped.1 ≡ take budget (reachable_by ps))
      × (total dropped.0 ≡ min budget (length (reachable_by ps)))
unfolding total reachable_by drop_each
drop_each-log [] budget = (sym (take-nil budget), omega arith)
drop_each-log ((pattern, paths) ∷ more) budget =
    let w : Walk = record { budget = budget; files = 0; bytes = 0; seen = [] } in
    let after = advise_paths paths w in
    let h = advise_paths-Spent paths w in
    let k = drop_each-log more after.budget in
    let xs = reachable_all paths in
    let ys = reachable_by more in
    (
      ap (λ zs. zs ++ (drop_each more after.budget).1) h.0
          ∙ ap (λ zs. take budget xs ++ zs) k.0
          ∙ ap (λ b. take budget xs ++ take b ys) h.2
          ∙ sym (take-append budget xs ys),
      omega (arith, h.1, h.2, k.1, length-append xs ys),
    )

-- A drop counts, in the order of the walk, exactly the first 50000 of the files that the paths of the
-- expanded patterns reach, and its results report as many in total. A file is reached at most eight
-- directories deep and behind no symbolic link; it is one that can be opened and is empty, in which case
-- the kernel is not asked, or for which the kernel takes the advice.
pub drop_caches-log :
    (fs : Files) (home : Text) (tree_at : Text → Tree) (patterns : List String)
    → let dropped = drop_caches fs home tree_at patterns in
      let reached = reachable_by (map (resolve fs home tree_at) patterns) in
      (dropped.1 ≡ take 50000 reached) × (total dropped.0 ≡ min 50000 (length reached))
unfolding drop_caches
drop_caches-log fs home tree_at patterns =
    drop_each-log (map (resolve fs home tree_at) patterns) max_files
