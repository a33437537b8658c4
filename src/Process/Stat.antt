-- ===== src/Process/Stat.antt =====
-- mgd-common/src/process.rs: the fields of /proc/<pid>/stat behind the name, and whether a cgroup file
-- places a process in the user's session.
use lmkd_linux.Prelude.{
  ℕ, ◌+◌, ◌%◌, ◌^◌, ◌<◌, ◌≡◌, zero, suc, refl, ap, ◌∙◌, Bool, false, ◌&&◌, ◌||◌, Option, none, some,
  List, [], ◌∷◌, ◌++◌, ◌==◌, All, length, drop, any, unwrap_or, arith, if◌then◌else◌, ◌>>=◌,
}
use lmkd_linux.Prelude.Text.{
  Text, text, strip_prefix, split_whitespace, lines, parse_u64, show, u64_limit, starts_with,
  contains,
}
use lmkd_linux.Prelude.Text.Numbers.{Digits, show-Digits, show-blank, parse_u64-show, All-append}
use lmkd_linux.Prelude.Text.Words.{IsWord, join, words-join, Digits-Solid}
use lmkd_linux.Meminfo.Parse.{first_word}

unfoldable pub in_user_slice : Text → Bool
in_user_slice line =
    contains (text "/user.slice/") line
    || (contains (text "/user@") line && contains (text ".service") line)

unfoldable pub is_cgroup_in_user_slice : Text → Bool
is_cgroup_in_user_slice content = any in_user_slice (lines content)

-- `rsplit_once(") ")`, its second part.
unfoldable pub after_comm : Text → Option Text
after_comm [] = none
after_comm (c ∷ cs) = elim (after_comm cs) [
  | some rest ↦ some rest
  | none ↦ if c == 41 && starts_with (32 ∷ []) cs then some (drop 1 cs) else none
]

-- The ticks used and the major faults. The sum of two u64 wraps.
unfoldable pub stat_fields : List Text → Option ℕ × ℕ
stat_fields fields =
    let majflt = unwrap_or (first_word (drop 9 fields) >>= parse_u64) 0 in
    let cpu_ticks = first_word (drop 11 fields) >>= λ u. first_word (drop 12 fields) >>= λ s.
    parse_u64 u >>= λ utime. parse_u64 s >>= λ stime. some ((utime + stime) % 2 ^ 64) in
    (cpu_ticks, majflt)

unfoldable pub fields_of : Option Text → Option ℕ × ℕ
fields_of none = (none, 0)
fields_of (some rest) = stat_fields (split_whitespace rest)

-- The file may be unreadable.
unfoldable pub read_proc_stat : Option Text → Option ℕ × ℕ
read_proc_stat none = (none, 0)
read_proc_stat (some stat) = fields_of (after_comm stat)

-- No closing parenthesis.
abbrev pub Open : Text → Type 0
Open s = All (λ c. c == 41 ≡ false) s

after_comm-Open : (s : Text) → Open s → after_comm s ≡ none
unfolding after_comm
after_comm-Open [] h = refl
after_comm-Open (c ∷ cs) h = ground (arith, h.0, after_comm-Open cs h.1)

-- Whatever stands before the last closing parenthesis, the fields are what stands behind it.
after_comm-append :
    (before rest : Text) → Open rest → after_comm (before ++ 41 ∷ 32 ∷ rest) ≡ some rest
unfolding after_comm starts_with strip_prefix
after_comm-append [] rest h = ground (arith, after_comm-Open rest h)
after_comm-append (c ∷ before) rest h = ground (arith, after_comm-append before rest h)

Digits-Open : (s : Text) → Digits s → Open s
Digits-Open [] h = _
Digits-Open (c ∷ cs) h = (ground (arith, h.0), Digits-Open cs h.1)

join-Open : (ws : List Text) → All Open ws → Open (join ws)
unfolding join
join-Open [] h = _
join-Open (w ∷ []) h = h.0
join-Open (w ∷ v ∷ ws) h = All-append _ w (32 ∷ join (v ∷ ws)) h.0 (refl, join-Open (v ∷ ws) h.1)

drop-past : (xs ys : List Text) (n k : ℕ) → length xs + k ≡ n → drop n (xs ++ ys) ≡ drop k ys
drop-past [] ys n k h = let same_count : n ≡ k = omega (arith, h) in ap (λ j. drop j ys) same_count
drop-past (x ∷ xs) ys zero k h = absurd (omega (arith, h))
drop-past (x ∷ xs) ys (suc n) k h = drop-past xs ys n k (omega (arith, h))

abbrev pub IsField : Text → Type 0
IsField w = IsWord w × Open w

show-IsField : (n : ℕ) → IsField (show n)
show-IsField n =
    ((show-blank n, Digits-Solid (show n) (show-Digits n)), Digits-Open (show n) (show-Digits n))

All-IsWord : (ws : List Text) → All IsField ws → All IsWord ws
All-IsWord [] h = _
All-IsWord (w ∷ ws) h = (h.0.0, All-IsWord ws h.1)

All-Open : (ws : List Text) → All IsField ws → All Open ws
All-Open [] h = _
All-Open (w ∷ ws) h = (h.0.1, All-Open ws h.1)

-- The fields from the tenth on.
unfoldable pub counters : ℕ → Text → ℕ → ℕ → List Text → List Text
counters majflt cmajflt utime stime more = show majflt ∷ cmajflt ∷ show utime ∷ show stime ∷ more

counters-IsField :
    (majflt utime stime : ℕ) (cmajflt : Text) (more : List Text)
    → All IsField (cmajflt ∷ more)
    → All IsField (counters majflt cmajflt utime stime more)
unfolding counters
counters-IsField majflt utime stime cmajflt more h =
    (show-IsField majflt, (h.0, (show-IsField utime, (show-IsField stime, h.1))))

stat_fields-counters :
    (first : List Text) (majflt utime stime : ℕ) (cmajflt : Text) (more : List Text)
    → length first ≡ 9
    → majflt < u64_limit
    → utime < u64_limit
    → stime < u64_limit
    → stat_fields (first ++ counters majflt cmajflt utime stime more)
      ≡ (some ((utime + stime) % 2 ^ 64), majflt)
unfolding stat_fields counters
stat_fields-counters first majflt utime stime cmajflt more size m u s =
    let rest = counters majflt cmajflt utime stime more in
    simp (
      drop-past first rest 9 0 (omega (arith, size)),
      drop-past first rest 11 2 (omega (arith, size)),
      drop-past first rest 12 3 (omega (arith, size)),
      parse_u64-show majflt m,
      parse_u64-show utime u,
      parse_u64-show stime s,
    )

fields-IsField :
    (first rest : List Text) → All IsField first → All IsField rest → All IsField (first ++ rest)
fields-IsField [] rest hf hr = hr
fields-IsField (w ∷ first) rest hf hr = (hf.0, fields-IsField first rest hf.1 hr)

-- The file is read as the kernel prints it, whatever the name of the process holds, parentheses and spaces
-- included: behind the name come nine fields, the major faults, one field, and the two times, each field a
-- word without a closing parenthesis, and each of the three numbers below 2^64.
pub read_proc_stat-fields :
    (before : Text) (first : List Text) (majflt utime stime : ℕ) (cmajflt : Text) (more : List Text)
    → length first ≡ 9
    → All IsField first
    → All IsField (cmajflt ∷ more)
    → majflt < u64_limit
    → utime < u64_limit
    → stime < u64_limit
    → read_proc_stat
        (some (before ++ 41 ∷ 32 ∷ join (first ++ counters majflt cmajflt utime stime more)))
      ≡ (some ((utime + stime) % 2 ^ 64), majflt)
unfolding read_proc_stat fields_of
read_proc_stat-fields before first majflt utime stime cmajflt more size hf hm m u s =
    ap fields_of (after_comm-append before (join fields) (join-Open fields (All-Open fields all)))
    ∙ ap stat_fields (words-join fields (All-IsWord fields all))
    ∙ stat_fields-counters first majflt utime stime cmajflt more size m u s
  where
    fields : List Text
    fields = first ++ counters majflt cmajflt utime stime more

    all : All IsField fields
    all =
        fields-IsField first (counters majflt cmajflt utime stime more) hf
          (counters-IsField majflt utime stime cmajflt more hm)
