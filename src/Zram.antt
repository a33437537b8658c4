-- ===== src/Zram.antt =====
-- mgd-common/src/zram.rs and mgd/src/monitor/zram.rs: which swap devices are zram, and the figures of
-- /sys/block/<device>/mm_stat.
use lmkd_linux.Prelude.{
  ℕ, ◌+◌, ◌*◌, ◌/◌, ◌%◌, ◌^◌, Bool, true, false, not, ◌&&◌, Option, none, some, List, [], ◌∷◌, drop,
  keep, map, ◌>>=◌,
}
use lmkd_linux.Prelude.Text.{
  Text, text, is_digit, is_blank, strip_prefix, split_whitespace, lines, parse_u64, after_slash,
}
use lmkd_linux.Meminfo.Parse.{first_word}

unfoldable pub all_digits : Text → Bool
all_digits [] = true
all_digits (c ∷ cs) = is_digit c && all_digits cs

unfoldable pub is_zram_device_path : Text → Bool
is_zram_device_path path = elim (strip_prefix (text "/dev/zram") path) [
  | none ↦ false
  | some rest ↦ not (is_blank rest) && all_digits rest
]

unfoldable pub first_words : List Text → List Text
first_words [] = []
first_words (l ∷ ls) = elim (first_word (split_whitespace l)) [
  | none ↦ first_words ls
  | some w ↦ w ∷ first_words ls
]

unfoldable pub parse_zram_devices : Text → List Text
parse_zram_devices swaps =
    map after_slash (keep is_zram_device_path (first_words (drop 1 (lines swaps))))

unfoldable pub parse_mem_used_bytes : Text → Option ℕ
parse_mem_used_bytes mm_stat = first_word (drop 2 (split_whitespace mm_stat)) >>= parse_u64

unfoldable pub parse_orig_data_bytes : Text → Option ℕ
parse_orig_data_bytes mm_stat = first_word (split_whitespace mm_stat) >>= parse_u64

abbrev pub mib : ℕ
mib = 1024 * 1024

-- The figures that are there, added up as u64.
unfoldable pub sum_of : List (Option ℕ) → ℕ
sum_of [] = 0
sum_of (none ∷ xs) = sum_of xs
sum_of (some n ∷ xs) = (n + sum_of xs) % 2 ^ 64

-- The text of mm_stat of each device, if it can be read.
module _ (mm_stat : Text → Option Text) where
  unfoldable pub zram_used_mb : Text → Option ℕ
  zram_used_mb device = do
    content ← mm_stat device
    b ← parse_mem_used_bytes content
    some (b / mib)

  unfoldable pub zram_orig_mb : Text → Option ℕ
  zram_orig_mb device = do
    content ← mm_stat device
    b ← parse_orig_data_bytes content
    some (b / mib)

  unfoldable pub zram_orig_mb_total : Text → ℕ
  zram_orig_mb_total swaps = sum_of (map zram_orig_mb (parse_zram_devices swaps))

  unfoldable pub zram_used_mb_total : Text → ℕ
  zram_used_mb_total swaps = sum_of (map zram_used_mb (parse_zram_devices swaps))
