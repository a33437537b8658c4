-- ===== src/Tests/ZramHelper.antt =====
-- Witnesses for the helper that reclaims zram.
use lmkd_linux.Prelude.{
  ℕ, ◌<◌, ◌≡◌, ◌⊎◌, refl, true, false, some, List, [], ◌∷◌, map, unwrap_or, ◌+◌, ◌==◌,
}
use lmkd_linux.Prelude.Text.{
  text, lines, lines_from, strip_prefix, split_whitespace, words_from, parse_i32, parse_u64,
  digits_from, after_slash, after_slash_from,
}
use lmkd_linux.Prelude.Text.Words.{unlines}
use lmkd_linux.Meminfo.Parse.{parse_kb}
use lmkd_linux.Zram.{sum_of, is_zram_device_path, all_digits, parse_orig_data_bytes}
use lmkd_linux.ZramHelper.{
  done, Call, block, restore, off, on, Kernel, orig_mb, read_mem_available_mb, parse_zram_swaps,
  main, swapon_flags, swap_of, swaps_of, available_of, is_headroom_safe, headroom_safe, try_swapon,
  swap_back, after_off, reclaim_one, count, reclaim_each, exit_code, reclaim_all, run_checked, run,
}
use lmkd_linux.ZramHelper.Guarded.{is_blocked, IsGuarded, main-IsSafe}
use lmkd_linux.ZramHelper.Restored.{stays_off, main-restores}

-- How often `swapon` failed on top of the calls.
abbrev failures : List Call → ℕ
failures (on p flags false ∷ cs) = 1 + failures cs
failures cs = 0

-- One zram device of 3 MiB among a disk and a swap file; `swapon` succeeds at the third try.
abbrev kernel : Kernel
kernel = record {
  proc_swaps = some (
      unlines (
        text "Filename Type Size Used Priority"
        ∷ text "/dev/sda2 partition 16777212 0 -2"
        ∷ text "/dev/zram0 partition 8388604 4398892 100"
        ∷ text "/swap/zram-cache file 2097152 0 -3"
        ∷ []));
  proc_meminfo = some (unlines (text "MemTotal: 16000 kB" ∷ text "MemAvailable: 8192 kB" ∷ []));
  mm_stat = λ d. some (text "3145728 1000 2000 0 0");
  swapoff = λ calls p. done;
  swapon = λ calls p flags. failures calls == 2;
}

main-IsSafe_example :
    (is_blocked (main kernel).0 ≡ false)
    × IsGuarded (main kernel).0
    × (((main kernel).0 ≡ [])
        ⊎ (sum_of (map (orig_mb kernel) (parse_zram_swaps (unwrap_or kernel.proc_swaps [])))
            < unwrap_or (read_mem_available_mb kernel) 0))
main-IsSafe_example = main-IsSafe kernel

-- The run ends well: the device is off once and on once, at the third try, with its own priority.
main_exit : (main kernel).1 ≡ 0
unfolding unlines lines lines_from strip_prefix split_whitespace words_from parse_i32 parse_u64
    digits_from after_slash after_slash_from is_zram_device_path all_digits parse_kb
    parse_orig_data_bytes sum_of swapon_flags swap_of swaps_of parse_zram_swaps available_of
    read_mem_available_mb orig_mb is_headroom_safe headroom_safe try_swapon swap_back after_off
    reclaim_one count reclaim_each exit_code reclaim_all run_checked run main
main_exit = refl

main_calls :
    (main kernel).0
    ≡ restore
      ∷ on (text "/dev/zram0") 32868 true
      ∷ on (text "/dev/zram0") 32868 false
      ∷ on (text "/dev/zram0") 32868 false
      ∷ off (text "/dev/zram0") done
      ∷ block
      ∷ []
unfolding unlines lines lines_from strip_prefix split_whitespace words_from parse_i32 parse_u64
    digits_from after_slash after_slash_from is_zram_device_path all_digits parse_kb
    parse_orig_data_bytes sum_of swapon_flags swap_of swaps_of parse_zram_swaps available_of
    read_mem_available_mb orig_mb is_headroom_safe headroom_safe try_swapon swap_back after_off
    reclaim_one count reclaim_each exit_code reclaim_all run_checked run main
main_calls = refl

main-restores_example : stays_off (text "/dev/zram0") (main kernel).0 ≡ false
main-restores_example = main-restores kernel (text "/dev/zram0") main_exit
