-- ===== src/Meminfo/Parse.antt =====
-- mgd/src/monitor/meminfo.rs and mgd-common/src/meminfo.rs: the texts of /proc/meminfo and /proc/vmstat.
use lmkd_linux.Prelude.{
  ℕ, ◌&&◌, Option, none, some, List, [], ◌∷◌, ltb, unwrap_or, if◌then◌else◌, ◌>>=◌, find, drop,
}
use lmkd_linux.Prelude.Text.{
  starts_with, Text, text, strip_prefix, split_whitespace, lines, parse_u64, trim,
}
use lmkd_linux.Meminfo.{MemInfo}

-- The first word of a text, if it has one.
abbrev pub first_word : List Text → Option Text
first_word [] = none
first_word (w ∷ ws) = some w

unfoldable pub parse_kb : Text → ℕ
parse_kb s = unwrap_or (first_word (split_whitespace s) >>= parse_u64) 0

-- One line of /proc/meminfo.
unfoldable pub read_line : Text → MemInfo → MemInfo
read_line l m = elim (strip_prefix (text "MemTotal:") l) [
  | some v ↦ record m { total_kb = parse_kb v }
  | none ↦ elim (strip_prefix (text "MemAvailable:") l) [
    | some v ↦ record m { available_kb = parse_kb v }
    | none ↦ elim (strip_prefix (text "SwapTotal:") l) [
      | some v ↦ record m { swap_total_kb = parse_kb v }
      | none ↦ elim (strip_prefix (text "SwapFree:") l) [
        | some v ↦ record m { swap_free_kb = parse_kb v }
        | none ↦ m
      ]
    ]
  ]
]

unfoldable pub read_each : List Text → MemInfo → MemInfo
read_each [] m = m
read_each (l ∷ ls) m = read_each ls (read_line l m)

abbrev pub no_memory : MemInfo
no_memory = record { available_kb = 0; total_kb = 0; swap_free_kb = 0; swap_total_kb = 0 }

-- The file may be unreadable.
unfoldable pub read_meminfo : Option Text → MemInfo
read_meminfo none = no_memory
read_meminfo (some content) = read_each (lines content) no_memory

-- One line of /proc/vmstat.
unfoldable pub swap_counter : Text → ℕ × ℕ → ℕ × ℕ
swap_counter l (pswpin, pswpout) = elim (strip_prefix (text "pswpin ") l) [
  | some v ↦ (unwrap_or (parse_u64 (trim v)) 0, pswpout)
  | none ↦ elim (strip_prefix (text "pswpout ") l) [
    | some v ↦ (pswpin, unwrap_or (parse_u64 (trim v)) 0)
    | none ↦ (pswpin, pswpout)
  ]
]

-- The loop ends once both are positive.
unfoldable pub swap_counters : List Text → ℕ × ℕ → ℕ × ℕ
swap_counters [] counters = counters
swap_counters (l ∷ ls) counters =
    let next = swap_counter l counters in
    let rest = swap_counters ls next in if ltb 0 next.0 && ltb 0 next.1 then next else rest

unfoldable pub parse_vmstat_swap : Text → ℕ × ℕ
parse_vmstat_swap content = swap_counters (lines content) (0, 0)

unfoldable pub read_vmstat_swap_counters : Option Text → ℕ × ℕ
read_vmstat_swap_counters none = (0, 0)
read_vmstat_swap_counters (some content) = parse_vmstat_swap content

-- The second word of the first line that starts with the label, as a number.
unfoldable pub field_of : List Text → Text → Option ℕ
field_of ls prefix = do
  l ← find (starts_with prefix) ls
  w ← first_word (drop 1 (split_whitespace l))
  parse_u64 w

unfoldable pub read_meminfo_field : Option Text → Text → ℕ
read_meminfo_field none prefix = 0
read_meminfo_field (some content) prefix = unwrap_or (field_of (lines content) prefix) 0

unfoldable pub read_available_kb : Option Text → ℕ
read_available_kb meminfo = read_meminfo_field meminfo (text "MemAvailable:")

unfoldable pub read_total_kb : Option Text → ℕ
read_total_kb meminfo = read_meminfo_field meminfo (text "MemTotal:")
