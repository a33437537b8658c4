-- ===== src/Tests/Texts.antt =====
-- Witnesses for the parsers.
use lmkd_linux.Prelude.{ℕ, ◌≡◌, refl, Option, some, List, [], ◌∷◌, inr, map, arith, keep, not, ◌==◌}
use lmkd_linux.Prelude.Text.{Text, text, digits_from, digits, show, strip_prefix}
use lmkd_linux.Prelude.Text.Words.{unlines}
use lmkd_linux.Psi.{MemoryPressure}
use lmkd_linux.Psi.Parse.{parse_pressure}
use lmkd_linux.Psi.Printed.{hundredths, printed, parse_pressure-printed}
use lmkd_linux.Meminfo.Parse.{read_meminfo}
use lmkd_linux.Meminfo.Printed.{
  Entry, total, available, swap_free, other, entry_line, last_of, read_meminfo-figures,
}

-- The digits of a decimal with its point left out.
abbrev read_decimal : Text → Option ℕ
read_decimal s = digits_from 1000000 0 (keep (λ c. not (c == 46)) s)

abbrev stalled : MemoryPressure
stalled = record {
  some_avg10 = 1234;
  some_avg60 = 507;
  some_avg300 = 3;
  some_total = 133037586;
  full_avg10 = 10000;
  full_avg60 = 0;
  full_avg300 = 1;
  full_total = 124524209;
}

parse_pressure-printed_example : parse_pressure read_decimal (printed stalled) ≡ inr stalled
unfolding digits_from digits show hundredths
parse_pressure-printed_example =
    parse_pressure-printed read_decimal stalled (refl, refl, refl, omega arith)
      (refl, refl, refl, omega arith)

abbrev entries : List (ℕ × Entry)
entries =
    (7, total 16000000)
    ∷ (0, other (text "Dirty: 88 kB"))
    ∷ (3, available 9000000)
    ∷ (2, swap_free 12)
    ∷ (1, swap_free 4000)
    ∷ []

read_meminfo-figures_example :
    read_meminfo (some (unlines (map entry_line entries)))
    ≡ record { available_kb = 9000000; total_kb = 16000000; swap_free_kb = 4000; swap_total_kb = 0 }
unfolding last_of strip_prefix
read_meminfo-figures_example = read_meminfo-figures entries (
  omega arith,
  (
    (
      (
        (refl, refl),
        (
          (refl, refl),
          (
            (refl, refl),
            (
              (refl, refl),
              (
                (refl, refl),
                (
                  (refl, refl),
                  (
                    (refl, refl),
                    (
                      (refl, refl),
                      ((refl, refl), ((refl, refl), ((refl, refl), ((refl, refl), _)))),
                    ),
                  ),
                ),
              ),
            ),
          ),
        ),
      ),
      refl,
      refl,
      refl,
      refl,
    ),
    (omega arith, (omega arith, (omega arith, _))),
  ),
)
