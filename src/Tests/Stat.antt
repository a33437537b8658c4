-- ===== src/Tests/Stat.antt =====
-- The witness for the fields of /proc/<pid>/stat.
use lmkd_linux.Prelude.{◌≡◌, refl, some, List, [], ◌∷◌, ◌++◌, arith}
use lmkd_linux.Prelude.Text.{Text, text}
use lmkd_linux.Prelude.Text.Words.{join}
use lmkd_linux.Process.Stat.{IsField, counters, read_proc_stat, read_proc_stat-fields}

abbrev digit : Text
digit = text "1"

digit-IsField : IsField digit
digit-IsField = ((refl, (refl, _)), (refl, _))

abbrev first : List Text
first = text "S" ∷ digit ∷ digit ∷ digit ∷ digit ∷ digit ∷ digit ∷ digit ∷ digit ∷ []

read_proc_stat-fields_example :
    read_proc_stat
      (some (text "42 (a) R (b" ++ 41 ∷ 32 ∷ join (first ++ counters 17 digit 300 40 (digit ∷ []))))
    ≡ (some 340, 17)
read_proc_stat-fields_example =
    let d = digit-IsField in
    read_proc_stat-fields (text "42 (a) R (b") first 17 300 40 digit (digit ∷ []) refl
      (((refl, (refl, _)), (refl, _)), (d, (d, (d, (d, (d, (d, (d, (d, _))))))))) (d, (d, _))
      (omega arith) (omega arith) (omega arith)
