-- ===== src/Psi/Parse.antt =====
-- mgd/src/monitor/psi.rs and mgd-common/src/psi.rs: the text of a pressure file. How a decimal is read,
-- `parse::<f64>`, is a parameter that gives hundredths; the text of an error is left out.
use lmkd_linux.Prelude.{
  ℕ, Option, none, some, List, [], ◌∷◌, ◌⊎◌, inl, inr, leb, ◌&&◌, ◌+◌, map, if◌then◌else◌, ◌>>=◌,
}
use lmkd_linux.Prelude.Text.{
  Text, text, same, strip_prefix, split_whitespace, lines, parse_u64, trim,
}
use lmkd_linux.Psi.{PressureLevel, normal, elevated, high, critical, emergency, MemoryPressure}

pub data MgdError : Type 0 where
  io parse : MgdError

unfoldable pub parse_kv : (Text → Option ℕ) → Text → Text → Option ℕ
parse_kv parse_f64 s prefix = elim (strip_prefix prefix s) [ none ↦ none | some v ↦ parse_f64 v ]

unfoldable pub parse_kv_u64 : Text → Text → Option ℕ
parse_kv_u64 s prefix = elim (strip_prefix prefix s) [ none ↦ none | some v ↦ parse_u64 v ]

-- The averages and the total of one line.
pub record Stall : Type 0 where
  pub avg10 : ℕ
  pub avg60 : ℕ
  pub avg300 : ℕ
  pub total : ℕ

unfoldable pub parse_stall : (Text → Option ℕ) → Text → Text → Text → Text → Option Stall
parse_stall parse_f64 a b c t = do
  avg10 ← parse_kv parse_f64 a (text "avg10=")
  avg60 ← parse_kv parse_f64 b (text "avg60=")
  avg300 ← parse_kv parse_f64 c (text "avg300=")
  total ← parse_kv_u64 t (text "total=")
  some (record { avg10 = avg10; avg60 = avg60; avg300 = avg300; total = total })

-- A line of another kind is read and dropped.
unfoldable pub store : Text → Stall → MemoryPressure → MemoryPressure
store kind s p =
    if same kind (text "some")
    then record p {
      some_avg10 = s.avg10;
      some_avg60 = s.avg60;
      some_avg300 = s.avg300;
      some_total = s.total;
    }
    else if same kind (text "full")
    then record p {
      full_avg10 = s.avg10;
      full_avg60 = s.avg60;
      full_avg300 = s.avg300;
      full_total = s.total;
    }
    else p

-- A line of fewer than five words is passed over.
unfoldable pub parse_line :
    (Text → Option ℕ) → List Text → MemoryPressure → MgdError ⊎ MemoryPressure
parse_line parse_f64 (kind ∷ a ∷ b ∷ c ∷ t ∷ more) p = elim (parse_stall parse_f64 a b c t) [
  | none ↦ inl parse
  | some s ↦ inr (store kind s p)
]
parse_line parse_f64 [] p = inr p
parse_line parse_f64 (kind ∷ []) p = inr p
parse_line parse_f64 (kind ∷ a ∷ []) p = inr p
parse_line parse_f64 (kind ∷ a ∷ b ∷ []) p = inr p
parse_line parse_f64 (kind ∷ a ∷ b ∷ c ∷ []) p = inr p

unfoldable pub parse_lines :
    (Text → Option ℕ) → List Text → MemoryPressure → MgdError ⊎ MemoryPressure
parse_lines parse_f64 [] p = inr p
parse_lines parse_f64 (l ∷ ls) p = elim (parse_line parse_f64 (split_whitespace l) p) [
  | inl e ↦ inl e
  | inr q ↦ parse_lines parse_f64 ls q
]

abbrev pub no_pressure : MemoryPressure
no_pressure = record {
  some_avg10 = 0;
  some_avg60 = 0;
  some_avg300 = 0;
  some_total = 0;
  full_avg10 = 0;
  full_avg60 = 0;
  full_avg300 = 0;
  full_total = 0;
}

unfoldable pub parse_pressure : (Text → Option ℕ) → Text → MgdError ⊎ MemoryPressure
parse_pressure parse_f64 content = parse_lines parse_f64 (lines content) no_pressure

-- The pressure file may be unreadable.
unfoldable pub read_pressure : (Text → Option ℕ) → Option Text → MgdError ⊎ MemoryPressure
read_pressure parse_f64 none = inl io
read_pressure parse_f64 (some content) = parse_pressure parse_f64 content

abbrev pub to_lower : ℕ → ℕ
to_lower c = if leb 65 c && leb c 90 then c + 32 else c

-- `PressureLevel::parse`.
unfoldable pub parse_level : Text → Option PressureLevel
parse_level s =
    let name = map to_lower (trim s) in
    if same name (text "normal")
    then some normal
    else if same name (text "elevated")
    then some elevated
    else if same name (text "high")
    then some high
    else if same name (text "critical")
    then some critical
    else if same name (text "emergency")
    then some emergency
    else none

unfoldable pub as_str : PressureLevel → Text
as_str normal = text "Normal"
as_str elevated = text "Elevated"
as_str high = text "High"
as_str critical = text "Critical"
as_str emergency = text "Emergency"
