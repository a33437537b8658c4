-- ===== src/Time.antt =====
-- `std::time::Instant` as nanoseconds since an epoch.
use lmkd_linux.Prelude.{ℕ, ◌-◌, ◌*◌, ◌/◌}

abbrev pub Instant : Type 0
Instant = ℕ

abbrev pub nanos_per_sec : ℕ
nanos_per_sec = 1000000000

-- `now.duration_since(then)`, which is zero when `then` is later, in nanoseconds.
abbrev pub duration_since : Instant → Instant → ℕ
duration_since now earlier = now - earlier

-- `Duration::as_secs`.
abbrev pub as_secs : ℕ → ℕ
as_secs d = d / nanos_per_sec

abbrev pub from_secs : ℕ → ℕ
from_secs s = s * nanos_per_sec
