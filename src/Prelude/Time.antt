-- ===== src/Prelude/Time.antt =====
-- Times and durations. A `datetime` is the number of microseconds since 0001-01-01T00:00 UTC (the
-- least one Python has), and a `timedelta` of zero or more is a number of microseconds.
use Prim.Native.Nat.{ℕ, ◌-◌, ◌*◌, ◌/◌}
use osds.Prelude.Tests.{leb, if◌then◌else◌}

abbrev pub second : ℕ
second = 1000000

abbrev pub seconds : ℕ → ℕ
seconds n = n * 1000000

abbrev pub minutes : ℕ → ℕ
minutes n = n * 60000000

abbrev pub hours : ℕ → ℕ
hours n = n * 3600000000

abbrev pub days : ℕ → ℕ
days n = n * 86400000000

-- `negsuc n` is -(n + 1).
pub data ℤ : Type 0 where
  pos : ℕ → ℤ
  negsuc : ℕ → ℤ

-- `(a - b).days`: the difference in whole days, rounded towards minus infinity
abbrev pub days_between : ℕ → ℕ → ℤ
days_between a b = if leb b a then pos ((a - b) / days 1) else negsuc ((b - a - 1) / days 1)
