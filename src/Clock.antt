-- ===== src/Clock.antt =====
-- `time.Time` and `time.Duration` as numbers of nanoseconds. A time counts from the zero time of Go,
-- 1 January of the year 1, so that the zero value of a missing map entry is 0. A duration computed
-- from a configured number of seconds does not wrap: the configuration's numbers are below 2^63 / 10^9.
use cpa_codex_turn_state_plu.Base.{ℕ, ◌+◌, ◌*◌}
use cpa_codex_turn_state_plu.Base.Int.{ℤ, to_nat}

abbrev pub Time : Type 0
Time = ℕ

-- `time.Second`
abbrev pub second : ℕ
second = 1_000_000_000

abbrev pub minute : ℕ
minute = 60_000_000_000

-- The seconds from the zero time to 1 January 1970.
abbrev pub unix_epoch : ℕ
unix_epoch = 62_135_596_800

-- `time.Unix seconds 0`
abbrev pub unix : ℕ → Time
unix s = (s + unix_epoch) * second

-- `time.Duration(n) * time.Second`
abbrev pub seconds : ℤ → ℕ
seconds n = to_nat n * second
