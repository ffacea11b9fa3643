-- ===== src/Clock.antt =====
-- Go's time package as the program uses it. A time is the number of nanoseconds since the zero
-- `time.Time`; a duration is a number of nanoseconds.
use seagles.Common.{ℕ, ◌+◌, ◌-◌, ◌*◌, ◌/◌, ◌^◌, min}

-- The largest `time.Duration`, at which `Sub` and `Since` saturate.
abbrev pub max_duration : ℕ
max_duration = 2 ^ 63 - 1

-- `now.Sub(t)`, for a clock that does not run backwards.
abbrev pub since : ℕ → ℕ → ℕ
since now t = min (now - t) max_duration

abbrev pub second : ℕ
second = 1000000000

abbrev pub minute : ℕ
minute = 60 * second

abbrev pub hour : ℕ
hour = 60 * minute

-- 1 January 1970.
abbrev pub epoch : ℕ
epoch = 62135596800 * second

-- `t.Unix()`, for a time after the epoch, and `time.Unix (s, 0)`.
abbrev pub unix : ℕ → ℕ
unix t = (t - epoch) / second

abbrev pub from_unix : ℕ → ℕ
from_unix s = epoch + s * second
