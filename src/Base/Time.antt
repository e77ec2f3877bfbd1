-- ===== src/Base/Time.antt =====
-- `std::time`: an `Instant` and a `Duration` are whole nanoseconds. `saturating_duration_since` is
-- subtraction on ℕ, which stops at 0; `elapsed` is the time since, at the moment `now` of the call.
use arbitrage_runtime.Base.{ℕ, ◌*◌, ◌-◌, ◌/◌, ◌^◌}

abbrev pub nanos_per_sec : ℕ
nanos_per_sec = 10 ^ 9

abbrev pub nanos_per_milli : ℕ
nanos_per_milli = 10 ^ 6

abbrev pub from_secs : ℕ → ℕ
from_secs s = s * nanos_per_sec

abbrev pub from_millis : ℕ → ℕ
from_millis ms = ms * nanos_per_milli

abbrev pub as_secs : ℕ → ℕ
as_secs d = d / nanos_per_sec

abbrev pub as_millis : ℕ → ℕ
as_millis d = d / nanos_per_milli

abbrev pub since : ℕ → ℕ → ℕ
since now at = now - at
