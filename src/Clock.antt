-- ===== src/Clock.antt =====
-- Time, as crates/core/src/verify.rs and its callers read it. An instant is the count of
-- nanoseconds since second -2^63 of the Unix epoch, so that each `i64` of seconds is a natural
-- number; an `i64` second is counted from there too. Order and differences are those of the code.
use n3ur0n.Prelude.{ltb, if◌then◌else◌, ℕ, ◌-◌, ◌*◌, ◌/◌}

abbrev pub nanos_per_second : ℕ
nanos_per_second = 1000000000

-- `OffsetDateTime::unix_timestamp`
abbrev pub unix_timestamp : ℕ → ℕ
unix_timestamp t = t / nanos_per_second

-- `(a - b).abs()`, in nanoseconds.
abbrev pub distance : ℕ → ℕ → ℕ
distance a b = if ltb a b then b - a else a - b

-- `Duration::whole_seconds` of a duration that is not negative.
abbrev pub whole_seconds : ℕ → ℕ
whole_seconds d = d / nanos_per_second

-- `Duration::from_secs`
abbrev pub from_secs : ℕ → ℕ
from_secs s = s * nanos_per_second
