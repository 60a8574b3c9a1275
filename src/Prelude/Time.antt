-- ===== src/Prelude/Time.antt =====
-- `time.Time` as the nanoseconds since Go's zero time, the start of year 1. A clock reading is
-- above 2 ^ 63 there, so that adding any `time.Duration` stays above the zero time.
use Prim.Native.Nat.{ℕ, ◌+◌, ◌-◌, ◌*◌, ◌%◌, ◌^◌}
use mathlib.Core.Bool.{Bool}
use ops_nexus.Prelude.Tests.{ltb, if◌then◌else◌}

abbrev pub Time : Type 0
Time = ℕ

-- `t.After(u)`
abbrev pub after : Time → Time → Bool
after t u = ltb u t

-- `time.Duration(hours) * time.Hour` of a number above 0: an int64, as its bit pattern
abbrev pub hours : ℕ → ℕ
hours h = h * 3600000000000 % 2 ^ 64

-- `t.Add(d)`; a pattern from 2 ^ 63 on stands for a negative duration
abbrev pub add_duration : Time → ℕ → Time
add_duration t d = if ltb d (2 ^ 63) then t + d else t - (2 ^ 64 - d)
