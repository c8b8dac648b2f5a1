-- ===== src/Prelude/Time.antt =====
-- time.Time and time.Duration in nanoseconds. An instant counts from Go's zero time, so that
-- `IsZero` is a test for 0.
use infinid.Prelude.{ℕ, ◌-◌, min, Bool, ◌==◌, ltb}

abbrev pub second : ℕ
second = 1_000_000_000

abbrev pub minute : ℕ
minute = 60_000_000_000

abbrev pub hour : ℕ
hour = 3_600_000_000_000

-- The largest Duration, 2^63 - 1.
abbrev pub max_duration : ℕ
max_duration = 9_223_372_036_854_775_807

-- `now.Sub(t)`, which saturates. Where `t` is after `now` the source's result is negative; every
-- use compares it with a positive constant, which 0 answers alike.
abbrev pub sub_time : ℕ → ℕ → ℕ
sub_time now t = min (now - t) max_duration

abbrev pub is_zero : ℕ → Bool
is_zero t = t == 0

abbrev pub before : ℕ → ℕ → Bool
before t u = ltb t u
