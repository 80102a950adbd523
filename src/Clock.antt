-- ===== src/Clock.antt =====
-- Go's `time` package as far as the server uses it. A `time.Time` is the number of nanoseconds
-- since a fixed instant, a whole number of any size. A `time.Duration` is an int64 of
-- nanoseconds, here its bit pattern, below 2 ^ 64; `signed` is the number that it stands for.
pub mod Order
use quash.Prelude.{ℕ, ◌+◌, ◌-◌, ◌*◌, ◌%◌, ◌^◌, Bool, ltb, if◌then◌else◌}
use quash.Prelude.Int.{ℤ, pos, negsuc, ◌+ℤ◌, ltb_ℤ}

abbrev pub Time : Type 0
Time = ℤ

abbrev pub Duration : Type 0
Duration = ℕ

abbrev pub signed : ℕ → ℤ
signed d = if ltb d (2 ^ 63) then pos d else negsuc (2 ^ 64 - 1 - d)

-- `t.Add(d)`
unfoldable pub add : Time → Duration → Time
unfolding ◌+ℤ◌
add t d = t +ℤ signed d

-- `t.After(u)`
abbrev pub after : Time → Time → Bool
after t u = ltb_ℤ u t

-- `time.Second`
abbrev pub second : Duration
second = 1_000_000_000

-- `time.Duration(n) * time.Second`, which wraps round
unfoldable pub seconds : ℕ → Duration
seconds n = (n * second) % 2 ^ 64
