-- ===== src/Clock/Order.antt =====
-- Instants in order.
use quash.Prelude.{ℕ, ◌*◌, ◌^◌, ◌<◌, ◌≤◌, ◌≡◌, true, false, arith, tests}
use quash.Prelude.Int.{pos, ◌+ℤ◌, ◌≤ℤ◌}
use quash.Clock.{Time, Duration, add, after, second, seconds}

-- What lies in the past stays there.
pub after_mono : (t u d : Time) → t ≤ℤ u → after t d ≡ true → after u d ≡ true
after_mono t u d h p = omega tests

pub not-after_of_le : (t u d : Time) → t ≤ℤ u → after u d ≡ false → after t d ≡ false
not-after_of_le t u d h p = omega tests

-- A time to live that does not wrap: 9223372036 seconds, some 292 years, at most.
pub add-seconds : (t : Time) (n : ℕ) → n ≤ 9_223_372_036 → add t (seconds n) ≡ t +ℤ pos (n * second)
unfolding add seconds ◌+ℤ◌
add-seconds t n h = ground arith

-- A pattern from 2 ^ 63 on stands for a negative number, and leads into the past.
pub after-add_negative :
    (t u : Time) (d : Duration) → 2 ^ 63 ≤ d → d < 2 ^ 64 → t ≤ℤ u → after u (add t d) ≡ true
unfolding add ◌+ℤ◌
after-add_negative t u d lo hi h = ground arith

pub seconds-lt : (n : ℕ) → seconds n < 2 ^ 64
unfolding seconds
seconds-lt n = omega arith
