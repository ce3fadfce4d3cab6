-- ===== src/Clock/Bounds.antt =====
-- Times in nanoseconds: what the clock shows, and how long the waits last.
use rel4u.Prelude.{ℕ, ◌+◌, ◌-◌, ◌*◌, ◌/◌, ◌%◌, ◌^◌, ◌≤◌, ◌<◌, ◌≡◌, ap, arith}
use native.Mathlib.Nat.{div-mul-le_self, le-div_iff_mul-le}
use rel4u.Clock.{Timespec, Timeval, now_ns, now_ms, perf_now_ns, sleep_time, deadline}

-- The nanoseconds of a time.
abbrev pub total_ns : Timespec → ℕ
total_ns ts = ts.tv_sec * 1000000000 + ts.tv_nsec

-- What the two waits are given is a proper time, with less than a second of nanoseconds: for the sleep
-- `ms` milliseconds in all, for the wait on a condition the point in time that lies `ms` milliseconds
-- after a time of day with less than a second of microseconds. Both hold for every 32-bit `ms`.
pub waits_lem :
    (tv : Timeval) (ms : ℕ)
    → ms < 2 ^ 32
    → tv.tv_usec < 1000000
    → ((sleep_time ms).tv_nsec < 1000000000)
      × (total_ns (sleep_time ms) ≡ ms * 1000000)
      × ((deadline tv ms).tv_nsec < 1000000000)
      × (total_ns (deadline tv ms) ≡ tv.tv_sec * 1000000000 + tv.tv_usec * 1000 + ms * 1000000)
unfolding sleep_time deadline
waits_lem tv ms h u = (omega arith, omega arith, omega arith, omega (arith, h, u))

-- For the first 2^64 nanoseconds: the clock shows the time in nanoseconds, so a later time never shows
-- less, and the milliseconds are those nanoseconds rounded down.
pub now_ns_lem :
    (a b : Timespec)
    → total_ns b < 2 ^ 64
    → total_ns a ≤ total_ns b
    → (now_ns b ≡ total_ns b)
      × (now_ns a ≤ now_ns b)
      × (now_ns b - now_ns a ≡ total_ns b - total_ns a)
      × (now_ms (now_ns b) * 1000000 ≤ total_ns b)
      × (total_ns b < (now_ms (now_ns b) + 1) * 1000000)
unfolding now_ns now_ms
now_ns_lem a b h l =
    (omega (arith, h), omega (arith, h, l), omega (arith, h, l), omega (arith, h), omega (arith, h))

-- The clock on Windows, at a frequency of `f` counts in a second. At no counter `e` does it show
-- 2^64 / f nanoseconds or more. While the counter times 10^9 fits 64 bits, as at `c`, it shows the time
-- of the counter in nanoseconds, rounded down. And it goes back: at a later counter `d` whose product has
-- passed 2^64, by no more than the product of `c`, it shows no more than it did at `c`.
pub perf_now_ns_lem :
    (c d e f : ℕ)
    → 0 < f
    → c * 1000000000 < 2 ^ 64
    → 2 ^ 64 ≤ d * 1000000000
    → d * 1000000000 ≤ 2 ^ 64 + c * 1000000000
    → (perf_now_ns c f ≡ c * 1000000000 / f)
      × (perf_now_ns e f * f < 2 ^ 64)
      × (c < d)
      × (perf_now_ns d f ≤ perf_now_ns c f)
unfolding perf_now_ns
perf_now_ns_lem c d e f p fits over near = (
  ap (λ (x : ℕ). x / f) (omega (arith, fits)),
  omega (arith, div-mul-le_self (e * 1000000000 % 2 ^ 64) f),
  omega (arith, fits, over),
  (le-div_iff_mul-le p).1 (
      let down = div-mul-le_self (d * 1000000000 % 2 ^ 64) f in
      omega (arith, fits, over, near, down)),
)
